-- ===== src/BufConn/Life.antt =====
-- A connection over its life: what the counters account for, and that it never comes back.
use simult.Prelude.{
  ℕ, ◌+◌, ◌≡◌, refl, sym, inl, inr, false, Option, none, some, List, [], ◌∷◌, ◌++◌, append_assoc,
  append-nil, arith, Option-cases, length, length-append, Bytes,
}
use simult.BufConn.{
  IoError, BufConn, ReadEvent, add_written, forward, hang_up, pipe_read, close,
  swap_time_to_first_byte, stats, check,
}

-- What happens to a connection.
pub data Event : Type 0 where
  reads : List ReadEvent → Event
  writes : ℕ → Event
  takes_stats : Event
  takes_time : Event
  closes : Event

pub step : BufConn → Event → BufConn
step bc (reads rs) = pipe_read bc rs
step bc (writes n) = add_written bc n
step bc takes_stats = (stats bc).1
step bc takes_time = (swap_time_to_first_byte bc).1
step bc closes = close bc

pub run : BufConn → List Event → BufConn
run bc [] = bc
run bc (e ∷ es) = run (step bc e) es

pipe_read-check :
    (bc : BufConn) (rs : List ReadEvent) → check bc ≡ false → check (pipe_read bc rs) ≡ false
unfolding pipe_read check forward hang_up
pipe_read-check bc [] h = h
pipe_read-check bc (r ∷ rs) h = ground (arith, pipe_read-check (forward bc r.now r.chunk) rs)

step-check : (bc : BufConn) (e : Event) → check bc ≡ false → check (step bc e) ≡ false
unfolding step
step-check bc (reads rs) h = pipe_read-check bc rs h
step-check bc (writes n) h = unfold check add_written in h
step-check bc takes_stats h = unfold check stats in h
step-check bc takes_time h = unfold check swap_time_to_first_byte in h
step-check bc closes h = unfold check close in ground arith

run-check : (bc : BufConn) (es : List Event) → check bc ≡ false → check (run bc es) ≡ false
unfolding run
run-check bc [] h = h
run-check bc (e ∷ es) h = run-check (step bc e) es (step-check bc e h)

close-check : (bc : BufConn) → check (close bc) ≡ false
unfolding close check
close-check bc = ground arith

-- A closed connection never passes the check again, whatever happens to it afterwards.
pub close_is_final : (bc : BufConn) (es : List Event) → check (run (close bc) es) ≡ false
close_is_final bc es = run-check (close bc) es (close-check bc)

-- The bytes that the reads deliver, up to the first error.
abbrev pub delivered : List ReadEvent → Bytes
delivered [] = []
delivered (r ∷ rs) = r.chunk ++ (elim r.err [ none ↦ delivered rs | some e ↦ [] ])

abbrev pub failure : List ReadEvent → Option IoError
failure [] = none
failure (r ∷ rs) = elim r.err [ none ↦ failure rs | some e ↦ some e ]

abbrev pub or_else : Option IoError → Option IoError → Option IoError
or_else none b = b
or_else (some a) b = some a

forward_adds :
    (bc : BufConn) (now : ℕ) (chunk : Bytes)
    → ((forward bc now chunk).piped ≡ bc.piped ++ chunk)
      × ((forward bc now chunk).sr_n ≡ bc.sr_n + length chunk)
      × ((forward bc now chunk).pe ≡ bc.pe)
unfolding forward
forward_adds bc now [] = (sym (append-nil bc.piped), ground arith, refl)
forward_adds bc now (b ∷ chunk) = (ground arith, ground arith, ground arith)

-- The background reader hands on exactly the bytes read before the first error, counts each of
-- them once, and stores that error and no other.
pub pipe_read_delivers :
    (bc : BufConn) (rs : List ReadEvent)
    → ((pipe_read bc rs).piped ≡ bc.piped ++ delivered rs)
      × ((pipe_read bc rs).sr_n ≡ bc.sr_n + length (delivered rs))
      × ((pipe_read bc rs).pe ≡ or_else (failure rs) bc.pe)
unfolding pipe_read hang_up
pipe_read_delivers bc [] = (sym (append-nil bc.piped), omega arith, refl)
pipe_read_delivers bc (r ∷ rs) =
    let (fp, fn, fe) = forward_adds bc r.now r.chunk in
    let (ip, in_n, ie) = pipe_read_delivers (forward bc r.now r.chunk) rs in
    let la = length-append r.chunk (delivered rs) in
    let aa = append_assoc bc.piped r.chunk (delivered rs) in
    let an = append-nil r.chunk in
    elim (Option-cases r.err) [
      | inl e ↦ rw e (cc (ip, fp, aa), omega arith, cc (ie, fe))
      | inr (x, e) ↦ rw e (cc (fp, an), ground (arith, fn, an), refl)
    ]
