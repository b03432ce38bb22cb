-- ===== src/HttpCommon/Transfer/Exact.antt =====
-- Writing where the connection takes all of it.
use simult.Prelude.{
  ℕ, zero, suc, ◌+◌, ◌-◌, ◌≤◌, ◌≡◌, refl, sym, ap, ◌∙◌, Bool, true, false, Option, none, some, [],
  ◌∷◌, ◌++◌, append_assoc, append-nil, arith, leb, length, take, drop, length-append, Bytes, pos,
}
use mathlib.Core.Path.{subst}
use simult.HttpCommon.Header.{Header}
use simult.HttpBackend.Serve.{GoError}
use simult.HttpCommon.Transfer.{
  Sink, Codec, Writer, flush, buffer, add_byte, buf_conn_buffer_size, write, wrap, then_on,
  write_http_header, write_http_body, copy_n, by_encoding,
}

abbrev pub crlf : Bytes
crlf = b'\r' ∷ b'\n' ∷ []

-- The connection behind a write.
abbrev pub written : Sink → Bytes → Sink
written d p = record { sent = d.sent ++ p; room = d.room - length p }

write_fits : (d : Sink) (p : Bytes) → length p ≤ d.room → write d p ≡ (none, written d p)
unfolding write
write_fits d p h = ground arith

written-append : (d : Sink) (p q : Bytes) → written (written d p) q ≡ written d (p ++ q)
written-append d p q = rw (append_assoc d.sent p q, length-append p q, sub) refl
  where
    sub : d.room - length p - length q ≡ d.room - (length p + length q)
    sub = omega arith

-- The text of a header: what `splitHTTPHeader` reads on the other side.
abbrev pub header_text : Codec → Bytes → Header → Bytes
header_text codec status_line hdr = status_line ++ (crlf ++ (codec.print hdr ++ crlf))

-- The connection as a flush leaves it.
abbrev whole : Writer → Sink
whole w = written w.sink w.buf

-- What a write has done when the connection takes it all.
abbrev Buffered : Option GoError × Writer → Sink → Type 0
Buffered (e, w) d = (e ≡ none) × (length w.buf ≤ w.sink.room) × (whole w ≡ d)

flush_fits :
    (w : Writer)
    → length w.buf ≤ w.sink.room
    → flush w ≡ (none, record { sink = whole w; buf = [] })
unfolding flush
flush_fits w h = rw (write_fits w.sink w.buf h) refl

add_byte-Buffered :
    (full : Bool) (w : Writer) (c : ℕ)
    → length w.buf + 1 ≤ w.sink.room
    → Buffered (add_byte full w c) (written (whole w) (c ∷ []))
unfolding add_byte
add_byte-Buffered true w c h = rw (write_fits w.sink w.buf (omega arith)) (refl, omega arith, refl)
add_byte-Buffered false w c h =
    (refl, rw (length-append w.buf (c ∷ [])) h, sym (written-append w.sink w.buf (c ∷ [])))

-- The rest of a write, behind its first byte.
buffer-rest :
    (x : Option GoError × Writer) (d : Sink) (c : ℕ) (p : Bytes)
    → suc (length p) ≤ d.room
    → Buffered x (written d (c ∷ []))
    → ((w : Writer)
        → length w.buf + length p ≤ w.sink.room
        → Buffered (buffer w p) (written (whole w) p))
    → Buffered (elim x.0 [ none ↦ buffer x.1 p | some g ↦ (some g, x.1) ]) (written d (c ∷ p))
buffer-rest (none, w) d c p h (_, fits, same) next =
    let room : w.sink.room - length w.buf ≡ d.room - 1 = ap (λ (d : Sink). d.room) same in
    let (e, fits', same') = next w (omega arith) in
    (e, fits', same' ∙ ap (λ d. written d p) same ∙ written-append d (c ∷ []) p)
buffer-rest (some g, w) d c p h (e, _, _) next = absurd (cc)

buffer-Buffered :
    (w : Writer) (p : Bytes)
    → length w.buf + length p ≤ w.sink.room
    → Buffered (buffer w p) (written (whole w) p)
unfolding buffer
buffer-Buffered w [] h = (refl, omega arith, rw (append-nil (w.sink.sent ++ w.buf), full) refl)
  where
    full : w.sink.room - length w.buf - 0 ≡ w.sink.room - length w.buf
    full = omega arith
buffer-Buffered w (c ∷ p) h =
    let full = leb buf_conn_buffer_size (length w.buf) in
    buffer-rest (add_byte full w c) (whole w) c p (omega arith)
      (add_byte-Buffered full w c (omega arith)) (λ w h. buffer-Buffered w p h)

-- The step behind a write that has gone well.
then_on-Buffered :
    (x : Option GoError × Writer) (d : Sink) (f : Writer → Option GoError × Writer)
    (r : Option GoError × Writer)
    → Buffered x d
    → ((w : Writer) → length w.buf ≤ w.sink.room → whole w ≡ d → f w ≡ r)
    → (then_on (wrap x) f ≡ r) × (then_on x f ≡ r)
unfolding then_on wrap
then_on-Buffered (none, w) d f r (_, fits, same) next = (next w fits same, next w fits same)
then_on-Buffered (some e, w) d f r (h, _, _) next = absurd (cc)

-- A write behind others.
buffer-on :
    (w : Writer) (d : Sink) (p : Bytes)
    → length w.buf ≤ w.sink.room
    → whole w ≡ d
    → length p ≤ d.room
    → Buffered (buffer w p) (written d p)
buffer-on w d p fits same h =
    let room : w.sink.room - length w.buf ≡ d.room = ap (λ (d : Sink). d.room) same in
    subst (λ e. Buffered (buffer w p) (written e p)) same (buffer-Buffered w p (omega arith))

pub write_http_header_fits :
    (codec : Codec) (d : Sink) (status_line : Bytes) (hdr : Header)
    → length (header_text codec status_line hdr) ≤ d.room
    → write_http_header codec d status_line hdr
      ≡ (none, written d (header_text codec status_line hdr))
unfolding write_http_header wrap
write_http_header_fits codec d s hdr h =
    let w0 : Writer = record { sink = d; buf = [] } in
    let full : d.room - 0 ≡ d.room = omega arith in
    let start : whole w0 ≡ d = rw (append-nil d.sent, full) refl in
    let l : length (s ++ crlf) + (length (codec.print hdr) + length crlf)
        ≡ length (s ++ (crlf ++ (codec.print hdr ++ crlf))) =
      rw
        (
          length-append s crlf,
          length-append s (crlf ++ (codec.print hdr ++ crlf)),
          length-append (codec.print hdr) crlf,
        )
        (omega arith) in
    let d1 : Sink = written d (s ++ crlf) in
    let d2 : Sink = written d1 (codec.print hdr) in
    let d3 : Sink = written d2 crlf in
    let last : Option GoError × Writer = (none, record { sink = d3; buf = [] }) in
    let steps =
      then_on-Buffered (buffer w0 (s ++ crlf)) d1 _ last
        (buffer-on w0 d (s ++ crlf) (omega arith) start (omega (arith, l, h)))
        (λ w fits same.
          (then_on-Buffered (buffer w (codec.print hdr)) d2 _ last
            (buffer-on w d1 (codec.print hdr) fits same (omega (arith, l, h)))
            (λ w fits same.
              (then_on-Buffered (buffer w crlf) d3 _ last
                (buffer-on w d2 crlf fits same (omega (arith, l, h)))
                (λ w fits same.
                  rw (flush_fits w fits)
                    (ap (λ d. (none, record { sink = d; buf = [] })) same))).1)).0) in
    ap (λ x. (x.0, x.1.sink)) steps.0
    ∙ ap (λ d. (none, d))
        (rw
          (
            written-append (written d (s ++ crlf)) (codec.print hdr) crlf,
            written-append d (s ++ crlf) (codec.print hdr ++ crlf),
            append_assoc s crlf (codec.print hdr ++ crlf),
          )
          refl)

length-take : (n : ℕ) (s : Bytes) → n ≤ length s → length (take n s) ≡ n
length-take zero s h = refl
length-take (suc n) [] h = absurd (omega arith)
length-take (suc n) (c ∷ s) h = ap suc (length-take n s (omega arith))

pub write_http_body_exact :
    (codec : Codec) (ready : ℕ) (d : Sink) (src : Bytes) (n : ℕ)
    → n ≤ length src
    → n ≤ d.room
    → write_http_body codec ready d src (pos n) []
      ≡ record { failure = none; dst = written d (take n src); rest = drop n src }
unfolding write_http_body by_encoding copy_n wrap
write_http_body_exact codec ready d src zero h k = rw (append-nil d.sent, full) refl
  where
    full : d.room - 0 ≡ d.room
    full = omega arith
write_http_body_exact codec ready d src (suc n) h k =
    rw (write_fits d (take (suc n) src) (rw (length-take (suc n) src h) k)) ground arith
