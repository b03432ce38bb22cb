-- ===== src/BufConn.antt =====
-- pkg/lb/bufconn.go and pkg/lb/statsrw.go: a connection with byte counters and a background reader.
-- The counters and the time are unbounded numbers. The pipe and the two buffers of the connection
-- are one byte sequence, what the background reader has handed on.
pub mod Life
use simult.Prelude.{
  ℕ, ◌+◌, ◌-◌, ◌/◌, Bool, true, false, Option, none, some, List, [], ◌∷◌, ◌++◌, ltb, if◌then◌else◌,
  length, Bytes,
}

-- What ends a read loop.
pub data IoError : Type 0 where
  eof timed_out closed_locally broken : IoError

pub record BufConn : Type 0 where
  pub pe : Option IoError  -- `none` is nil
  pub sr_n : ℕ
  pub sw_n : ℕ
  pub time_to_first_byte : Option ℕ  -- `none` is the nil pointer
  pub piped : Bytes
  pub piped_end : Option IoError
  pub closed : Bool

unfoldable pub new_buf_conn : BufConn
new_buf_conn = record {
  pe = none;
  sr_n = 0;
  sw_n = 0;
  time_to_first_byte = none;
  piped = [];
  piped_end = none;
  closed = false;
}

-- `statsReader.Read` and `statsWriter.Write` add what was moved, if anything was.
pub add_read : BufConn → ℕ → BufConn
add_read bc n = record bc { sr_n = if ltb 0 n then bc.sr_n + n else bc.sr_n }

pub add_written : BufConn → ℕ → BufConn
add_written bc n = record bc { sw_n = if ltb 0 n then bc.sw_n + n else bc.sw_n }

-- `CompareAndSwapPointer(&timeToFirstByte, nil, &now)`.
abbrev set_once : Option ℕ → ℕ → Option ℕ
set_once none now = some now
set_once (some t) now = some t

-- The body of the loop of `pipeRead`, before its error is looked at.
forward : BufConn → ℕ → Bytes → BufConn
unfolding add_read
forward bc now chunk =
    let bc' = add_read bc (length chunk) in
    if ltb 0 (length chunk)
    then record bc' {
      time_to_first_byte = set_once bc.time_to_first_byte now;
      piped = bc.piped ++ chunk;
    }
    else bc'

-- After the loop: the pipe is closed with the error, which is then stored.
hang_up : BufConn → IoError → BufConn
hang_up bc e = record bc { piped_end = some e; pe = some e }

-- One read of `pipeRead`: its time, its bytes and its error.
pub record ReadEvent : Type 0 where
  pub now : ℕ
  pub chunk : Bytes
  pub err : Option IoError

-- `pipeRead` over the reads that the connection answers; the loop ends at the first error, and
-- blocks where the answers end.
pub pipe_read : BufConn → List ReadEvent → BufConn
pipe_read bc [] = bc
pipe_read bc (r ∷ rs) =
    let bc' = forward bc r.now r.chunk in
    elim r.err [ none ↦ pipe_read bc' rs | some e ↦ hang_up bc' e ]

-- `Close` stores an error only if there is none.
unfoldable pub close : BufConn → BufConn
close bc = record bc { pe = elim bc.pe [ none ↦ some eof | some e ↦ some e ]; closed = true }

-- `TimeToFirstByte` swaps the pointer with nil.
pub swap_time_to_first_byte : BufConn → Option ℕ × BufConn
swap_time_to_first_byte bc = (bc.time_to_first_byte, record bc { time_to_first_byte = none })

-- `Stats` swaps both counters with 0.
unfoldable pub stats : BufConn → (ℕ × ℕ) × BufConn
stats bc = ((bc.sr_n, bc.sw_n), record bc { sr_n = 0; sw_n = 0 })

unfoldable pub check : BufConn → Bool
check bc = elim bc.pe [ none ↦ true | some e ↦ false ]
