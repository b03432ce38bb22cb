-- ===== src/HttpCommon/Transfer.antt =====
-- pkg/lb/httpcommon.go: `writeHTTPHeader` and `writeHTTPBody`. What net/http and net/http/httputil do
-- on the way is a parameter; the counts of bytes, which no caller uses, are left out.
pub mod Exact
use simult.Prelude.{
  ℕ, zero, suc, ◌+◌, ◌-◌, ◌*◌, ◌/◌, Bool, true, false, not, ◌||◌, Option, none, some, [], ◌∷◌, ◌++◌,
  leb, if◌then◌else◌, is_some, length, take, drop, ℤ, Bytes, codes, ◌=ᵇ◌, ◌>>=◌, ◌>>◌, pos, negsuc,
}
use simult.HttpCommon.Header.{Header}
use simult.HttpBackend.Serve.{GoError, http_error, other, protocol, communication}

-- A connection to write to: what has been sent, and how many bytes it takes before it fails.
pub record Sink : Type 0 where
  pub sent : Bytes
  pub room : ℕ

-- `Header.Write`; the chunked reader, with the payload, what it leaves and whether it fails; and the
-- chunked writer before its `Close`, which writes `0\r\n`.
pub record Codec : Type 0 where
  pub print : Header → Bytes
  pub decode : Bytes → Bytes × Bytes × Bool
  pub encode : Bytes → Bytes

pub write : Sink → Bytes → Option GoError × Sink
write d p =
    if leb (length p) d.room
    then (none, record { sent = d.sent ++ p; room = d.room - length p })
    else (some other, record { sent = d.sent ++ take d.room p; room = 0 })

-- `bufConnBufferSize`.
abbrev pub buf_conn_buffer_size : ℕ
buf_conn_buffer_size = 4 * 1024

-- `bufio.Writer` over a connection: what it holds back.
pub record Writer : Type 0 where
  pub sink : Sink
  pub buf : Bytes

-- `Flush`; behind an error the rest of the buffer is never sent.
pub flush : Writer → Option GoError × Writer
unfolding write
flush w = let (e, d) = write w.sink w.buf in (e, record { sink = d; buf = [] })

-- One byte more; a full buffer is flushed first.
pub add_byte : Bool → Writer → ℕ → Option GoError × Writer
unfolding flush
add_byte true w c = let (e, w') = flush w in (e, record w' { buf = w'.buf ++ c ∷ [] })
add_byte false w c = (none, record w { buf = w.buf ++ c ∷ [] })

-- `Write`. In Go one that is longer than an empty buffer goes out at once; here too it goes by the
-- buffer.
pub buffer : Writer → Bytes → Option GoError × Writer
unfolding add_byte
buffer w [] = (none, w)
buffer w (c ∷ p) =
    let (e, w') = add_byte (leb buf_conn_buffer_size (length w.buf)) w c in
    elim e [ none ↦ buffer w' p | some g ↦ (some g, w') ]

-- `wrapHTTPError` for the group of the communication.
pub wrap : {A : Type 0} → Option GoError × A → Option GoError × A
wrap (none, d) = (none, d)
wrap (some e, d) = (some (http_error communication), d)

-- The next step, unless there is an error.
pub then_on : {A : Type 0} → Option GoError × A → (A → Option GoError × A) → Option GoError × A
then_on (none, d) f = f d
then_on (some e, d) f = (some e, d)

-- The last write is not wrapped, and the flush behind it is. The buffer is empty before, since every
-- header and body ends with a flush.
pub write_http_header : Codec → Sink → Bytes → Header → Option GoError × Sink
unfolding flush buffer wrap then_on
write_http_header codec d status_line hdr =
    let (e, w) =
      then_on (wrap (buffer (record { sink = d; buf = [] }) (status_line ++ b'\r' ∷ b'\n' ∷ [])))
        (λ w.
          then_on (wrap (buffer w (codec.print hdr)))
            (λ w. then_on (buffer w (b'\r' ∷ b'\n' ∷ [])) (λ w. wrap (flush w)))) in
    (e, w.sink)

-- How a copy ends; `rest` is what the source still has where there is no failure.
pub record Copied : Type 0 where
  pub failure : Option GoError
  pub dst : Sink
  pub rest : Bytes

-- `io.Copy` up to the end, which is an error to the caller.
pub copy_all : Sink → Bytes → Copied
unfolding write
copy_all d src = record {
  failure = some (http_error communication);
  dst = (write d src).1;
  rest = [];
}

-- `io.CopyN`.
pub copy_n : ℕ → Sink → Bytes → Copied
unfolding write wrap
copy_n n d src =
    let (e, d') = wrap (write d (take n src)) in
    record {
      failure = if is_some e || leb n (length src) then e else some (http_error communication);
      dst = d';
      rest = drop n src;
    }

-- Behind the last chunk: one `Read` of two bytes, of which `ready` are there.
pub copy_end : ℕ → Sink → Bytes → Copied
unfolding write wrap
copy_end ready d src =
    let crlf = take ready (take 2 src) in
    let rest = drop (length crlf) src in
    if crlf =ᵇ []
    then record { failure = some (http_error communication); dst = d; rest = rest }
    else (if crlf =ᵇ b'\r' ∷ b'\n' ∷ []
        then (let (e, d') = wrap (write d crlf) in record { failure = e; dst = d'; rest = rest })
        else record { failure = some (http_error protocol); dst = d; rest = rest })

-- Behind `Close` of the chunked writer.
pub close_chunked : ℕ → Option GoError × Sink → Bytes → Copied
unfolding copy_end
close_chunked ready (none, d) src = copy_end ready d src
close_chunked ready (some e, d) src = record { failure = some e; dst = d; rest = src }

pub copy_chunked : Codec → ℕ → Sink → Bytes → Copied
unfolding write wrap close_chunked
copy_chunked codec ready d src =
    let (payload, rest, failed) = codec.decode src in
    let (e, d') = wrap (write d (codec.encode payload)) in
    if failed || is_some e
    then record { failure = some (http_error communication); dst = d'; rest = rest }
    else close_chunked ready (wrap (write d' (codes "0\r\n"))) rest

-- The switch over the encoding, where the body is `plain` without one.
pub by_encoding : Codec → ℕ → Sink → Bytes → Bytes → Copied → Copied
unfolding copy_chunked
by_encoding codec ready d src transfer_encoding plain =
    if transfer_encoding =ᵇ []
    then plain
    else (if transfer_encoding =ᵇ codes "chunked"
        then copy_chunked codec ready d src
        else record { failure = some (http_error protocol); dst = d; rest = src })

-- `writeHTTPBody` for the number of bytes that are there for the last `Read`.
unfoldable pub write_http_body : Codec → ℕ → Sink → Bytes → ℤ → Bytes → Copied
unfolding copy_all copy_n by_encoding
write_http_body codec ready d src (pos zero) transfer_encoding = record {
  failure = none;
  dst = d;
  rest = src;
}
write_http_body codec ready d src (pos (suc n)) transfer_encoding =
    by_encoding codec ready d src transfer_encoding (copy_n (suc n) d src)
write_http_body codec ready d src (negsuc n) transfer_encoding =
    by_encoding codec ready d src transfer_encoding (copy_all d src)
