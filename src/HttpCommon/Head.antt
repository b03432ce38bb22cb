-- ===== src/HttpCommon/Head.antt =====
-- pkg/lb/httpcommon.go, `splitHTTPHeader`: a status line and headers are read from a buffered
-- reader. The reader is the bytes that are still to come and the size of its buffer; behind the
-- bytes the reading fails.
pub mod Slices
pub mod Reference
use simult.Prelude.{
  ℕ, zero, suc, ◌+◌, ◌-◌, ◌*◌, ◌/◌, not, Option, none, some, [], ◌∷◌, ◌++◌, ltb, ◌==◌,
  if◌then◌else◌, length, Bytes, ◌=ᵇ◌, cut_byte, trim_left, drop_last,
}
use simult.HttpCommon.Header.{Header, add}
use simult.HttpBackend.Serve.{GoError, http_error, other, protocol, communication}

-- The constants of lb.go.
abbrev pub max_http_header_line_len : ℕ
max_http_header_line_len = 1 * 1024 * 1024

abbrev pub max_http_headers_len : ℕ
max_http_headers_len = 10 * 1024 * 1024

-- How `ReadSlice` ends: with the delimiter, with `ErrBufferFull`, or with the reader's error.
pub data SliceEnd : Type 0 where
  found full ended : SliceEnd

-- `ReadSlice('\n')`: the slice, what is left, and how it ends.
pub read_slice : ℕ → Bytes → Bytes × Bytes × SliceEnd
read_slice zero s = ([], s, full)
read_slice (suc size) [] = ([], [], ended)
read_slice (suc size) (c ∷ s) =
    let (slice, rest, e) = read_slice size s in
    if c == b'\n' then (c ∷ [], s, found) else (c ∷ slice, rest, e)

-- The variables of the loop; `hdr` and `status_line` are results, too.
pub record Head : Type 0 where
  pub status_line : Bytes
  pub hdr : Header
  pub nr : ℕ
  pub line : Bytes

pub record Split : Type 0 where
  pub head : Head
  pub failure : Option GoError
  pub rest : Bytes

-- A return with an error; the line that was read so far is dropped.
abbrev pub stop : Head → Bytes → GoError → Split
stop h rest e = record { head = record h { line = [] }; failure = some e; rest = rest }

-- A line that ends in a newline, without its end.
pub chop : Bytes → Option Bytes
chop line = elim (drop_last b'\n' line) [
  | none ↦ none
  | some l ↦ some (elim (drop_last b'\r' l) [ none ↦ l | some t ↦ t ])
]

-- A header line: a name, and behind a colon the value without its leading spaces.
pub add_line : Header → Bytes → Header
add_line hdr line = elim (cut_byte b':' line) [
  | none ↦ add hdr line []
  | some (name, value) ↦ add hdr name (trim_left value)
]

-- A line that is not empty: the first is the status line.
pub take_line : Head → Bytes → Head
unfolding add_line
take_line h line =
    if h.status_line =ᵇ []
    then record h { status_line = line; line = [] }
    else record h { hdr = add_line h.hdr line; line = [] }

-- The end of a round: the loop goes on with `more`, unless the line is empty.
pub end_line : Option Bytes → Head → Bytes → (Head → Split) → Split
unfolding take_line
end_line none h rest more = more h
end_line (some []) h rest more = record {
  head = record h { line = [] };
  failure = none;
  rest = rest;
}
end_line (some (c ∷ line)) h rest more = more (take_line h (c ∷ line))

-- The round behind `ReadSlice`, for what it answered.
pub on_slice : Bytes → Bytes → SliceEnd → Head → (Head → Split) → Split
on_slice slice rest e h more =
    let h' = record h { nr = h.nr + length slice } in
    let h'' = record h' { line = h.line ++ slice } in
    if ltb max_http_headers_len h'.nr then stop h' rest (http_error protocol) else elim e [
      | ended ↦ stop h' rest (http_error communication)
      | full ↦
          if ltb max_http_header_line_len (length h''.line)
          then stop h' rest (http_error protocol)
          else more h''
      | found ↦
          if ltb max_http_header_line_len (length h''.line)
          then stop h' rest (http_error protocol)
          else end_line (chop h''.line) h'' rest more
    ]

-- The loop, on fuel; `other` marks that the fuel ran out.
pub read_head : ℕ → ℕ → Head → Bytes → Split
read_head size zero h s = stop h s other
read_head size (suc fuel) h s =
    let (slice, rest, e) = read_slice size s in
    on_slice slice rest e h (λ h'. read_head size fuel h' rest)

abbrev pub empty_head : Head
empty_head = record { status_line = []; hdr = []; nr = 0; line = [] }

-- `splitHTTPHeader` for a buffer of the size `size`.
pub split_http_header : ℕ → Bytes → Split
split_http_header size s = read_head size (suc (length s)) empty_head s
