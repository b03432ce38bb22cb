-- ===== src/HostPort.antt =====
-- pkg/lb/lb.go, `splitHostPort`: the host and the port of a listener's address.
pub mod RoundTrip
use simult.Prelude.{
  ℕ, ◌-◌, ◌/◌, Bool, true, false, Option, none, some, [], ◌∷◌, ◌==◌, if◌then◌else◌, all, Bytes,
  is_digit,
}

-- The slices around the last occurrence of a byte, by `strings.LastIndexByte`.
pub cut_last : ℕ → Bytes → Option (Bytes × Bytes)
cut_last b [] = none
cut_last b (c ∷ s) = elim (cut_last b s) [
  | some (l, r) ↦ some (c ∷ l, r)
  | none ↦ if c == b then some ([], s) else none
]

pub valid_optional_port : Bytes → Bool
valid_optional_port [] = true
valid_optional_port (c ∷ s) = if c == b':' then all is_digit s else false

-- The host and the port around the last colon, if there is one.
pub at_colon : Bytes → Option (Bytes × Bytes) → Bytes × Bytes
at_colon hostport none = (hostport, [])
at_colon hostport (some (l, r)) = if valid_optional_port (b':' ∷ r) then (l, r) else (hostport, [])

-- A text that ends in `]`, without it.
pub before_bracket : Bytes → Option Bytes
before_bracket [] = none
before_bracket (c ∷ []) = if c == b']' then some [] else none
before_bracket (c ∷ d ∷ s) = elim (before_bracket (d ∷ s)) [ none ↦ none | some t ↦ some (c ∷ t) ]

pub strip_brackets : Bytes → Bytes
strip_brackets [] = []
strip_brackets (c ∷ s) =
    if c == b'[' then elim (before_bracket s) [ none ↦ c ∷ s | some t ↦ t ] else c ∷ s

-- `splitHostPort`.
pub split_host_port : Bytes → Bytes × Bytes
split_host_port hostport =
    let (host, port) = at_colon hostport (cut_last b':' hostport) in (strip_brackets host, port)
