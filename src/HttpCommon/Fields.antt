-- ===== src/HttpCommon/Fields.antt =====
-- pkg/lb/httpcommon.go: `httpContentLength` and the labels of the metrics.
pub mod Length
use simult.Prelude.{
  ℕ, ◌+◌, ◌-◌, ◌*◌, ◌/◌, ◌^◌, ◌&&◌, Option, none, some, List, [], ◌∷◌, ltb, if◌then◌else◌, any, ℤ,
  ltb_ℤ, Bytes, codes, ◌=ᵇ◌, is_digit, pos, negsuc,
}
use simult.HttpBackend.Serve.{HttpErrGroup, protocol}

abbrev pub bound : ℕ
bound = 2 ^ 63

-- The loop of `strconv.ParseUint`, behind a value already read; the value stays below `limit`.
pub scan_uint : ℕ → ℕ → Bytes → Option ℕ
scan_uint limit n [] = some n
scan_uint limit n (c ∷ s) =
    let n' = n * 10 + (c - b'0') in
    let rest = scan_uint limit n' s in if is_digit c && ltb n' limit then rest else none

unfoldable pub parse_uint : ℕ → Bytes → Option ℕ
unfolding scan_uint
parse_uint limit [] = none
parse_uint limit (c ∷ s) = scan_uint limit 0 (c ∷ s)

-- The conversion of a `uint64`.
pub int64 : ℕ → ℤ
int64 n = if ltb n bound then pos n else negsuc (2 ^ 64 - n - 1)

pub of_uint : Option ℕ → ℤ × Option HttpErrGroup
unfolding int64
of_uint none = (negsuc 0, some protocol)
of_uint (some n) = if ltb_ℤ (int64 n) (pos 0) then (negsuc 0, some protocol) else (int64 n, none)

-- `httpContentLength`, over the value of the header.
unfoldable pub http_content_length : Bytes → ℤ × Option HttpErrGroup
unfolding of_uint
http_content_length s = if s =ᵇ [] then (negsuc 0, none) else of_uint (parse_uint bound s)

pub group_http_status_code : Bytes → Bytes
group_http_status_code (c ∷ d ∷ e ∷ []) = if is_digit c then c ∷ codes "xx" else codes "xxx"
group_http_status_code _ = codes "xxx"

abbrev pub methods : List Bytes
methods =
    codes "GET"
    ∷ codes "HEAD"
    ∷ codes "POST"
    ∷ codes "PUT"
    ∷ codes "DELETE"
    ∷ codes "CONNECT"
    ∷ codes "OPTIONS"
    ∷ codes "TRACE"
    ∷ codes "PATCH"
    ∷ []

pub group_http_status_method : Bytes → Bytes
group_http_status_method method = if any (λ m. method =ᵇ m) methods then method else codes "unknown"
