-- ===== src/HttpFrontend/Route.antt =====
-- pkg/lb/httpfrontend.go: routes, restrictions, and the choice of a backend. A backend is a number,
-- under which the frontend's owner keeps it. Hosts and paths are lower-cased by ASCII letters, so
-- those with other capital letters are outside the model.
pub mod Groups
pub mod Choice
use Prim.Native.Nat.{bit_and}
use simult.Prelude.{
  ℕ, zero, suc, ◌+◌, ◌-◌, ◌*◌, ◌/◌, Bool, true, false, not, ◌&&◌, ◌||◌, Option, none, some, List,
  [], ◌∷◌, ◌++◌, map, ◌==◌, if◌then◌else◌, length, drop, Bytes, codes, strip_prefix, lower,
  to_lower,
}
use simult.HttpCommon.Paths.{normalize_path}
use simult.HttpFrontend.Pattern.{Atom, match_string, pattern_to_rgx}

-- `net.IPNet` as `ParseCIDR` makes it: the address and the mask have the same length.
pub record IpNet : Type 0 where
  pub ip : Bytes
  pub mask : Bytes

pub record HttpFrontendRestriction : Type 0 where
  pub network : Option IpNet
  pub path : Bytes
  pub invert : Bool
  pub and_after : Bool
  pub path_rgx : Option (Option (List Atom))  -- the outer `none` is nil

pub record HttpFrontendRoute : Type 0 where
  pub host : Bytes
  pub path : Bytes
  pub backend : Option ℕ
  pub backup : Option ℕ
  pub restrictions : List HttpFrontendRestriction
  pub host_rgx : Option (List Atom)
  pub path_rgx : Option (List Atom)

abbrev star_if_empty : Bytes → Bytes
star_if_empty [] = codes "*"
star_if_empty (c ∷ s) = c ∷ s

abbrev rgx_unless_empty : Bytes → Option (Option (List Atom))
rgx_unless_empty [] = none
rgx_unless_empty (c ∷ s) = some (pattern_to_rgx (c ∷ s))

pub copy_restriction : HttpFrontendRestriction → HttpFrontendRestriction
copy_restriction r = record r { path_rgx = rgx_unless_empty r.path }

-- The body of the loop of `CopyFrom`.
pub copy_route : HttpFrontendRoute → HttpFrontendRoute
copy_route r = record r {
  host = star_if_empty r.host;
  path = star_if_empty r.path;
  restrictions = map copy_restriction r.restrictions;
  host_rgx = pattern_to_rgx (star_if_empty r.host);
  path_rgx = pattern_to_rgx (star_if_empty r.path);
}

-- `MatchString` of a compiled expression.
unfoldable pub matches : Option (List Atom) → Bytes → Bool
matches none s = false
matches (some rgx) s = match_string rgx s

-- `x & m == n & m`, byte by byte; addresses of another length are outside the network.
unfoldable pub masked_eq : Bytes → Bytes → Bytes → Bool
masked_eq [] [] [] = true
masked_eq (x ∷ xs) (n ∷ ns) (m ∷ ms) = bit_and x m == bit_and n m && masked_eq xs ns ms
masked_eq _ _ _ = false

abbrev zeros : ℕ → Bytes
zeros zero = []
zeros (suc n) = 0 ∷ zeros n

-- `To4`: an IPv4 address behind its IPv6 prefix.
unfoldable pub to4 : Bytes → Bytes
to4 ip = elim (strip_prefix (zeros 10 ++ 255 ∷ 255 ∷ []) ip) [
  | none ↦ ip
  | some rest ↦ if length rest == 4 then rest else ip
]

-- The mask that fits the address: the end of a long mask where the address is a short one.
unfoldable pub cut_mask : Bytes → Bytes → Bytes
cut_mask number mask = if length number == 4 && length mask == 16 then drop 12 mask else mask

-- `IPNet.Contains`, with `networkNumberAndMask`.
unfoldable pub net_contains : IpNet → Bytes → Bool
unfolding masked_eq to4 cut_mask
net_contains n ip = let number = to4 n.ip in masked_eq (to4 ip) number (cut_mask number n.mask)

-- `ok = !ok` under `Invert`.
abbrev pub inverted : Bool → Bool → Bool
inverted true b = not b
inverted false b = b

-- The network part of a restriction; `none` is a remote address that is not TCP.
abbrev pub network_ok : Option Bytes → HttpFrontendRestriction → Option IpNet → Bool
network_ok none r n = false
network_ok (some ip) r none = false
network_ok (some ip) r (some n) = inverted r.invert (net_contains n ip)

abbrev pub path_ok : Bytes → HttpFrontendRestriction → Option (Option (List Atom)) → Bool
path_ok path r none = false
path_ok path r (some rgx) = inverted r.invert (matches rgx path || matches rgx (path ++ codes "/"))

pub restriction_ok : Option Bytes → Bytes → HttpFrontendRestriction → Bool
restriction_ok remote path r = network_ok remote r r.network || path_ok path r r.path_rgx

-- The loop of `isRouteRestricted`, over its variable `andOK`.
pub scan : (HttpFrontendRestriction → Bool) → Bool → List HttpFrontendRestriction → Bool
scan ok and_ok [] = false
scan ok and_ok (r ∷ rs) = elim r.and_after [
  | false ↦ elim (and_ok && ok r) [ true ↦ true | false ↦ scan ok true rs ]
  | true ↦ scan ok (and_ok && ok r) rs
]

pub is_route_restricted : Option Bytes → Bytes → HttpFrontendRoute → Bool
is_route_restricted remote path route = scan (restriction_ok remote path) true route.restrictions

-- What `findBackend` reads and sets of the request.
pub record Request : Type 0 where
  pub remote : Option Bytes  -- the address of a TCP client
  pub url_host : Bytes  -- feURL.Hostname()
  pub url_path : Bytes  -- feURL.Path
  pub fe_host : Bytes
  pub fe_path : Bytes

pub record Defaults : Type 0 where
  pub default_backend : Option ℕ
  pub default_backup : Option ℕ

pub request_path : Request → Bytes
request_path q = to_lower (normalize_path q.url_path)

-- The condition of the loop of `findBackend`.
pub route_matches : Request → HttpFrontendRoute → Bool
route_matches q route =
    matches route.host_rgx (to_lower q.url_host)
    && (matches route.path_rgx (request_path q)
        || matches route.path_rgx (request_path q ++ codes "/"))

-- The body of its `if`.
pub take_route : Request → HttpFrontendRoute → (Option ℕ × Option ℕ) × Request
take_route q route = (
  if is_route_restricted q.remote (request_path q) route
      then (none, none)
      else (route.backend, route.backup),
  record q { fe_host = route.host; fe_path = route.path },
)

-- `findBackend`: the backend, the backup, and the request with its labels.
pub find_backend : Defaults → Request → List HttpFrontendRoute → (Option ℕ × Option ℕ) × Request
find_backend d q [] =
    ((d.default_backend, d.default_backup), record q { fe_host = codes "*"; fe_path = codes "*" })
find_backend d q (route ∷ routes) = elim (route_matches q route) [
  | true ↦ take_route q route
  | false ↦ find_backend d q routes
]
