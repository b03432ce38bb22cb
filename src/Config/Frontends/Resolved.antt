-- ===== src/Config/Frontends/Resolved.antt =====
-- The names of backends that a frontend's options have been made from.
use simult.Prelude.{
  ℕ, ◌≡◌, refl, Bool, true, false, ◌&&◌, ◌||◌, Option, none, some, List, [], ◌∷◌, if◌then◌else◌,
  is_some, all, Bytes, ◌=ᵇ◌, ◌>>=◌, require, ok_parts, ok,
}
use simult.HttpFrontend.Route.{IpNet}
use simult.Config.{Defaults, Route, Frontend}
use simult.Config.Options.{AppError, backend_not_found, backup_not_found, find, backend_of}
use simult.Config.Frontends.{restriction_options, route_options, frontend_options}

-- A name is empty, or it stands for a backend.
abbrev pub known : List (Bytes × ℕ) → Bytes → Bool
known backends name = name =ᵇ [] || is_some (find name backends)

abbrev pub route_known : List (Bytes × ℕ) → Route → Bool
route_known backends r = known backends r.backend && known backends r.backup

abbrev pub frontend_known : List (Bytes × ℕ) → Frontend → Bool
frontend_known backends f =
    known backends f.default_backend
    && known backends f.default_backup
    && all (route_known backends) f.routes

backend_of-known :
    (e : AppError) (backends : List (Bytes × ℕ)) (name : Bytes) {o : Option ℕ}
    → backend_of e backends name ≡ ok o
    → known backends name ≡ true
unfolding backend_of
backend_of-known e backends name h = go (name =ᵇ []) (find name backends) h
  where
    go :
        (b : Bool) (o : Option ℕ) {x : Option ℕ}
        → (if b then ok none else (do i ← require e o; ok (some i))) ≡ ok x
        → (b || is_some o) ≡ true
    go true o h = refl
    go false (some i) h = refl
    go false none h = cc

route_options-known :
    (parse_cidr : Bytes → Option IpNet) (backends : List (Bytes × ℕ)) (rs : List Route)
    {routes : List _}
    → route_options parse_cidr backends rs ≡ ok routes
    → all (route_known backends) rs ≡ true
unfolding route_options
route_options-known parse_cidr backends [] h = refl
route_options-known parse_cidr backends (r ∷ rs) h =
    let (b, p, h1) = ok_parts (backend_of backend_not_found backends r.backend) _ h in
    let (c, q, h2) = ok_parts (backend_of backup_not_found backends r.backup) _ h1 in
    let (x, s, h3) = ok_parts (restriction_options parse_cidr r.restrictions) _ h2 in
    let (y, t, h4) = ok_parts (route_options parse_cidr backends rs) _ h3 in
    rw
      (
        backend_of-known backend_not_found backends r.backend p,
        backend_of-known backup_not_found backends r.backup q,
      )
      (route_options-known parse_cidr backends rs t)

-- Where a frontend's options are made, its names stand for backends.
pub frontend_options-known :
    (parse_cidr : Bytes → Option IpNet) (backends : List (Bytes × ℕ)) (d : Defaults) (name : Bytes)
    (f : Frontend) {opts : _}
    → frontend_options parse_cidr backends d name f ≡ ok opts
    → frontend_known backends f ≡ true
unfolding frontend_options
frontend_options-known parse_cidr backends d name f h =
    let (b, p, h1) = ok_parts (backend_of backend_not_found backends f.default_backend) _ h in
    let (c, q, h2) = ok_parts (backend_of backup_not_found backends f.default_backup) _ h1 in
    let (x, s, h3) = ok_parts (route_options parse_cidr backends f.routes) _ h2 in
    rw
      (
        backend_of-known backend_not_found backends f.default_backend p,
        backend_of-known backup_not_found backends f.default_backup q,
      )
      (route_options-known parse_cidr backends f.routes s)
