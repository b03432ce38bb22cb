-- ===== src/HttpFrontend/Route/Groups.antt =====
-- The restrictions of a route read as groups: a restriction with `AndAfter` is joined with the next.
use simult.Prelude.{
  ◌≡◌, refl, Bool, true, false, not, ◌&&◌, ◌||◌, Option, some, List, [], ◌∷◌, ◌++◌, arith, any, all,
  Bytes, codes,
}
use simult.HttpFrontend.Route.{
  HttpFrontendRestriction, IpNet, net_contains, matches, scan, restriction_ok, is_route_restricted,
  HttpFrontendRoute,
}
use simult.HttpFrontend.Pattern.{Atom}

-- The complete groups; `open_group` is the one that is being read. Restrictions behind the last one
-- without `AndAfter` form no complete group.
pub groups :
    List HttpFrontendRestriction
    → List HttpFrontendRestriction
    → List (List HttpFrontendRestriction)
groups open_group [] = []
groups open_group (r ∷ rs) = elim r.and_after [
  | false ↦ (open_group ++ r ∷ []) ∷ groups [] rs
  | true ↦ groups (open_group ++ r ∷ []) rs
]

all-append {ℓ} :
    {A : Type ℓ} (p : A → Bool) (xs : List A) (x : A) → all p (xs ++ x ∷ []) ≡ (all p xs && p x)
all-append p [] x = ground arith
all-append p (y ∷ xs) x = ground (arith, all-append p xs x)

scan-groups :
    (ok : HttpFrontendRestriction → Bool) (open_group rs : List HttpFrontendRestriction)
    → scan ok (all ok open_group) rs ≡ any (all ok) (groups open_group rs)
unfolding scan groups
scan-groups ok open_group [] = refl
scan-groups ok open_group (r ∷ rs) = ground (
  arith,
  all-append ok open_group r,
  scan-groups ok [] rs,
  scan-groups ok (open_group ++ r ∷ []) rs,
)

-- A request is restricted on a route exactly when in one of the complete groups of its restrictions
-- every restriction applies.
pub is_route_restricted-groups :
    (remote : Option Bytes) (path : Bytes) (route : HttpFrontendRoute)
    → is_route_restricted remote path route
      ≡ any (all (restriction_ok remote path)) (groups [] route.restrictions)
unfolding is_route_restricted
is_route_restricted-groups remote path route =
    scan-groups (restriction_ok remote path) [] route.restrictions

-- A restriction that has both a network and a path applies to a client for which exactly one of the
-- two conditions holds, and it still applies after `Invert` is flipped: the flag inverts each
-- condition, not the restriction.
pub invert_keeps_mixed :
    (r : HttpFrontendRestriction) (ip path : Bytes) (n : IpNet) (rgx : Option (List Atom))
    → r.network ≡ some n
    → r.path_rgx ≡ some rgx
    → net_contains n ip ≡ not (matches rgx path || matches rgx (path ++ codes "/"))
    → (restriction_ok (some ip) path r ≡ true)
      × (restriction_ok (some ip) path (record r { invert = not r.invert }) ≡ true)
unfolding restriction_ok
invert_keeps_mixed r ip path n rgx en ep h = ground arith
