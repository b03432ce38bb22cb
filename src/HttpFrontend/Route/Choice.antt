-- ===== src/HttpFrontend/Route/Choice.antt =====
-- Which route decides.
use simult.Prelude.{
  ℕ, ◌≡◌, refl, ap, ◌⊎◌, inl, inr, true, false, Option, none, List, [], ◌∷◌, ◌++◌, if◌then◌else◌,
  Bool-cases, All, codes,
}
use simult.HttpFrontend.Route.{
  HttpFrontendRoute, Request, Defaults, route_matches, take_route, find_backend,
  is_route_restricted, request_path,
}

abbrev pub NoMatch : Request → List HttpFrontendRoute → Type 0
NoMatch q = All (λ r. route_matches q r ≡ false)

-- A route that is the first to match.
pub record FirstMatch (q : Request) (routes : List HttpFrontendRoute) : Type 0 where
  pub above : List HttpFrontendRoute
  pub route : HttpFrontendRoute
  pub below : List HttpFrontendRoute
  pub splits : routes ≡ above ++ route ∷ below
  pub none_above : NoMatch q above
  pub hit : route_matches q route ≡ true

-- The answer of `findBackend` is that of the first matching route, or the default.
abbrev pub Decides :
    Defaults → Request → List HttpFrontendRoute → (Option ℕ × Option ℕ) × Request → Type 0
Decides d q routes r =
    (NoMatch q routes × (r.0 ≡ (d.default_backend, d.default_backup)) × (r.1.fe_host ≡ codes "*"))
    ⊎ ((m : FirstMatch q routes) × (r.1
          ≡ record q { fe_host = m.route.host; fe_path = m.route.path })
        × (r.0 ≡ (
            if is_route_restricted q.remote (request_path q) m.route
            then (none, none)
            else (m.route.backend, m.route.backup))))

Decides-here :
    (d : Defaults) (q : Request) (route : HttpFrontendRoute) (routes : List HttpFrontendRoute)
    → route_matches q route ≡ true
    → Decides d q (route ∷ routes) (take_route q route)
unfolding take_route
Decides-here d q route routes e = inr (
  record { above = []; route = route; below = routes; splits = refl; none_above = tt; hit = e },
  refl,
  refl,
)

Decides-later :
    (d : Defaults) (q : Request) (route : HttpFrontendRoute) (routes : List HttpFrontendRoute)
    (r : (Option ℕ × Option ℕ) × Request)
    → route_matches q route ≡ false
    → Decides d q routes r
    → Decides d q (route ∷ routes) r
Decides-later d q route routes r e (inl (n, x, y)) = inl ((e, n), x, y)
Decides-later d q route routes r e (inr (m, x, y)) = inr (
  record {
    above = route ∷ m.above;
    route = m.route;
    below = m.below;
    splits = ap (◌∷◌ route) m.splits;
    none_above = (e, m.none_above);
    hit = m.hit;
  },
  x,
  y,
)

find_cases {ℓ} :
    (P : (Option ℕ × Option ℕ) × Request → Type ℓ) (d : Defaults) (q : Request)
    (route : HttpFrontendRoute) (routes : List HttpFrontendRoute)
    → (route_matches q route ≡ true → P (take_route q route))
    → (route_matches q route ≡ false → P (find_backend d q routes))
    → P (find_backend d q (route ∷ routes))
unfolding find_backend
find_cases P d q route routes hit miss = elim (Bool-cases (route_matches q route)) [
  | inl e ↦ rw (e, find_backend) (hit e)
  | inr e ↦ rw (e, find_backend) (miss e)
]

-- The first route whose host and path match decides: its restrictions refuse the request or its
-- backend and backup are answered, later routes play no part, and its host and path become the
-- labels; only if no route matches, the default backend and backup are answered.
pub find_backend-Decides :
    (d : Defaults) (q : Request) (routes : List HttpFrontendRoute)
    → Decides d q routes (find_backend d q routes)
unfolding find_backend
find_backend-Decides d q [] = inl (tt, refl, refl)
find_backend-Decides d q (route ∷ routes) =
    let later = find_backend-Decides d q routes in
    find_cases (Decides d q (route ∷ routes)) d q route routes (Decides-here d q route routes)
      (λ e. Decides-later d q route routes _ e later)
