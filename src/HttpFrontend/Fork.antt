-- ===== src/HttpFrontend/Fork.antt =====
-- pkg/lb/httpfrontend.go: `Fork` and `Close` of a frontend. The metrics are left out, and the worker,
-- which waits for the end of the context and does nothing else.
use simult.Prelude.{◌≡◌, refl, Bool, true, false, Option, none, some, map}
use simult.HttpFrontend.Route.{copy_route}
use simult.Config.Options.{HttpFrontendOptions}

pub record HttpFrontend : Type 0 where
  pub opts : HttpFrontendOptions
  pub done : Bool  -- ctx

-- `CopyFrom`.
pub copy_from : HttpFrontendOptions → HttpFrontendOptions
copy_from src = record src { routes = map copy_route src.routes }

-- `Fork`, which has no errors and reads nothing of the old frontend.
pub fork : HttpFrontendOptions → HttpFrontend
unfolding copy_from
fork opts = record { opts = copy_from opts; done = false }

pub close : HttpFrontend → HttpFrontend
close f = record f { done = true }

-- A frontend, if there is one, has ended.
abbrev pub Ended : Option HttpFrontend → Type 0
Ended none = Unit {0}
Ended (some f) = f.done ≡ true

-- `Close` of what stands under a number.
pub close_found : Option HttpFrontend → Option HttpFrontend
unfolding close
close_found none = none
close_found (some f) = some (close f)

pub close_found-Ended : (o : Option HttpFrontend) → Ended (close_found o)
unfolding close_found close
close_found-Ended none = tt
close_found-Ended (some f) = refl
