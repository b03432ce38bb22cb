-- ===== src/Config/App.antt =====
-- pkg/config/app.go: `Fork` and `Close` of an application. The members are an
-- interface, a parameter here; the maps list their entries in the order in which they are made.
pub mod Loops
pub mod Complete
pub mod Named
pub mod Kept
use simult.Prelude.{
  ℕ, ◌+◌, ◌-◌, ◌/◌, not, Option, none, some, List, [], ◌∷◌, ◌++◌, is_some, Bytes, ◌=ᵇ◌, Result,
  ◌>>=◌, ◌>>◌, fail_if, require, ok, err,
}
use simult.HttpCheck.{HttpCheckOptions}
use simult.HttpFrontend.Route.{IpNet}
use simult.Listener.{ListenerOptions}
use simult.Config.{
  TlsParams, Defaults, Listener, Frontend, Backend, HealthCheck, Config, valid_name,
}
use simult.Config.Options.{
  AppError, not_valid_name, already_defined, not_valid_address, fork_error, HttpBackendOptions,
  HttpFrontendOptions, find, health_check_options, backend_options,
}
use simult.Config.Frontends.{frontend_options, listener_options}

pub record App : Type 0 where
  pub listeners : List (Bytes × ℕ)
  pub frontends : List (Bytes × ℕ)
  pub backends : List (Bytes × ℕ)
  pub health_checks : List (Bytes × Option HttpCheckOptions)

-- The members' packages, over the state `S` of everything that they own: the calls of `Fork` for the
-- old object and the options, of `Activate` and of `Close`; and what libraries and the disk answer.
pub record Members (S : Type 0) : Type 0 where
  pub fork_backend : Option ℕ → HttpBackendOptions → S → Option ℕ × S
  pub fork_frontend : Option ℕ → HttpFrontendOptions → S → Option ℕ × S
  pub fork_listener : Option ℕ → ListenerOptions → S → Option ℕ × S
  pub activate_backend : ℕ → S → S
  pub activate_listener : ℕ → S → S
  pub close_backend : ℕ → S → S
  pub close_frontend : ℕ → S → S
  pub close_listener : ℕ → S → S
  pub parse_cidr : Bytes → Option IpNet
  pub tls_config : TlsParams → Option ℕ
  pub version : Bytes  -- without its `v`

abbrev pub empty_app : App
empty_app = record { listeners = []; frontends = []; backends = []; health_checks = [] }

-- The application so far, the state, and the error at which the loops stopped.
pub record Forked (S : Type 0) : Type 0 where
  pub app : App
  pub state : S
  pub failure : Option AppError

abbrev pub going : {S : Type 0} → App → S → Forked S
going an s = record { app = an; state = s; failure = none }

abbrev pub stopped : {S : Type 0} → App → S → AppError → Forked S
stopped an s e = record { app = an; state = s; failure = some e }

abbrev pub go_on : {S : Type 0} → Option AppError → Forked S → (App → S → Forked S) → Forked S
go_on none m f = f m.app m.state
go_on (some e) m f = m

-- The rest of `Fork`, unless there was an error.
pub and_then : {S : Type 0} → Forked S → (App → S → Forked S) → Forked S
and_then m f = go_on m.failure m f

-- The application with a member, or the error.
pub try {ℓ} : {A : Type ℓ} {S : Type 0} → App → Result AppError A × S → (A → App) → Forked S
try an (ok x, s) f = going (f x) s
try an (err e, s) f = stopped an s e

-- The call of a member's `Fork` for options that have been made.
pub call : {O S : Type 0} → Result AppError O → (O → S → Option ℕ × S) → S → Result AppError ℕ × S
call (err e) f s = (err e, s)
call (ok o) f s = let (r, s') = f o s in (require fork_error r, s')

abbrev pub with_health_check : App → Bytes → Option HttpCheckOptions → App
with_health_check an name h = record an { health_checks = an.health_checks ++ (name, h) ∷ [] }

abbrev pub with_backend : App → Bytes → ℕ → App
with_backend an name b = record an { backends = an.backends ++ (name, b) ∷ [] }

abbrev pub with_frontend : App → Bytes → ℕ → App
with_frontend an name f = record an { frontends = an.frontends ++ (name, f) ∷ [] }

abbrev pub with_listener : App → Bytes → ℕ → App
with_listener an name l = record an { listeners = an.listeners ++ (name, l) ∷ [] }

-- The checks of a name that start every round.
pub check_name {ℓ} : {A : Type ℓ} → Bytes → List (Bytes × A) → Result AppError (Unit {0})
unfolding find valid_name
check_name name made = do
  fail_if (not (valid_name name)) not_valid_name
  fail_if (is_some (find name made)) already_defined

pub add_health_checks : {S : Type 0} → Bytes → List (Bytes × HealthCheck) → App → S → Forked S
unfolding try check_name and_then
add_health_checks version [] an s = going an s
add_health_checks version ((name, item) ∷ items) an s =
    and_then
      (try an (check_name name an.health_checks, s)
        (λ _. with_health_check an name (health_check_options version item)))
      (add_health_checks version items)

-- The options of a backend behind the checks of its name.
pub named_backend : Defaults → App → Bytes → Backend → Result AppError HttpBackendOptions
unfolding check_name backend_options
named_backend defaults an name item = do
  check_name name an.backends
  backend_options an.health_checks defaults name item

-- A backend's object, for the old application.
pub new_backend :
    {S : Type 0} → Members S → App → Defaults → App → Bytes → Backend → S → Result AppError ℕ × S
unfolding named_backend call
new_backend w a defaults an name item s =
    call (named_backend defaults an name item) (w.fork_backend (find name a.backends)) s

pub add_backends :
    {S : Type 0} → Members S → App → Defaults → List (Bytes × Backend) → App → S → Forked S
unfolding try new_backend and_then
add_backends w a defaults [] an s = going an s
add_backends w a defaults ((name, item) ∷ items) an s =
    and_then (try an (new_backend w a defaults an name item s) (with_backend an name))
      (add_backends w a defaults items)

pub addressed_listener :
    (TlsParams → Option ℕ) → Defaults → ℕ → App → Listener → Result AppError ListenerOptions
unfolding listener_options
addressed_listener tls_config defaults fe an item = do
  fail_if (item.address =ᵇ []) not_valid_address
  fail_if (is_some (find item.address an.listeners)) already_defined
  listener_options tls_config defaults fe item

pub new_listener :
    {S : Type 0} → Members S → App → Defaults → ℕ → App → Listener → S → Result AppError ℕ × S
unfolding addressed_listener call
new_listener w a defaults fe an item s =
    call (addressed_listener w.tls_config defaults fe an item)
      (w.fork_listener (find item.address a.listeners)) s

pub add_listeners :
    {S : Type 0} → Members S → App → Defaults → ℕ → List Listener → App → S → Forked S
unfolding try new_listener and_then
add_listeners w a defaults fe [] an s = going an s
add_listeners w a defaults fe (item ∷ items) an s =
    and_then (try an (new_listener w a defaults fe an item s) (with_listener an item.address))
      (add_listeners w a defaults fe items)

pub named_frontend :
    (Bytes → Option IpNet) → Defaults → App → Bytes → Frontend → Result AppError HttpFrontendOptions
unfolding check_name frontend_options
named_frontend parse_cidr defaults an name item = do
  check_name name an.frontends
  frontend_options parse_cidr an.backends defaults name item

pub new_frontend :
    {S : Type 0} → Members S → App → Defaults → App → Bytes → Frontend → S → Result AppError ℕ × S
unfolding named_frontend call
new_frontend w a defaults an name item s =
    call (named_frontend w.parse_cidr defaults an name item)
      (w.fork_frontend (find name a.frontends)) s

-- A frontend with its listeners.
pub add_frontend :
    {S : Type 0}
    → Members S
    → App
    → Defaults
    → App
    → Bytes
    → Frontend
    → Result AppError ℕ × S
    → Forked S
unfolding add_listeners
add_frontend w a defaults an name item (err e, s) = stopped an s e
add_frontend w a defaults an name item (ok f, s) =
    add_listeners w a defaults f item.listeners (with_frontend an name f) s

pub add_frontends :
    {S : Type 0} → Members S → App → Defaults → List (Bytes × Frontend) → App → S → Forked S
unfolding add_frontend new_frontend and_then
add_frontends w a defaults [] an s = going an s
add_frontends w a defaults ((name, item) ∷ items) an s =
    and_then (add_frontend w a defaults an name item (new_frontend w a defaults an name item s))
      (add_frontends w a defaults items)

-- A loop that calls each member.
abbrev pub each : {S : Type 0} → (ℕ → S → S) → List (Bytes × ℕ) → S → S
each f [] s = s
each f ((name, i) ∷ es) s = each f es (f i s)

-- `Activate` of the backends and then the listeners.
unfoldable pub activate_all : {S : Type 0} → Members S → App → S → S
activate_all w an s = each w.activate_listener an.listeners (each w.activate_backend an.backends s)

-- `Close` of the listeners, the frontends and the backends.
unfoldable pub close : {S : Type 0} → Members S → App → S → S
close w a s =
    each w.close_backend a.backends
      (each w.close_frontend a.frontends (each w.close_listener a.listeners s))

-- The end of `Fork`, its deferred call included.
unfoldable pub finish :
    {S : Type 0} → Members S → Option AppError → App → S → Result AppError App × S
unfolding activate_all close
finish w none an s = (ok an, activate_all w an s)
finish w (some e) an s = (err e, close w an s)

-- What `Fork` makes, before it activates or closes it.
pub gather : {S : Type 0} → Members S → App → Config → S → Forked S
unfolding add_health_checks add_backends add_frontends
gather w a cfg s =
    and_then
      (and_then (add_health_checks w.version cfg.health_checks empty_app s)
        (add_backends w a cfg.defaults cfg.backends))
      (add_frontends w a cfg.defaults cfg.frontends)

-- `Fork` of the application `a`; `NewApp` forks one without members.
unfoldable pub fork : {S : Type 0} → Members S → App → Config → S → Result AppError App × S
unfolding gather finish
fork w a cfg s = let m = gather w a cfg s in finish w m.failure m.app m.state
