-- ===== src/Config/App/Kept.antt =====
-- What the members' state keeps while `Fork` makes an application.
use mathlib.Core.Path.{subst}
use simult.Prelude.{
  ℕ, ◌≡◌, refl, sym, false, Option, none, some, List, [], ◌∷◌, is_some, Bytes, codes, Result,
  require, ok, err,
}
use simult.HttpCheck.{HttpCheckOptions}
use simult.Listener.{ListenerOptions}
use simult.Config.{Defaults, Listener, Frontend, Backend, HealthCheck, Config}
use simult.Config.Options.{
  AppError, fork_error, health_check_options, HttpBackendOptions, HttpFrontendOptions, find,
}
use simult.Config.App.{
  App, Members, Forked, go_on, empty_app, and_then, try, call, check_name, with_health_check,
  with_backend, with_frontend, with_listener, add_health_checks, named_backend, new_backend,
  add_backends, addressed_listener, new_listener, add_listeners, named_frontend, new_frontend,
  add_frontend, add_frontends, gather,
}
use simult.Config.App.Loops.{addressed_listener-new}
use simult.Config.App.Named.{listener_options-address, named_backend-new, named_frontend-new}

-- A property of the application so far and of the state.
module _ {S : Type 0} (w : Members S) (a : App) (P : App → S → Type 0) where
  -- What the call of a member's `Fork` leaves, where `f` adds the member.
  abbrev pub Behind : (ℕ → App) → App → Option ℕ × S → Type 0
  Behind f an (none, s) = P an s
  Behind f an (some i, s) = P (f i) s

  -- Every member keeps the property.
  pub record Stable : Type 0 where
    pub health_check :
        (name : Bytes) (h : Option HttpCheckOptions) (an : App) (s : S)
        → P an s
        → P (with_health_check an name h) s
    pub backend :
        (name : Bytes) (opts : HttpBackendOptions) (an : App) (s : S)
        → P an s
        → is_some (find name an.backends) ≡ false
        → Behind (with_backend an name) an (w.fork_backend (find name a.backends) opts s)
    pub frontend :
        (name : Bytes) (opts : HttpFrontendOptions) (an : App) (s : S)
        → P an s
        → is_some (find name an.frontends) ≡ false
        → Behind (with_frontend an name) an (w.fork_frontend (find name a.frontends) opts s)
    pub listener :
        (opts : ListenerOptions) (an : App) (s : S)
        → P an s
        → is_some (find opts.address an.listeners) ≡ false
        → opts.network ≡ codes "tcp"
        → Behind
            (with_listener an opts.address)
            an
            (w.fork_listener (find opts.address a.listeners) opts s)

  abbrev Keeps : Forked S → Type 0
  Keeps m = P m.app m.state

  and_then-Keeps :
      (m : Forked S) (f : App → S → Forked S)
      → Keeps m
      → ((an : App) (s : S) → P an s → Keeps (f an s))
      → Keeps (and_then m f)
  unfolding and_then
  and_then-Keeps m f k g = go m.failure
    where
      go : (o : Option AppError) → Keeps (go_on o m f)
      go none = g m.app m.state k
      go (some e) = k

  -- What is left where a member is made or an error stands.
  abbrev Made {ℓ} : {A : Type ℓ} → (A → App) → App → Result AppError A × S → Type 0
  Made f an (ok x, s) = P (f x) s
  Made f an (err e, s) = P an s

  try-Keeps {ℓ} :
      {A : Type ℓ} (an : App) (m : Result AppError A × S) (f : A → App)
      → Made f an m
      → Keeps (try an m f)
  unfolding try
  try-Keeps an (ok x, s) f k = k
  try-Keeps an (err x, s) f k = k

  call-Made :
      {O : Type 0} (an : App) (f : ℕ → App) (m : Result AppError O) (g : O → S → Option ℕ × S)
      (s : S)
      → P an s
      → ((o : O) → m ≡ ok o → Behind f an (g o s))
      → Made f an (call m g s)
  unfolding call
  call-Made an f (err e) g s k b = k
  call-Made an f (ok o) g s k b = go (g o s) (b o refl)
    where
      go : (r : Option ℕ × S) → Behind f an r → Made f an (require fork_error r.0, r.1)
      go (none, s') b = b
      go (some i, s') b = b

  name-Made :
      (an : App) (name : Bytes) (h : Option HttpCheckOptions) (r : Result AppError (Unit {0}))
      (s : S)
      → Stable
      → P an s
      → Made (λ u. with_health_check an name h) an (r, s)
  name-Made an name h (ok u) s t k = t.health_check name h an s k
  name-Made an name h (err e) s t k = k

  add_health_checks-Keeps :
      Stable
      → (version : Bytes) (items : List (Bytes × HealthCheck)) (an : App) (s : S) → P an s
      → Keeps (add_health_checks version items an s)
  unfolding add_health_checks
  add_health_checks-Keeps t version [] an s k = k
  add_health_checks-Keeps t version ((name, item) ∷ items) an s k =
      and_then-Keeps _ (add_health_checks version items)
        (try-Keeps an (check_name name an.health_checks, s)
          (λ _. with_health_check an name (health_check_options version item))
          (name-Made an name (health_check_options version item) (check_name name an.health_checks)
            s t k))
        (add_health_checks-Keeps t version items)

  add_backends-Keeps :
      Stable
      → (d : Defaults) (items : List (Bytes × Backend)) (an : App) (s : S) → P an s
      → Keeps (add_backends w a d items an s)
  unfolding add_backends new_backend
  add_backends-Keeps t d [] an s k = k
  add_backends-Keeps t d ((name, item) ∷ items) an s k =
      and_then-Keeps _ (add_backends w a d items)
        (try-Keeps an (new_backend w a d an name item s) (with_backend an name) (
          call-Made an (with_backend an name) (named_backend d an name item)
            (w.fork_backend (find name a.backends)) s k
            (λ o e. t.backend name o an s k (named_backend-new d an name item e))))
        (add_backends-Keeps t d items)

  add_listener-Keeps :
      Stable
      → (d : Defaults) (fe : ℕ) (an : App) (item : Listener) (s : S) → P an s
      → Keeps (try an (new_listener w a d fe an item s) (with_listener an item.address))
  unfolding new_listener
  add_listener-Keeps t d fe an item s k =
      try-Keeps an (new_listener w a d fe an item s) (with_listener an item.address) (
        call-Made an (with_listener an item.address) (addressed_listener w.tls_config d fe an item)
          (w.fork_listener (find item.address a.listeners)) s k
          (λ o q.
            (let (v, l) = addressed_listener-new w.tls_config d fe an item q in
              let (n, e) = listener_options-address w.tls_config d fe item l in
              subst
                (λ addr.
                  Behind (with_listener an addr) an (w.fork_listener (find addr a.listeners) o s))
                e
                (t.listener o an s k
                  (subst (λ addr. is_some (find addr an.listeners) ≡ false) (sym e) v) n))))

  add_listeners-Keeps :
      Stable
      → (d : Defaults) (fe : ℕ) (items : List Listener) (an : App) (s : S) → P an s
      → Keeps (add_listeners w a d fe items an s)
  unfolding add_listeners
  add_listeners-Keeps t d fe [] an s k = k
  add_listeners-Keeps t d fe (item ∷ items) an s k =
      and_then-Keeps _ (add_listeners w a d fe items) (add_listener-Keeps t d fe an item s k)
        (add_listeners-Keeps t d fe items)

  add_frontend-Keeps :
      Stable
      → (d : Defaults) (an : App) (name : Bytes) (f : Frontend) (m : Result AppError ℕ × S)
      → Made (with_frontend an name) an m
      → Keeps (add_frontend w a d an name f m)
  unfolding add_frontend
  add_frontend-Keeps t d an name f (ok fe, s) k =
      add_listeners-Keeps t d fe f.listeners (with_frontend an name fe) s k
  add_frontend-Keeps t d an name f (err e, s) k = k

  add_frontends-Keeps :
      Stable
      → (d : Defaults) (items : List (Bytes × Frontend)) (an : App) (s : S) → P an s
      → Keeps (add_frontends w a d items an s)
  unfolding add_frontends new_frontend
  add_frontends-Keeps t d [] an s k = k
  add_frontends-Keeps t d ((name, f) ∷ items) an s k =
      and_then-Keeps _ (add_frontends w a d items)
        (add_frontend-Keeps t d an name f (new_frontend w a d an name f s) (
          call-Made an (with_frontend an name) (named_frontend w.parse_cidr d an name f)
            (w.fork_frontend (find name a.frontends)) s k
            (λ o e. t.frontend name o an s k (named_frontend-new w.parse_cidr d an name f e))))
        (add_frontends-Keeps t d items)

  -- What every member keeps holds of all that `Fork` has made, with or without an error.
  pub gather-Keeps : Stable → (cfg : Config) (s : S) → P empty_app s → Keeps (gather w a cfg s)
  unfolding gather
  gather-Keeps t cfg s k =
      and_then-Keeps _ (add_frontends w a cfg.defaults cfg.frontends)
        (and_then-Keeps _ (add_backends w a cfg.defaults cfg.backends)
          (add_health_checks-Keeps t w.version cfg.health_checks empty_app s k)
          (add_backends-Keeps t cfg.defaults cfg.backends))
        (add_frontends-Keeps t cfg.defaults cfg.frontends)
