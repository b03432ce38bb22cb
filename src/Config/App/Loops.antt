-- ===== src/Config/App/Loops.antt =====
-- What each loop of `Fork` leaves where it does not stop at an error.
use mathlib.Core.Path.{subst}
use simult.Prelude.{
  ℕ, ◌≡◌, refl, sym, ap, ◌∙◌, false, ◌||◌, Option, none, some, List, [], ◌∷◌, ◌++◌, map,
  append_assoc, append-nil, arith, is_some, Bytes, ◌=ᵇ◌, =ᵇ_comm, Result, fail_if, ok_parts,
  fail_if-ok, ok, err,
}
use simult.Listener.{ListenerOptions}
use simult.Config.Frontends.{listener_options}
use simult.Config.{TlsParams, Defaults, Listener, Backend, HealthCheck}
use simult.Config.Options.{health_check_options, not_valid_address, already_defined, AppError, find}
use simult.Config.App.{
  App, Members, Forked, going, go_on, and_then, try, call, addressed_listener, with_health_check,
  with_backend, with_listener, check_name, add_health_checks, new_backend, add_backends,
  new_listener, add_listeners,
}

abbrev pub keys {ℓ} : {A : Type ℓ} → List (Bytes × A) → List Bytes
keys = map (λ e. e.0)

-- No name stands twice, read from the end.
abbrev pub Distinct {ℓ} : {A : Type ℓ} → List (Bytes × A) → Type 0
Distinct [] = Unit {0}
Distinct ((name, a) ∷ es) = (is_some (find name es) ≡ false) × Distinct es

-- Where the loops go on, the rest of `Fork` stands for both parts.
pub and_then-none :
    {S : Type 0} (m : Forked S) (f : App → S → Forked S)
    → (and_then m f).failure ≡ none
    → (m.failure ≡ none) × (and_then m f ≡ f m.app m.state)
unfolding and_then
and_then-none m f h = go m.failure refl h
  where
    go :
        (o : Option AppError)
        → m.failure ≡ o
        → (go_on o m f).failure ≡ none
        → (m.failure ≡ none) × (go_on m.failure m f ≡ f m.app m.state)
    go none e h = (e, rw e refl)
    go (some x) e h = cc

pub try-none {ℓ} :
    {A : Type ℓ} {S : Type 0} (an : App) (m : Result AppError A × S) (f : A → App)
    → (try an m f).failure ≡ none
    → (x : A) × (m.0 ≡ ok x) × (try an m f ≡ going (f x) m.1)
unfolding try
try-none an (ok x, s) f h = (x, refl, refl)
try-none an (err e, s) f h = cc

pub call-ok :
    {O S : Type 0} (m : Result AppError O) (f : O → S → Option ℕ × S) (s : S) {x : ℕ}
    → (call m f s).0 ≡ ok x
    → (o : O) × (m ≡ ok o)
unfolding call
call-ok (ok o) f s h = (o, refl)
call-ok (err e) f s h = cc

pub keys-append {ℓ} :
    {A : Type ℓ} (es : List (Bytes × A)) (name : Bytes) (a : A)
    → keys (es ++ (name, a) ∷ []) ≡ keys es ++ name ∷ []
keys-append [] name a = refl
keys-append (e ∷ es) name a = ap (λ t. e.0 ∷ t) (keys-append es name a)

find-append {ℓ} :
    {A : Type ℓ} (name key : Bytes) (es : List (Bytes × A)) (a : A)
    → is_some (find name (es ++ (key, a) ∷ [])) ≡ (is_some (find name es) || key =ᵇ name)
unfolding find
find-append name key [] a = ground arith
find-append name key ((k, b) ∷ es) a = ground (arith, find-append name key es a)

pub Distinct-append {ℓ} :
    {A : Type ℓ} (name : Bytes) (es : List (Bytes × A)) (a : A)
    → is_some (find name es) ≡ false
    → Distinct es
    → Distinct (es ++ (name, a) ∷ [])
unfolding find
Distinct-append name [] a h d = (refl, tt)
Distinct-append name ((k, b) ∷ es) a h d = (
  rw (find-append k name es a, d.0, =ᵇ_comm name k) (ground arith),
  Distinct-append name es a (ground arith) d.1,
)

pub add_health_checks-keeps :
    {S : Type 0} (version : Bytes) (items : List (Bytes × HealthCheck)) (an : App) (s : S)
    → (add_health_checks version items an s).failure ≡ none
    → (let an' = (add_health_checks version items an s).app in
        (an'.backends ≡ an.backends)
        × (an'.frontends ≡ an.frontends)
        × (an'.listeners ≡ an.listeners))
unfolding add_health_checks
add_health_checks-keeps version [] an s h = (refl, refl, refl)
add_health_checks-keeps {S} version ((name, item) ∷ items) an s h =
    let f : Unit {0} → App = λ _. with_health_check an name (health_check_options version item) in
    let m = try an (check_name name an.health_checks, s) f in
    let (n, q) = and_then-none m (add_health_checks version items) h in
    let (x, r, e) = try-none an (check_name name an.health_checks, s) f n in
    let (b, g, l) =
      add_health_checks-keeps version items m.app m.state (sym (ap (λ m. m.failure) q) ∙ h) in
    (
      ap (λ (m : Forked S). m.app.backends) q ∙ b ∙ ap (λ (m : Forked S). m.app.backends) e,
      ap (λ (m : Forked S). m.app.frontends) q ∙ g ∙ ap (λ (m : Forked S). m.app.frontends) e,
      ap (λ (m : Forked S). m.app.listeners) q ∙ l ∙ ap (λ (m : Forked S). m.app.listeners) e,
    )

pub add_backends-keys :
    {S : Type 0} (w : Members S) (a : App) (d : Defaults) (items : List (Bytes × Backend))
    (an : App) (s : S)
    → (add_backends w a d items an s).failure ≡ none
    → (let an' = (add_backends w a d items an s).app in
        (keys an'.backends ≡ keys an.backends ++ keys items)
        × (an'.frontends ≡ an.frontends)
        × (an'.listeners ≡ an.listeners))
unfolding add_backends
add_backends-keys w a d [] an s h = (sym (append-nil (keys an.backends)), refl, refl)
add_backends-keys {S} w a d ((name, item) ∷ items) an s h =
    let c = new_backend w a d an name item s in
    let m = try an c (with_backend an name) in
    let (n, q) = and_then-none m (add_backends w a d items) h in
    let (x, r, e) = try-none an c (with_backend an name) n in
    let (b, f, l) = add_backends-keys w a d items m.app m.state (sym (ap (λ m. m.failure) q) ∙ h) in
    (
      ap (λ (m : Forked S). keys m.app.backends) q
          ∙ b
          ∙ ap (λ t. t ++ keys items)
              (ap (λ (m : Forked S). keys m.app.backends) e ∙ keys-append an.backends name x)
          ∙ append_assoc (keys an.backends) (name ∷ []) (keys items),
      ap (λ (m : Forked S). m.app.frontends) q ∙ f ∙ ap (λ (m : Forked S). m.app.frontends) e,
      ap (λ (m : Forked S). m.app.listeners) q ∙ l ∙ ap (λ (m : Forked S). m.app.listeners) e,
    )

-- What a loop over listeners leaves.
pub record Listened (an an' : App) (new : List Bytes) : Type 0 where
  pub keyed : keys an'.listeners ≡ keys an.listeners ++ new
  pub apart : Distinct an.listeners → Distinct an'.listeners
  pub backs : an'.backends ≡ an.backends
  pub fronts : an'.frontends ≡ an.frontends

pub addressed_listener-new :
    (tls_config : TlsParams → Option ℕ) (d : Defaults) (fe : ℕ) (an : App) (item : Listener)
    {o : ListenerOptions}
    → addressed_listener tls_config d fe an item ≡ ok o
    → (is_some (find item.address an.listeners) ≡ false)
      × (listener_options tls_config d fe item ≡ ok o)
unfolding addressed_listener
addressed_listener-new tls_config d fe an item h =
    let (u, g, m1) = ok_parts (fail_if (item.address =ᵇ []) not_valid_address) _ h in
    let (v, k, m2) =
      ok_parts (fail_if (is_some (find item.address an.listeners)) already_defined) _ m1 in
    (fail_if-ok (is_some (find item.address an.listeners)) already_defined k, m2)

pub add_listeners-Listened :
    {S : Type 0} (w : Members S) (a : App) (d : Defaults) (fe : ℕ) (items : List Listener)
    (an : App) (s : S)
    → (add_listeners w a d fe items an s).failure ≡ none
    → Listened an (add_listeners w a d fe items an s).app (map (λ (l : Listener). l.address) items)
unfolding add_listeners new_listener
add_listeners-Listened w a d fe [] an s h = record {
  keyed = sym (append-nil (keys an.listeners));
  apart = λ p. p;
  backs = refl;
  fronts = refl;
}
add_listeners-Listened {S} w a d fe (item ∷ items) an s h =
    let c = new_listener w a d fe an item s in
    let m = try an c (with_listener an item.address) in
    let (n, q) = and_then-none m (add_listeners w a d fe items) h in
    let (x, r, e) = try-none an c (with_listener an item.address) n in
    let (o, k) = call-ok (addressed_listener w.tls_config d fe an item) _ s r in
    let (v, _) = addressed_listener-new w.tls_config d fe an item k in
    let ih =
      add_listeners-Listened w a d fe items m.app m.state (sym (ap (λ m. m.failure) q) ∙ h) in
    record {
      keyed =
          ap (λ (m : Forked S). keys m.app.listeners) q
          ∙ ih.keyed
          ∙ ap (λ t. t ++ map (λ (l : Listener). l.address) items)
              (ap (λ (m : Forked S). keys m.app.listeners) e
                ∙ keys-append an.listeners item.address x)
          ∙ append_assoc (keys an.listeners) (item.address ∷ [])
              (map (λ (l : Listener). l.address) items);
      apart = λ z.
          subst (λ (m : Forked S). Distinct m.app.listeners) (sym q)
            (ih.apart (
              subst (λ (m : Forked S). Distinct m.app.listeners) (sym e)
                (Distinct-append item.address an.listeners x v z)));
      backs =
          ap (λ (m : Forked S). m.app.backends) q
          ∙ ih.backs
          ∙ ap (λ (m : Forked S). m.app.backends) e;
      fronts =
          ap (λ (m : Forked S). m.app.frontends) q
          ∙ ih.fronts
          ∙ ap (λ (m : Forked S). m.app.frontends) e;
    }
