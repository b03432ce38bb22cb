-- ===== src/Config/App/Complete.antt =====
-- What an application has that is forked without an error.
use mathlib.Core.Path.{subst}
use simult.Prelude.{
  ℕ, ◌≡◌, refl, sym, ap, ◌∙◌, true, Option, none, some, List, [], ◌∷◌, ◌++◌, map, append_assoc,
  append-nil, all, Bytes, Result, ok_parts, ok-injective, ok, err,
}
use simult.Config.{Defaults, Listener, Frontend, Config}
use simult.Config.Options.{AppError}
use simult.Config.Frontends.Resolved.{frontend_known, frontend_options-known}
use simult.Config.App.{
  App, Members, Forked, empty_app, and_then, check_name, add_health_checks, add_backends,
  add_listeners, named_frontend, new_frontend, add_frontend, add_frontends, with_frontend,
  activate_all, finish, gather, fork,
}
use simult.Config.App.Loops.{
  keys, Distinct, keys-append, and_then-none, add_health_checks-keeps, add_backends-keys, Listened,
  call-ok, add_listeners-Listened,
}

abbrev pub addresses : List (Bytes × Frontend) → List Bytes
addresses [] = []
addresses ((name, f) ∷ items) = map (λ (l : Listener). l.address) f.listeners ++ addresses items

-- The application has what the configuration names, each address once, and no name of a frontend is
-- left open.
pub record Complete (cfg : Config) (an : App) : Type 0 where
  pub backends : keys an.backends ≡ keys cfg.backends
  pub frontends : keys an.frontends ≡ keys cfg.frontends
  pub listeners : keys an.listeners ≡ addresses cfg.frontends
  pub distinct : Distinct an.listeners
  pub known : all (λ (e : Bytes × Frontend). frontend_known an.backends e.1) cfg.frontends ≡ true

-- What the loop over frontends leaves.
record Fronted (an an' : App) (items : List (Bytes × Frontend)) : Type 0 where
  keyed : keys an'.frontends ≡ keys an.frontends ++ keys items
  listens : keys an'.listeners ≡ keys an.listeners ++ addresses items
  apart : Distinct an.listeners → Distinct an'.listeners
  backs : an'.backends ≡ an.backends
  resolved : all (λ (e : Bytes × Frontend). frontend_known an.backends e.1) items ≡ true

add_frontend-ok :
    {S : Type 0} (w : Members S) (a : App) (d : Defaults) (an : App) (name : Bytes) (f : Frontend)
    (m : Result AppError ℕ × S)
    → (add_frontend w a d an name f m).failure ≡ none
    → (fe : ℕ) × (m.0 ≡ ok fe)
      × (add_frontend w a d an name f m
          ≡ add_listeners w a d fe f.listeners (with_frontend an name fe) m.1)
unfolding add_frontend
add_frontend-ok w a d an name f (ok fe, s) h = (fe, refl, refl)
add_frontend-ok w a d an name f (err e, s) h = cc

new_frontend-known :
    {S : Type 0} (w : Members S) (a : App) (d : Defaults) (an : App) (name : Bytes) (f : Frontend)
    (s : S) {fe : ℕ}
    → (new_frontend w a d an name f s).0 ≡ ok fe
    → frontend_known an.backends f ≡ true
unfolding new_frontend named_frontend
new_frontend-known w a d an name f s h =
    let (o, k) = call-ok (named_frontend w.parse_cidr d an name f) _ s h in
    let (u, p, q) = ok_parts (check_name name an.frontends) _ k in
    frontend_options-known w.parse_cidr an.backends d name f q

add_frontends-Fronted :
    {S : Type 0} (w : Members S) (a : App) (d : Defaults) (items : List (Bytes × Frontend))
    (an : App) (s : S)
    → (add_frontends w a d items an s).failure ≡ none
    → Fronted an (add_frontends w a d items an s).app items
unfolding add_frontends
add_frontends-Fronted w a d [] an s h = record {
  keyed = sym (append-nil (keys an.frontends));
  listens = sym (append-nil (keys an.listeners));
  apart = λ p. p;
  backs = refl;
  resolved = refl;
}
add_frontends-Fronted {S} w a d ((name, f) ∷ items) an s h =
    let c = new_frontend w a d an name f s in
    let m = add_frontend w a d an name f c in
    let (n, q) = and_then-none m (add_frontends w a d items) h in
    let (fe, r, e) = add_frontend-ok w a d an name f c n in
    let l =
      subst
        (λ (m : Forked S).
          Listened (with_frontend an name fe) m.app (map (λ (l : Listener). l.address) f.listeners))
        (sym e)
        (add_listeners-Listened w a d fe f.listeners (with_frontend an name fe) c.1
          (sym (ap (λ m. m.failure) e) ∙ n)) in
    let ih = add_frontends-Fronted w a d items m.app m.state (sym (ap (λ m. m.failure) q) ∙ h) in
    subst (λ (m : Forked S). Fronted an m.app ((name, f) ∷ items)) (sym q)
      (record {
        keyed =
            ih.keyed
            ∙ ap (λ t. t ++ keys items) (ap keys l.fronts ∙ keys-append an.frontends name fe)
            ∙ append_assoc (keys an.frontends) (name ∷ []) (keys items);
        listens =
            ih.listens
            ∙ ap (λ t. t ++ addresses items) l.keyed
            ∙ append_assoc (keys an.listeners) (map (λ (l : Listener). l.address) f.listeners)
                (addresses items);
        apart = λ z. ih.apart (l.apart z);
        backs = ih.backs ∙ l.backs;
        resolved = rw (new_frontend-known w a d an name f s r) (
            subst (λ bs. all (λ (e : Bytes × Frontend). frontend_known bs e.1) items ≡ true) l.backs
              ih.resolved);
      })

-- What `Fork` has made where no loop stops.
pub gather-Complete :
    {S : Type 0} (w : Members S) (a : App) (cfg : Config) (s : S)
    → (gather w a cfg s).failure ≡ none
    → Complete cfg (gather w a cfg s).app
unfolding gather
gather-Complete {S} w a cfg s h =
    let m0 : Forked S = add_health_checks w.version cfg.health_checks empty_app s in
    let m1 = and_then m0 (add_backends w a cfg.defaults cfg.backends) in
    let (n1, q2) = and_then-none m1 (add_frontends w a cfg.defaults cfg.frontends) h in
    let (n0, q1) = and_then-none m0 (add_backends w a cfg.defaults cfg.backends) n1 in
    let (b0, f0, l0) = add_health_checks-keeps w.version cfg.health_checks empty_app s n0 in
    let (b1, f1, l1) =
      add_backends-keys w a cfg.defaults cfg.backends m0.app m0.state
        (sym (ap (λ m. m.failure) q1) ∙ n1) in
    let r =
      add_frontends-Fronted w a cfg.defaults cfg.frontends m1.app m1.state
        (sym (ap (λ m. m.failure) q2) ∙ h) in
    let b : keys m1.app.backends ≡ keys cfg.backends =
      ap (λ (m : Forked S). keys m.app.backends) q1
      ∙ b1
      ∙ ap (λ t. keys t ++ keys cfg.backends) b0 in
    let f : m1.app.frontends ≡ [] = ap (λ (m : Forked S). m.app.frontends) q1 ∙ f1 ∙ f0 in
    let l : m1.app.listeners ≡ [] = ap (λ (m : Forked S). m.app.listeners) q1 ∙ l1 ∙ l0 in
    subst (λ (m : Forked S). Complete cfg m.app) (sym q2)
      (record {
        backends = ap keys r.backs ∙ b;
        frontends = r.keyed ∙ ap (λ t. keys t ++ keys cfg.frontends) f;
        listeners = r.listens ∙ ap (λ t. keys t ++ addresses cfg.frontends) l;
        distinct = r.apart (subst Distinct (sym l) tt);
        known = rw r.backs r.resolved;
      })

-- `finish` on a success.
pub finish-ok :
    {S : Type 0} (w : Members S) (e : Option AppError) (a : App) (s : S) {an : App} {s' : S}
    → finish w e a s ≡ (ok an, s')
    → (e ≡ none) × (a ≡ an) × (s' ≡ activate_all w an s)
unfolding finish
finish-ok {S} w none a s {an} h =
    let q : a ≡ an = ok-injective (ap (λ (t : Result AppError App × S). t.0) h) in
    (refl, q, sym (ap (λ (t : Result AppError App × S). t.1) h) ∙ ap (λ a. activate_all w a s) q)
finish-ok w (some x) a s h = cc

-- Where `Fork` of any application returns a new one, that has the backends and frontends of the
-- configuration and a listener for each address, no address twice; every backend that a frontend
-- or a route names is one of the new application's; and all backends and listeners are activated.
pub fork-Complete :
    {S : Type 0} (w : Members S) (a : App) (cfg : Config) (s : S) (an : App) (s' : S)
    → fork w a cfg s ≡ (ok an, s')
    → Complete cfg an × (s' ≡ activate_all w an (gather w a cfg s).state)
unfolding fork
fork-Complete w a cfg s an s' h =
    let m = gather w a cfg s in
    let (n, q, t) = finish-ok w m.failure m.app m.state h in
    (subst (Complete cfg) q (gather-Complete w a cfg s n), t)
