-- ===== src/Program/Grown.antt =====
-- `Fork` of one listener, with or without an old one, over the listeners of two applications.
use mathlib.Core.Path.{subst}
use simult.Prelude.{
  ℕ, suc, ◌≤◌, ◌<◌, ◌≡◌, refl, sym, ap, ◌∙◌, inl, inr, Bool, true, false, Option, none, some, List,
  [], ◌∷◌, ◌++◌, arith, ◌==◌, ==_iff, Bool-cases, Option-cases, Bytes, codes, ok,
}
use simult.BackendServer.{update}
use simult.Listener.{ListenerOptions, Accepter, Net, new_accepter, fork as fork_on_net}
use simult.Listener.Reach.{net_forked, shared_net}
use simult.Config.Options.{find}
use simult.Program.{Ports, add_port, listener_of, fork_port}
use simult.Program.Invariant.{Port, Inv}
use simult.Program.Lookup.{update_other}
use simult.Program.Settings.{settings}
use simult.Program.Adding.{Added, added-Inv}

-- What `fork_port` leaves: the invariant, and the listeners that are there already.
pub record Grown (o n : List (Bytes × ℕ)) (p p' : Ports) : Type 0 where
  pub inv : Inv o n p'
  pub old : (a : Bytes) (i : ℕ) → find a o ≡ some i → p'.listener i ≡ p.listener i
  pub more : p.net.fresh ≤ p'.net.fresh
  pub calls : (b : ℕ) → b < p.net.fresh → settings p'.net b ≡ settings p.net b

abbrev pub Grows : List (Bytes × ℕ) → List (Bytes × ℕ) → Ports → Bytes → Option ℕ × Ports → Type 0
Grows o n p addr (none, p') = Grown o n p p'
Grows o n p addr (some i, p') = Grown o (n ++ (addr, i) ∷ []) p p'

module _ (o n : List (Bytes × ℕ)) (p : Ports) (opts : ListenerOptions) (v : Inv o n p)
    (once : find opts.address n ≡ none) (tcp : opts.network ≡ codes "tcp") where
  add_port-Grows :
      (b : ℕ) (net : Net)
      → Added o n p opts.address b net
      → ((c : ℕ) → c < p.net.fresh → settings net c ≡ settings p.net c)
      → Grows o n p opts.address (add_port (ok (record { opts = opts; accr = some b }), net) p)
  unfolding add_port
  add_port-Grows b net w calls = record {
    inv = added-Inv o n p (record { opts = opts; accr = some b }) b net v once tcp refl w;
    old = λ a i h.
        (let u = v.port a i (inl h) in
          let l = u.below in
          update_other p.listener p.made (record { opts = opts; accr = some b }) i
            (λ e. absurd (omega (arith, e))));
    more = w.grown;
    calls = calls;
  }

  -- The mark is not among the settings.
  marked : (b c : ℕ) → settings (shared_net b p.net) c ≡ settings p.net c
  marked b c = elim (Bool-cases (b == c)) [
    | inl y ↦ rw (y, (==_iff b c).0 y) refl
    | inr f ↦ rw f refl
  ]

  -- The accepter of the old application's listener.
  handed :
      (i : ℕ)
      → find opts.address o ≡ some i
      → (u : Port p opts.address i) → Added o n p opts.address u.b (shared_net u.b p.net)
  handed i e u = record {
    grown = omega arith;
    known = u.known;
    opened = rw ((==_iff u.b u.b).1 refl) u.opened;
    shared = rw ((==_iff u.b u.b).1 refl, e) refl;
    rest = λ c f. update_other p.net.accepters u.b _ c (λ q. (let g = (==_iff u.b c).1 q in cc));
    bound = λ c f l. l;
    holder = λ a j m h. v.apart opts.address a i j (inl e) m (u.holds ∙ sym h);
    same = λ j h.
        (let q : some i ≡ some j = sym e ∙ h in
          let q' : i ≡ j = cc in subst (λ k. (p.listener k).accr ≡ some u.b) q' u.holds);
  }

  abbrev grown_net : Net
  grown_net = record {
    accepters = update p.net.accepters p.net.fresh new_accepter;
    fresh = suc p.net.fresh;
  }

  -- A new accepter.
  opened_here : find opts.address o ≡ none → Added o n p opts.address p.net.fresh grown_net
  opened_here e = record {
    grown = omega arith;
    known = omega arith;
    opened = rw ((==_iff p.net.fresh p.net.fresh).1 refl) refl;
    shared = rw ((==_iff p.net.fresh p.net.fresh).1 refl, e) refl;
    rest = λ c f.
        update_other p.net.accepters p.net.fresh _ c
          (λ q. (let g = (==_iff p.net.fresh c).1 q in cc));
    bound = λ c f l. ground arith;
    holder = λ a j m h.
        (let u = v.port a j m in
          let k = u.known in
          let q : some u.b ≡ some p.net.fresh = sym u.holds ∙ h in
          let q' : u.b ≡ p.net.fresh = cc in absurd (omega (arith, k, q')));
    same = λ j h. (let q : none ≡ some j = sym e ∙ h in cc);
  }

  pub fork_port-Grows :
      (listens : Bytes → Bool)
      → Grows o n p opts.address (fork_port listens (find opts.address o) opts p)
  unfolding fork_port listener_of fork_on_net
  fork_port-Grows listens = elim (Option-cases (find opts.address o)) [
    | inr (i, e) ↦ rw e (old i e (v.port opts.address i (inl e)))
    | inl e ↦ rw e (new e (listens opts.address))
  ]
    where
      old :
          (i : ℕ)
          → find opts.address o ≡ some i
          → (u : Port p opts.address i)
          → Grows o n p opts.address
              (add_port (fork_on_net (listens opts.address) (listener_of p (some i)) opts p.net) p)
      old i e u =
          rw
            (net_forked (listens opts.address) (p.listener i) opts p.net u.b false
              (tcp ∙ sym u.network) (sym u.address) u.holds
              (v.shared opts.address i u.b (inl e) u.holds ∙ rw (e, once) refl))
            (add_port-Grows u.b (shared_net u.b p.net) (handed i e u) (λ c l. marked u.b c))

      new :
          find opts.address o ≡ none
          → (t : Bool)
          → Grows o n p opts.address (add_port (fork_on_net t (listener_of p none) opts p.net) p)
      new e true = add_port-Grows p.net.fresh grown_net (opened_here e) (λ c l.
          ap (λ (x : Accepter). (x.handler.le, x.handler.fe, x.handler.tls_config))
            (update_other p.net.accepters p.net.fresh new_accepter c
              (λ q. absurd (omega (arith, l, q)))))
      new e false = record { inv = v; old = λ a i h. refl; more = omega arith; calls = λ b l. refl }
