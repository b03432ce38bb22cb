-- ===== src/Program/Settings.antt =====
-- Whom the accepters call: what `Set` has put in their handlers.
use mathlib.Core.Path.{subst}
use simult.Prelude.{
  ℕ, ◌≡◌, refl, sym, ap, ◌∙◌, ◌≢◌, inl, inr, Option, none, some, List, [], ◌∷◌, ◌==◌, if◌then◌else◌,
  ==_iff, Bool-cases, Option-cases, Bytes, ◌=ᵇ◌, =ᵇ-sound,
}
use simult.AccepterHandler.{set}
use simult.Listener.{Accepter, Net, activate as activate_on_net}
use simult.Listener.Holders.{close-none, net_some}
use simult.Config.Options.{find}
use simult.Config.App.{each}
use simult.Config.App.Loops.{Distinct}
use simult.Program.{Ports, Host, close_port, activate_port}
use simult.Program.Lookup.{not_found, find_behind, find_first}

abbrev pub settings : Net → ℕ → Option ℕ × Option ℕ × Option ℕ
settings w b = let ah = (w.accepters b).handler in (ah.le, ah.fe, ah.tls_config)

-- The accepter calls the listener's frontend with the listener and its configuration of TLS.
abbrev pub Calls : Ports → ℕ → ℕ → Type 0
Calls p b i = settings p.net b ≡ (some i, (p.listener i).opts.fe, (p.listener i).opts.tls_config)

pub close_port-settings :
    (i : ℕ) (p : Ports) (b : ℕ) → settings (close_port i p).net b ≡ settings p.net b
unfolding close_port
close_port-settings i p b = elim (Option-cases (p.listener i).accr) [
  | inl e ↦ rw (close-none (p.listener i) p.net e) refl
  | inr (c, e) ↦
      (let (f, n) = net_some (p.listener i) p.net c e in
        ap (λ (x : Accepter). (x.handler.le, x.handler.fe, x.handler.tls_config)) (n b)
        ∙ elim (Bool-cases (c == b)) [ inl y ↦ rw (y, (==_iff c b).0 y) refl | inr f ↦ rw f refl ])
]

activate_off :
    (i : ℕ) (p : Ports) (b : ℕ)
    → (p.listener i).accr ≢ some b
    → settings (activate_port i p).net b ≡ settings p.net b
unfolding activate_port activate_on_net
activate_off i p b n = elim (Option-cases (p.listener i).accr) [
  | inl e ↦ rw e refl
  | inr (c, e) ↦ elim (Bool-cases (c == b)) [
    | inl y ↦ absurd (n (e ∙ ap some ((==_iff c b).0 y)))
    | inr f ↦ rw (e, f) refl
  ]
]

activate_on :
    (i : ℕ) (p : Ports) (b : ℕ) → (p.listener i).accr ≡ some b → Calls (activate_port i p) b i
unfolding activate_port activate_on_net set
activate_on i p b e = rw (e, (==_iff b b).1 refl) refl

abbrev activated : Host → List (Bytes × ℕ) → Host
activated h es = each (λ i (h : Host). record h { ports = activate_port i h.ports }) es h

-- Only the listeners of the list are activated.
activated_off :
    (es : List (Bytes × ℕ)) (h : Host) (b : ℕ)
    → Distinct es
    → ((a : Bytes) (j : ℕ) → find a es ≡ some j → (h.ports.listener j).accr ≢ some b)
    → settings (activated h es).ports.net b ≡ settings h.ports.net b
unfolding activate_port
activated_off [] h b d n = refl
activated_off ((name, k) ∷ es) h b d n =
    activated_off es (record h { ports = activate_port k h.ports }) b d.1
      (λ a j m. n a j (find_behind name a k j es (not_found (find name es) d.0) m))
    ∙ activate_off k h.ports b (n name k (find_first name k es))

pub activated-Calls :
    (es : List (Bytes × ℕ)) (h : Host)
    → Distinct es
    → ((a a' : Bytes) (i i' : ℕ)
        → find a es ≡ some i
        → find a' es ≡ some i'
        → (h.ports.listener i).accr ≡ (h.ports.listener i').accr
        → a ≡ a')
    → (a : Bytes) (i b : ℕ) → find a es ≡ some i
    → (h.ports.listener i).accr ≡ some b
    → settings (activated h es).ports.net b
      ≡ (some i, (h.ports.listener i).opts.fe, (h.ports.listener i).opts.tls_config)
unfolding find activate_port
activated-Calls [] h d apart a i b m e = cc
activated-Calls ((name, k) ∷ es) h d apart a i b m e =
    let h' : Host = record h { ports = activate_port k h.ports } in
    let none_left : find name es ≡ none = not_found (find name es) d.0 in
    let behind : (a : Bytes) (j : ℕ) → find a es ≡ some j → find a ((name, k) ∷ es) ≡ some j =
      λ a j m. find_behind name a k j es none_left m in
    elim (Bool-cases (name =ᵇ a)) [
      | inr f ↦
          activated-Calls es h' d.1
            (λ a1 a2 j1 j2 m1 m2. apart a1 a2 j1 j2 (behind a1 j1 m1) (behind a2 j2 m2)) a i b
            (subst (λ t. (if t then some k else find a es) ≡ some i) f m) e
      | inl f ↦
          let q : some k ≡ some i = subst (λ t. (if t then some k else find a es) ≡ some i) f m in
          let q' : k ≡ i = cc in
          activated_off es h' b d.1 (λ a' j m' x.
            (let y = apart a a' i j m (behind a' j m') (e ∙ sym x) in
              let z : find name es ≡ some j =
                subst (λ s. find s es ≡ some j) (sym (=ᵇ-sound name a f ∙ y)) m' in
              let w = none_left in cc))
          ∙ subst
              (λ t.
                settings h'.ports.net b
                ≡ (some t, (h.ports.listener t).opts.fe, (h.ports.listener t).opts.tls_config))
              q' (activate_on k h.ports b (ap (λ t. (h.ports.listener t).accr) q' ∙ e))
    ]
