-- ===== src/Program/Closing.antt =====
-- `Close` of an application's listeners, one after the other.
use mathlib.Core.Path.{subst}
use simult.Prelude.{
  ℕ, ◌<◌, ◌≡◌, refl, sym, ap, ◌∙◌, ◌≢◌, inl, inr, Bool, true, false, ◌&&◌, none, some, List, ◌∷◌,
  arith, ◌==◌, if◌then◌else◌, ==_iff, Bool-cases, Option-cases, is_some, Bytes, ◌=ᵇ◌, =ᵇ-sound,
  =ᵇ-refl,
}
use simult.Listener.{Accepter, Listener}
use simult.Listener.Holders.{net_some, released}
use simult.Config.Options.{find}
use simult.Program.{Ports, close_port}
use simult.Program.Lookup.{update_other}
use simult.Program.Invariant.{Port, In, Inv}

-- A listener of the address `a` whose list is closed from here on.
module _ (a : Bytes) (i : ℕ) (o n : List (Bytes × ℕ)) (p : Ports) (once : find a o ≡ none)
    (v : Inv ((a, i) ∷ o) n p) where
  here : find a ((a, i) ∷ o) ≡ some i
  unfolding find
  here = rw (=ᵇ-refl a) refl

  step : (a' : Bytes) → a =ᵇ a' ≡ false → find a' ((a, i) ∷ o) ≡ find a' o
  unfolding find
  step a' e = rw e refl

  apart_from : (a' : Bytes) (j : ℕ) → find a' o ≡ some j → a =ᵇ a' ≡ false
  apart_from a' j h = elim (Bool-cases (a =ᵇ a')) [
    | inl y ↦
        absurd
          (let e : find a' o ≡ none = subst (λ s. find s o ≡ none) (=ᵇ-sound a a' y) once in cc)
    | inr f ↦ f
  ]

  lift : (a' : Bytes) (j : ℕ) → In o n a' j → In ((a, i) ∷ o) n a' j
  lift a' j (inl h) = inl (step a' (apart_from a' j h) ∙ h)
  lift a' j (inr h) = inr h

  mine : Port p a i
  mine = v.port a i (inl here)

  other : (a' : Bytes) (j : ℕ) → In o n a' j → i ≢ j
  other a' j (inl h) e =
      let q = v.apart a a' i j (inl here) (lift a' j (inl h)) (ap (λ k. (p.listener k).accr) e) in
      let f : find a' o ≡ none = subst (λ s. find s o ≡ none) q once in cc
  other a' j (inr h) e = v.ids a a' i j here h e

  -- Another holder of the same accepter is the new application's listener of the address.
  twin :
      (a' : Bytes) (j : ℕ)
      → In o n a' j
      → (p.listener j).accr ≡ some mine.b
      → (a ≡ a') × (find a n ≡ some j)
  twin a' j m h =
      let q = v.apart a a' i j (inl here) (lift a' j m) (mine.holds ∙ sym h) in (q, go q m)
    where
      go : a ≡ a' → In o n a' j → find a n ≡ some j
      go q (inl h) = let f : find a' o ≡ none = subst (λ s. find s o ≡ none) q once in absurd cc
      go q (inr h) = subst (λ s. find s n ≡ some j) (sym q) h

  p' : Ports
  p' = close_port i p

  untouched : (a' : Bytes) (j : ℕ) → In o n a' j → p'.listener j ≡ p.listener j
  unfolding p' close_port
  untouched a' j m = update_other p.listener i _ j (other a' j m)

  after :
      (p'.net.fresh ≡ p.net.fresh)
      × ((c : ℕ)
          → p'.net.accepters c
            ≡ (if mine.b == c then released (p.net.accepters mine.b) else p.net.accepters c))
  unfolding p' close_port
  after = net_some (p.listener i) p.net mine.b mine.holds

  closed_port : (a' : Bytes) (j : ℕ) → In o n a' j → Port p' a' j
  unfolding p' close_port
  closed_port a' j m =
      let u = v.port a' j (lift a' j m) in
      let e = untouched a' j m in
      record {
        below = u.below;
        network = ap (λ (l : Listener). l.opts.network) e ∙ u.network;
        address = ap (λ (l : Listener). l.opts.address) e ∙ u.address;
        b = u.b;
        holds = ap (λ (l : Listener). l.accr) e ∙ u.holds;
        known = rw after.0 u.known;
        opened = ap (λ (x : Accepter). x.opened) (after.1 u.b) ∙ still u (mine.b == u.b) refl;
      }
    where
      still :
          (u : Port p a' j) (t : Bool)
          → mine.b == u.b ≡ t
          → (if mine.b == u.b
              then released (p.net.accepters mine.b)
              else p.net.accepters u.b).opened
            ≡ true
      still u false e = rw e u.opened
      still u true e =
          let q = (==_iff mine.b u.b).0 e in
          let (y, z) = twin a' j m (u.holds ∙ ap some (sym q)) in
          let h = v.shared a i mine.b (inl here) mine.holds in
          let k : (p.net.accepters mine.b).handler.shared ≡ true = h ∙ rw (here, z) refl in
          rw (e, k) mine.opened

  some_eq : (c : ℕ) → some mine.b ≡ some c → mine.b == c ≡ false → ⊥
  some_eq c e f = let q : mine.b ≡ c = cc in let g = (==_iff mine.b c).1 q in cc

  -- A listener of another accepter is one of another address.
  differs :
      (a' : Bytes) (j c : ℕ)
      → In o n a' j
      → (p.listener j).accr ≡ some c
      → mine.b == c ≡ false
      → a =ᵇ a' ≡ false
  differs a' j c (inl h) k e = apart_from a' j h
  differs a' j c (inr h) k e = elim (Bool-cases (a =ᵇ a')) [
    | inl y ↦ absurd (
        let q = subst (λ s. find s n ≡ some j) (sym (=ᵇ-sound a a' y)) h in
        some_eq c (sym mine.holds ∙ v.same a i j here q ∙ k) e)
    | inr f ↦ f
  ]

  closed_shared :
      (a' : Bytes) (j c : ℕ)
      → In o n a' j
      → (p'.listener j).accr ≡ some c
      → (p'.net.accepters c).handler.shared ≡ (is_some (find a' o) && is_some (find a' n))
  closed_shared a' j c m h =
      ap (λ (x : Accepter). x.handler.shared) (after.1 c)
      ∙ go (mine.b == c) refl (sym (ap (λ (l : Listener). l.accr) (untouched a' j m)) ∙ h)
    where
      go :
          (t : Bool)
          → mine.b == c ≡ t
          → (p.listener j).accr ≡ some c
          → (if mine.b == c
              then released (p.net.accepters mine.b)
              else p.net.accepters c).handler.shared
            ≡ (is_some (find a' o) && is_some (find a' n))
      go true e k =
          let q = (==_iff mine.b c).0 e in
          let (y, z) = twin a' j m (k ∙ ap some (sym q)) in
          let f : find a' o ≡ none = subst (λ s. find s o ≡ none) y once in rw (e, f) refl
      go false e k = rw e (
          v.shared a' j c (lift a' j m) k
          ∙ ap (λ r. is_some r && is_some (find a' n)) (step a' (differs a' j c m k e)))

  older :
      (a' : Bytes) (j : ℕ) {c : ℕ}
      → In ((a, i) ∷ o) n a' j
      → (p.listener j).accr ≡ some c
      → mine.b == c ≡ false
      → In o n a' j
  older a' j (inr h) k e = inr h
  older a' j {c} (inl h) k e = inl (go (a =ᵇ a') refl)
    where
      go : (t : Bool) → a =ᵇ a' ≡ t → find a' o ≡ some j
      go false f = sym (step a' f) ∙ h
      go true f =
          let g : find a' ((a, i) ∷ o) ≡ some i =
            subst (λ s. find s ((a, i) ∷ o) ≡ some i) (=ᵇ-sound a a' f) here in
          let q : some i ≡ some j = sym g ∙ h in
          let r : i ≡ j = cc in
          absurd (some_eq c (sym mine.holds ∙ ap (λ t. (p.listener t).accr) r ∙ k) e)

  closed_owned :
      (c : ℕ)
      → c < p'.net.fresh
      → (p'.net.accepters c).opened ≡ true
      → (a' : Bytes) × (j : ℕ) × In o n a' j × ((p'.listener j).accr ≡ some c)
  closed_owned c l h =
      go (mine.b == c) refl (subst (λ k. c < k) after.0 l)
        (sym (ap (λ (x : Accepter). x.opened) (after.1 c)) ∙ h)
    where
      go :
          (t : Bool)
          → mine.b == c ≡ t
          → c < p.net.fresh
          → (if mine.b == c then released (p.net.accepters mine.b) else p.net.accepters c).opened
            ≡ true
          → (a' : Bytes) × (j : ℕ) × In o n a' j × ((p'.listener j).accr ≡ some c)
      go true e l k =
          let q = (==_iff mine.b c).0 e in
          let g : (released (p.net.accepters mine.b)).opened ≡ true =
            subst
              (λ t.
                (if t then released (p.net.accepters mine.b) else p.net.accepters c).opened ≡ true)
              e k in
          let s = v.shared a i mine.b (inl here) mine.holds in
          elim (Option-cases (find a n)) [
            | inl none_n ↦ absurd (
                let t : (p.net.accepters mine.b).handler.shared ≡ false =
                  s ∙ rw (here, none_n) refl in
                ground arith)
            | inr (j, h) ↦ (
              a,
              j,
              inr h,
              ap (λ (l : Listener). l.accr) (untouched a j (inr h))
                  ∙ sym (v.same a i j here h)
                  ∙ mine.holds
                  ∙ ap some q,
            )
          ]
      go false e l k =
          let (a', j, m, h) = v.owned c l (
            subst
              (λ t.
                (if t then released (p.net.accepters mine.b) else p.net.accepters c).opened ≡ true)
              e k) in
          let m' = older a' j m h e in
          (a', j, m', ap (λ (l : Listener). l.accr) (untouched a' j m') ∙ h)

  pub close_port-new :
      (a' : Bytes) (j : ℕ) → find a' n ≡ some j → (close_port i p).listener j ≡ p.listener j
  unfolding p'
  close_port-new a' j h = untouched a' j (inr h)

  -- The rest of the list, behind the closing of its first listener.
  pub close_port-Inv : Inv o n (close_port i p)
  unfolding close_port p'
  close_port-Inv = record {
    port = closed_port;
    apart = λ a1 a2 j1 j2 m1 m2 e. v.apart a1 a2 j1 j2 (lift a1 j1 m1) (lift a2 j2 m2) (
        sym (ap (λ (l : Listener). l.accr) (untouched a1 j1 m1))
        ∙ e
        ∙ ap (λ (l : Listener). l.accr) (untouched a2 j2 m2));
    ids = λ a1 a2 j1 j2 h k. v.ids a1 a2 j1 j2 (step a1 (apart_from a1 j1 h) ∙ h) k;
    same = λ a1 j1 j2 h k.
        ap (λ (l : Listener). l.accr) (untouched a1 j1 (inl h))
        ∙ v.same a1 j1 j2 (step a1 (apart_from a1 j1 h) ∙ h) k
        ∙ sym (ap (λ (l : Listener). l.accr) (untouched a1 j2 (inr k)));
    shared = closed_shared;
    owned = closed_owned;
  }
