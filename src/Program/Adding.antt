-- ===== src/Program/Adding.antt =====
-- `Fork` of one listener more, for an address that the new application does not have yet.
use mathlib.Core.Path.{subst}
use simult.Prelude.{
  ℕ, suc, ◌≤◌, ◌<◌, ◌≡◌, refl, sym, ap, ◌∙◌, ◌≢◌, ◌⊎◌, inl, inr, Bool, true, false, ◌&&◌, none,
  some, List, [], ◌∷◌, ◌++◌, arith, ◌==◌, if◌then◌else◌, ==_iff, Bool-cases, Option-cases, is_some,
  Bytes, codes, ◌=ᵇ◌, =ᵇ-sound, =ᵇ-refl,
}
use simult.BackendServer.{update}
use simult.Listener.{Accepter, Net, Listener}
use simult.Config.Options.{find}
use simult.Program.{Ports}
use simult.Program.Invariant.{Port, In, Inv}
use simult.Program.Lookup.{update_other, find_append_old, find_append_new}

-- What the call leaves on the network for the accepter `b` of the new listener.
pub record Added (o n : List (Bytes × ℕ)) (p : Ports) (addr : Bytes) (b : ℕ) (net : Net)
    : Type 0 where
  pub grown : p.net.fresh ≤ net.fresh
  pub known : b < net.fresh
  pub opened : (net.accepters b).opened ≡ true
  pub shared : (net.accepters b).handler.shared ≡ is_some (find addr o)
  pub rest : (c : ℕ) → b == c ≡ false → net.accepters c ≡ p.net.accepters c
  pub bound : (c : ℕ) → b == c ≡ false → c < net.fresh → c < p.net.fresh
  pub holder : (a : Bytes) (i : ℕ) → In o n a i → (p.listener i).accr ≡ some b → addr ≡ a
  pub same : (i : ℕ) → find addr o ≡ some i → (p.listener i).accr ≡ some b

module _ (o n : List (Bytes × ℕ)) (p : Ports) (ln : Listener) (b : ℕ) (net : Net) (v : Inv o n p)
    (once : find ln.opts.address n ≡ none) (tcp : ln.opts.network ≡ codes "tcp")
    (accr : ln.accr ≡ some b) (w : Added o n p ln.opts.address b net) where
  abbrev addr : Bytes
  addr = ln.opts.address

  abbrev more : List (Bytes × ℕ)
  more = n ++ (addr, p.made) ∷ []

  abbrev pub p' : Ports
  p' = record { net = net; listener = update p.listener p.made ln; made = suc p.made }

  newest : p'.listener p.made ≡ ln
  newest = rw ((==_iff p.made p.made).1 refl) refl

  found : find addr more ≡ some p.made
  found = find_append_new addr addr p.made n once ∙ rw (=ᵇ-refl addr) refl

  older : (a : Bytes) (i : ℕ) → In o n a i → p'.listener i ≡ p.listener i
  older a i m =
      let u = v.port a i m in
      let l = u.below in update_other p.listener p.made ln i (λ e. absurd (omega (arith, e)))

  old_accr : (a : Bytes) (i : ℕ) → In o n a i → (p'.listener i).accr ≡ (p.listener i).accr
  old_accr a i m = ap (λ (l : Listener). l.accr) (older a i m)

  look :
      (a : Bytes) (i : ℕ) → find a more ≡ some i → (find a n ≡ some i) ⊎ ((addr ≡ a) × (p.made ≡ i))
  look a i h = elim (Option-cases (find a n)) [
    | inr (j, e) ↦ inl (let q = find_append_old a addr p.made j n e in e ∙ sym q ∙ h)
    | inl e ↦ inr (go (addr =ᵇ a) refl (sym (find_append_new a addr p.made n e) ∙ h))
  ]
    where
      go :
          (t : Bool)
          → addr =ᵇ a ≡ t
          → (if addr =ᵇ a then some p.made else none) ≡ some i
          → (addr ≡ a) × (p.made ≡ i)
      go true e q = (
        =ᵇ-sound addr a e,
        let q' : some p.made ≡ some i =
              subst (λ t. (if t then some p.made else none) ≡ some i) e q in
            cc,
      )
      go false e q = absurd (
          let q' : none ≡ some i = subst (λ t. (if t then some p.made else none) ≡ some i) e q in
          cc)

  split : (a : Bytes) (i : ℕ) → In o more a i → In o n a i ⊎ ((addr ≡ a) × (p.made ≡ i))
  split a i (inl h) = inl (inl h)
  split a i (inr h) = elim (look a i h) [ inl k ↦ inl (inr k) | inr k ↦ inr k ]

  keep : (a : Bytes) (i : ℕ) → In o n a i → In o more a i
  keep a i (inl h) = inl h
  keep a i (inr h) = inr (find_append_old a addr p.made i n h)

  -- Whoever holds the accepter has the address.
  one_address : (a : Bytes) (i : ℕ) → In o more a i → (p'.listener i).accr ≡ some b → addr ≡ a
  one_address a i m h = elim (split a i m) [
    | inl k ↦ w.holder a i k (sym (old_accr a i k) ∙ h)
    | inr (e, q) ↦ e
  ]

  added_port : (a : Bytes) (i : ℕ) → In o more a i → Port p' a i
  added_port a i m = elim (split a i m) [
    | inl k ↦ old k
    | inr (e, q) ↦ subst (Port p' a) q (new_port e)
  ]
    where
      old : In o n a i → Port p' a i
      old k =
          let u = v.port a i k in
          let l = u.below in
          let g = w.grown in
          let t = u.known in
          record {
            below = omega arith;
            network = ap (λ (l : Listener). l.opts.network) (older a i k) ∙ u.network;
            address = ap (λ (l : Listener). l.opts.address) (older a i k) ∙ u.address;
            b = u.b;
            holds = old_accr a i k ∙ u.holds;
            known = omega arith;
            opened = elim (Bool-cases (b == u.b)) [
              | inl y ↦ subst (λ c. (net.accepters c).opened ≡ true) ((==_iff b u.b).0 y) w.opened
              | inr f ↦ ap (λ (x : Accepter). x.opened) (w.rest u.b f) ∙ u.opened
            ];
          }

      new_port : addr ≡ a → Port p' a p.made
      new_port e = record {
        below = omega arith;
        network = ap (λ (l : Listener). l.opts.network) newest ∙ tcp;
        address = ap (λ (l : Listener). l.opts.address) newest ∙ e;
        b = b;
        holds = ap (λ (l : Listener). l.accr) newest ∙ accr;
        known = w.known;
        opened = w.opened;
      }

  new_accr : (p'.listener p.made).accr ≡ some b
  new_accr = ap (λ (l : Listener). l.accr) newest ∙ accr

  added_apart :
      (a a' : Bytes) (i i' : ℕ)
      → In o more a i
      → In o more a' i'
      → (p'.listener i).accr ≡ (p'.listener i').accr
      → a ≡ a'
  added_apart a a' i i' m m' h = go (split a i m) (split a' i' m')
    where
      go :
          (In o n a i ⊎ ((addr ≡ a) × (p.made ≡ i)))
          → (In o n a' i' ⊎ ((addr ≡ a') × (p.made ≡ i')))
          → a ≡ a'
      go (inl k) (inl k') = v.apart a a' i i' k k' (sym (old_accr a i k) ∙ h ∙ old_accr a' i' k')
      go (inr (e, q)) x =
          sym e
          ∙ one_address a' i' m' (sym h ∙ subst (λ t. (p'.listener t).accr ≡ some b) q new_accr)
      go x (inr (e, q)) =
          sym (one_address a i m (h ∙ subst (λ t. (p'.listener t).accr ≡ some b) q new_accr)) ∙ e

  added_ids : (a a' : Bytes) (i j : ℕ) → find a o ≡ some i → find a' more ≡ some j → i ≢ j
  added_ids a a' i j h k e = elim (look a' j k) [
    | inl x ↦ v.ids a a' i j h x e
    | inr (y, q) ↦ let u = v.port a i (inl h) in let l = u.below in absurd (omega (arith, e, q))
  ]

  added_same :
      (a : Bytes) (i j : ℕ)
      → find a o ≡ some i
      → find a more ≡ some j
      → (p'.listener i).accr ≡ (p'.listener j).accr
  added_same a i j h k = elim (look a j k) [
    | inl x ↦ old_accr a i (inl h) ∙ v.same a i j h x ∙ sym (old_accr a j (inr x))
    | inr (y, q) ↦
        old_accr a i (inl h)
        ∙ w.same i (subst (λ s. find s o ≡ some i) (sym y) h)
        ∙ sym (subst (λ t. (p'.listener t).accr ≡ some b) q new_accr)
  ]

  unchanged : (a : Bytes) → addr =ᵇ a ≡ false → is_some (find a more) ≡ is_some (find a n)
  unchanged a e = elim (Option-cases (find a n)) [
    | inl q ↦ rw (find_append_new a addr p.made n q, e, q) refl
    | inr (k, q) ↦ rw (find_append_old a addr p.made k n q, q) refl
  ]

  -- A listener of another accepter is one of another address.
  differs :
      (a : Bytes) (i c : ℕ)
      → In o n a i
      → (p.listener i).accr ≡ some c
      → b == c ≡ false
      → addr =ᵇ a ≡ false
  differs a i c k h e = elim (Bool-cases (addr =ᵇ a)) [
    | inr f ↦ f
    | inl y ↦ absurd (go (=ᵇ-sound addr a y) k)
  ]
    where
      go : addr ≡ a → In o n a i → ⊥
      go q (inl x) =
          let z : some b ≡ some c = sym (w.same i (subst (λ s. find s o ≡ some i) (sym q) x)) ∙ h in
          let z' : b ≡ c = cc in let g = (==_iff b c).1 z' in cc
      go q (inr x) = let y : find a n ≡ none = subst (λ s. find s n ≡ none) q once in cc

  added_shared :
      (a : Bytes) (i c : ℕ)
      → In o more a i
      → (p'.listener i).accr ≡ some c
      → (net.accepters c).handler.shared ≡ (is_some (find a o) && is_some (find a more))
  added_shared a i c m h = go (b == c) refl
    where
      both : (t : Bool) → t ≡ (t && true)
      both true = refl
      both false = refl

      at_addr :
          (net.accepters b).handler.shared ≡ (is_some (find addr o) && is_some (find addr more))
      at_addr =
          w.shared
          ∙ both (is_some (find addr o))
          ∙ ap (λ r. is_some (find addr o) && is_some r) (sym found)

      go :
          (t : Bool)
          → b == c ≡ t
          → (net.accepters c).handler.shared ≡ (is_some (find a o) && is_some (find a more))
      go true e =
          let q = (==_iff b c).0 e in
          let y = one_address a i m (h ∙ ap some (sym q)) in
          subst
            (λ s. (net.accepters c).handler.shared ≡ (is_some (find s o) && is_some (find s more)))
            y
            (subst
              (λ d.
                (net.accepters d).handler.shared
                ≡ (is_some (find addr o) && is_some (find addr more)))
              q at_addr)
      go false e = elim (split a i m) [
        | inr (y, q) ↦ absurd (
            let z : some b ≡ some c =
              sym (subst (λ t. (p'.listener t).accr ≡ some b) q new_accr) ∙ h in
            let z' : b ≡ c = cc in let g = (==_iff b c).1 z' in cc)
        | inl k ↦
            ap (λ (x : Accepter). x.handler.shared) (w.rest c e)
            ∙ v.shared a i c k (sym (old_accr a i k) ∙ h)
            ∙ ap (λ t. is_some (find a o) && t)
                (sym (unchanged a (differs a i c k (sym (old_accr a i k) ∙ h) e)))
      ]

  added_owned :
      (c : ℕ)
      → c < net.fresh
      → (net.accepters c).opened ≡ true
      → (a : Bytes) × (i : ℕ) × In o more a i × ((p'.listener i).accr ≡ some c)
  added_owned c l h = elim (Bool-cases (b == c)) [
    | inl y ↦ (addr, p.made, inr found, new_accr ∙ ap some ((==_iff b c).0 y))
    | inr f ↦
        let (a, i, m, k) =
          v.owned c (w.bound c f l) (sym (ap (λ (x : Accepter). x.opened) (w.rest c f)) ∙ h) in
        (a, i, keep a i m, old_accr a i m ∙ k)
  ]

  pub added-Inv : Inv o more p'
  added-Inv = record {
    port = added_port;
    apart = added_apart;
    ids = added_ids;
    same = added_same;
    shared = added_shared;
    owned = added_owned;
  }
