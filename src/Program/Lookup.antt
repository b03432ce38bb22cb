-- ===== src/Program/Lookup.antt =====
-- Lookups in lists of listeners and in updated functions.
use mathlib.Core.Path.{subst}
use simult.Prelude.{
  ℕ, ◌≡◌, refl, ◌≢◌, inl, inr, false, Option, none, some, List, [], ◌∷◌, ◌++◌, arith, ◌==◌,
  if◌then◌else◌, ==_iff, Bool-cases, is_some, Bytes, ◌=ᵇ◌, =ᵇ-sound, =ᵇ-refl,
}
use simult.BackendServer.{update}
use simult.Config.Options.{find}

pub not_found {ℓ} : {A : Type ℓ} (o : Option A) → is_some o ≡ false → o ≡ none
not_found none h = refl
not_found (some x) h = cc

pub update_other {ℓ} :
    {A : Type ℓ} (f : ℕ → A) (c : ℕ) (x : A) (d : ℕ) → c ≢ d → update f c x d ≡ f d
update_other f c x d e = elim (Bool-cases (c == d)) [
  | inl y ↦ absurd (e ((==_iff c d).0 y))
  | inr n ↦ rw n refl
]

pub find_append_old :
    (s addr : Bytes) (j k : ℕ) (n : List (Bytes × ℕ))
    → find s n ≡ some k
    → find s (n ++ (addr, j) ∷ []) ≡ some k
unfolding find
find_append_old s addr j k [] h = cc
find_append_old s addr j k ((key, x) ∷ n) h = ground (arith, find_append_old s addr j k n)

pub find_append_new :
    (s addr : Bytes) (j : ℕ) (n : List (Bytes × ℕ))
    → find s n ≡ none
    → find s (n ++ (addr, j) ∷ []) ≡ (if addr =ᵇ s then some j else none)
unfolding find
find_append_new s addr j [] h = refl
find_append_new s addr j ((key, x) ∷ n) h = ground (arith, find_append_new s addr j n)

pub find_behind :
    (name a : Bytes) (k j : ℕ) (es : List (Bytes × ℕ))
    → find name es ≡ none
    → find a es ≡ some j
    → find a ((name, k) ∷ es) ≡ some j
unfolding find
find_behind name a k j es n h = elim (Bool-cases (name =ᵇ a)) [
  | inr f ↦ rw f h
  | inl y ↦
      absurd (let e : find a es ≡ none = subst (λ s. find s es ≡ none) (=ᵇ-sound name a y) n in cc)
]

pub find_first :
    (name : Bytes) (k : ℕ) (es : List (Bytes × ℕ)) → find name ((name, k) ∷ es) ≡ some k
unfolding find
find_first name k es = rw (=ᵇ-refl name) refl
