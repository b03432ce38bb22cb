-- ===== src/HttpCookie/Lines.antt =====
-- The parts of a line: where it is cut, and what trimming leaves.
use simult.Prelude.{
  ℕ, ◌≡◌, refl, inl, inr, Bool, true, false, not, none, some, [], ◌∷◌, ◌++◌, arith, ◌==◌, ==_iff,
  Bool-cases, all, Bytes, ◌=ᵇ◌, cut_byte,
}
use simult.HttpCookie.{is_space, skip_space, drop_space}

pub all_mono :
    (p q : ℕ → Bool)
    → ((c : ℕ) → p c ≡ true → q c ≡ true)
    → (s : Bytes) → all p s ≡ true
    → all q s ≡ true
all_mono p q f [] h = refl
all_mono p q f (c ∷ s) h = ground (arith, f c, all_mono p q f s)

pub all-append :
    (p : ℕ → Bool) (s t : Bytes) → all p s ≡ true → all p t ≡ true → all p (s ++ t) ≡ true
all-append p [] t hs ht = ht
all-append p (c ∷ s) t hs ht = ground (arith, all-append p s t)

-- Two bytes that a test tells apart.
pub apart : (p : ℕ → Bool) (c d : ℕ) → p c ≡ true → p d ≡ false → (c == d) ≡ false
apart p c d h k = elim (Bool-cases (c == d)) [ inr f ↦ f | inl t ↦ let e = (==_iff c d).0 t in cc ]

pub cut_byte-none : (b : ℕ) (s : Bytes) → all (λ c. not (c == b)) s ≡ true → cut_byte b s ≡ none
cut_byte-none b [] h = refl
cut_byte-none b (c ∷ s) h = ground (arith, cut_byte-none b s)

pub cut_byte-some :
    (b : ℕ) (s r : Bytes) → all (λ c. not (c == b)) s ≡ true → cut_byte b (s ++ b ∷ r) ≡ some (s, r)
cut_byte-some b [] r h = ground arith
cut_byte-some b (c ∷ s) r h = ground (arith, cut_byte-some b s r)

pub skip_space-append : (s t : Bytes) → all is_space s ≡ true → skip_space (s ++ t) ≡ skip_space t
unfolding skip_space
skip_space-append [] t h = refl
skip_space-append (c ∷ s) t h = ground (arith, skip_space-append s t)

abbrev pub solid : ℕ → Bool
solid c = not (is_space c)

pub skip_space-solid : (s : Bytes) → all solid s ≡ true → skip_space s ≡ s
unfolding skip_space
skip_space-solid [] h = refl
skip_space-solid (c ∷ s) h = ground (arith)

pub drop_space-solid : (s : Bytes) → all solid s ≡ true → drop_space s ≡ s
unfolding drop_space
drop_space-solid [] h = refl
drop_space-solid (c ∷ s) h = ground (arith, drop_space-solid s)

last_byte : (s t : Bytes) → t =ᵇ [] ≡ false → (s ++ t) =ᵇ [] ≡ false
last_byte [] t h = h
last_byte (c ∷ s) t h = refl

-- A text with no space at its end keeps its end before any other text.
pub drop_space-append :
    (s t : Bytes) → t =ᵇ [] ≡ false → drop_space t ≡ t → drop_space (s ++ t) ≡ s ++ t
unfolding drop_space
drop_space-append [] t h e = e
drop_space-append (c ∷ s) t h e = rw (drop_space-append s t h e, last_byte s t h) (ground arith)
