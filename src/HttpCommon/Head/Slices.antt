-- ===== src/HttpCommon/Head/Slices.antt =====
-- What a slice of the reader has to do with the next line.
use simult.Prelude.{
  ℕ, zero, suc, ◌+◌, ◌≡◌, refl, ap, ◌⊎◌, inl, inr, Bool, true, false, Option, none, some, [], ◌∷◌,
  ◌++◌, arith, ◌==◌, ==_iff, length, Bytes, cut_byte,
}
use simult.HttpCommon.Head.{found, full, ended, read_slice}

-- The next line and the rest behind a prefix.
abbrev pub behind : Bytes → Option (Bytes × Bytes) → Option (Bytes × Bytes)
behind x none = none
behind x (some (a, r)) = some (x ++ a, r)

pub record Found (size : ℕ) (s : Bytes) : Type 0 where
  pub a : Bytes
  pub r : Bytes
  pub slices : read_slice size s ≡ (a ++ b'\n' ∷ [], r, found)
  pub cuts : cut_byte b'\n' s ≡ some (a, r)
  pub measures : length s ≡ length a + suc (length r)

pub record Full (size : ℕ) (s : Bytes) : Type 0 where
  pub x : Bytes
  pub y : Bytes
  pub slices : read_slice size s ≡ (x, y, full)
  pub fills : length x ≡ size
  pub cuts : cut_byte b'\n' s ≡ behind x (cut_byte b'\n' y)
  pub measures : length s ≡ length x + length y

pub record Ended (size : ℕ) (s : Bytes) : Type 0 where
  pub x : Bytes
  pub slices : read_slice size s ≡ (x, [], ended)
  pub cuts : cut_byte b'\n' s ≡ none

abbrev pub Sliced : ℕ → Bytes → Type 0
Sliced size s = Found size s ⊎ (Full size s ⊎ Ended size s)

behind_nil : (o : Option (Bytes × Bytes)) → o ≡ behind [] o
behind_nil none = refl
behind_nil (some (a, r)) = refl

behind_cons :
    (c : ℕ) (x : Bytes) (o : Option (Bytes × Bytes))
    → elim (behind x o) as (λ _. Option (Bytes × Bytes)) [
      | none ↦ none
      | some (l, r) ↦ some (c ∷ l, r)
    ]
      ≡ behind (c ∷ x) o
behind_cons c x none = refl
behind_cons c x (some (a, r)) = refl

pub read_slice-Sliced : (size : ℕ) (s : Bytes) → Sliced size s
unfolding read_slice
read_slice-Sliced zero s = inr (
    inl (record {
      x = [];
      y = s;
      slices = refl;
      fills = refl;
      cuts = behind_nil _;
      measures = omega arith;
    }))
read_slice-Sliced (suc size) [] = inr (inr (record { x = []; slices = refl; cuts = refl }))
read_slice-Sliced (suc size) (c ∷ s) = step (c == b'\n') refl (read_slice-Sliced size s)
  where
    step : (b : Bool) → c == b'\n' ≡ b → Sliced size s → Sliced (suc size) (c ∷ s)
    step true e v =
        let q : c ≡ b'\n' = (==_iff c b'\n').0 e in
        inl (record {
          a = [];
          r = s;
          slices = rw e (ap (λ d. (d ∷ [], s, found)) q);
          cuts = rw e refl;
          measures = omega arith;
        })
    step false e (inl f) = inl (record {
      a = c ∷ f.a;
      r = f.r;
      slices = rw (e, f.slices) refl;
      cuts = rw (e, f.cuts) refl;
      measures = let m = f.measures in omega arith;
    })
    step false e (inr (inl f)) = inr (
        inl (record {
          x = c ∷ f.x;
          y = f.y;
          slices = rw (e, f.slices) refl;
          fills = ap suc f.fills;
          cuts = rw (e, f.cuts) (behind_cons c f.x _);
          measures = let m = f.measures in omega arith;
        }))
    step false e (inr (inr f)) =
        inr
          (inr (record { x = c ∷ f.x; slices = rw (e, f.slices) refl; cuts = rw (e, f.cuts) refl }))
