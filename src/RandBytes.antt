-- ===== src/RandBytes.antt =====
-- pkg/lb/lb.go, `genRandByteSlice`: random bytes, cut from numbers of 64 bits. `rand` is the sequence
-- of the numbers that the generator answers.
use simult.Prelude.{
  ℕ, zero, suc, ◌/◌, ◌%◌, ◌<◌, ◌≡◌, refl, ap, [], ◌∷◌, arith, ◌==◌, if◌then◌else◌, length, All, ℤ,
  Bytes, pos, negsuc,
}

-- The loop, for `n` more bytes; `x` is what is left of a number, and `d` numbers are drawn.
pub fill : (ℕ → ℕ) → ℕ → ℕ → ℕ → Bytes
fill rand zero x d = []
fill rand (suc n) x d =
    let (y, d') = if x == 0 then (rand d, suc d) else (x, d) in (y % 256) ∷ fill rand n (y / 256) d'

pub gen_rand_byte_slice : (ℕ → ℕ) → ℤ → Bytes
unfolding fill
gen_rand_byte_slice rand (pos n) = fill rand n 0 0
gen_rand_byte_slice rand (negsuc n) = []

-- The slice has the size, and bytes in it only.
fill-bytes :
    (rand : ℕ → ℕ) (n x d : ℕ)
    → (length (fill rand n x d) ≡ n) × All (λ b. b < 256) (fill rand n x d)
unfolding fill
fill-bytes rand zero x d = (refl, tt)
fill-bytes rand (suc n) x d =
    let p : ℕ × ℕ = if x == 0 then (rand d, suc d) else (x, d) in
    let (l, a) = fill-bytes rand n (p.0 / 256) p.1 in (ap suc l, (omega arith, a))

pub gen_rand_byte_slice-bytes :
    (rand : ℕ → ℕ) (n : ℕ)
    → (length (gen_rand_byte_slice rand (pos n)) ≡ n)
      × All (λ b. b < 256) (gen_rand_byte_slice rand (pos n))
unfolding gen_rand_byte_slice
gen_rand_byte_slice-bytes rand n = fill-bytes rand n 0 0
