-- ===== src/HttpCommon/Paths.antt =====
-- pkg/lb/httpcommon.go, `normalizePath` and `uriToPath`.
use mathlib.Core.Path.{subst}
use simult.Prelude.{
  ℕ, zero, suc, ◌≤◌, ◌<◌, ◌≡◌, refl, ap, ◌∙◌, ◌↔◌, ◌⊎◌, inl, inr, true, false, ◌&&◌, Option, none,
  some, [], ◌∷◌, arith, ◌==◌, Bool-cases, length, Bytes, codes, ◌=ᵇ◌, =ᵇ_iff, cut_byte,
  replace_pair,
}

-- One round of the loop: `//` and then `/.` become `/`.
pub squeeze : Bytes → Bytes
squeeze path = replace_pair b'/' b'.' (codes "/") (replace_pair b'/' b'/' (codes "/") path)

-- The loop. The fuel of `normalize_path` is more than the rounds, since each but the last makes the
-- path shorter.
pub normalize : ℕ → Bytes → Bytes
normalize zero path = path
normalize (suc fuel) path =
    let next = squeeze path in elim (next =ᵇ path) [ true ↦ next | false ↦ normalize fuel next ]

pub normalize_path : Bytes → Bytes
normalize_path path = normalize (suc (length path)) path

abbrev before_query : Option (Bytes × Bytes) → Bytes → Bytes
before_query none uri = uri
before_query (some (l, r)) uri = l

pub uri_to_path : Bytes → Bytes
uri_to_path uri = normalize_path (before_query (cut_byte b'?' uri) uri)

-- No byte `a` stands directly before a byte `b`.
abbrev pub Lacks : ℕ → ℕ → Bytes → Type 0
Lacks a b [] = Unit {0}
Lacks a b (c ∷ []) = Unit {0}
Lacks a b (c ∷ d ∷ s) = (c == a && d == b ≡ false) × Lacks a b (d ∷ s)

-- With a replacement of one byte a text gets shorter, or has no match and stays as it is.
abbrev Shorter : ℕ → ℕ → Bytes → Bytes → Type 0
Shorter a b s t = (length t < length s) ⊎ ((t ≡ s) × Lacks a b s)

replace-le : (a b n : ℕ) (s : Bytes) → length (replace_pair a b (n ∷ []) s) ≤ length s
replace-le a b n [] = omega arith
replace-le a b n (c ∷ []) = omega arith
replace-le a b n (c ∷ d ∷ s) = elim (Bool-cases (c == a && d == b)) [
  | inl e ↦ rw (e, replace_pair) (omega (arith, replace-le a b n s))
  | inr e ↦ rw (e, replace_pair) (omega (arith, replace-le a b n (d ∷ s)))
]

replace-Shorter : (a b n : ℕ) (s : Bytes) → Shorter a b s (replace_pair a b (n ∷ []) s)
replace-Shorter a b n [] = inr (refl, tt)
replace-Shorter a b n (c ∷ []) = inr (refl, tt)
replace-Shorter a b n (c ∷ d ∷ s) = elim (Bool-cases (c == a && d == b)) [
  | inl e ↦ rw (e, replace_pair) (inl (omega (arith, replace-le a b n s)))
  | inr e ↦
      rw (e, replace_pair)
        (elim (replace-Shorter a b n (d ∷ s)) [
          | inl h ↦ inl (omega arith)
          | inr h ↦ inr (ap (◌∷◌ c) h.0, (refl, h.1))
        ])
]

-- A normal path has neither `//` nor `/.`.
pub record IsNormal (s : Bytes) : Type 0 where
  pub no_empty : Lacks b'/' b'/' s
  pub no_dot : Lacks b'/' b'.' s

squeeze_cases : (s : Bytes) → (length (squeeze s) < length s) ⊎ ((squeeze s ≡ s) × IsNormal s)
unfolding squeeze
squeeze_cases s =
    let t = replace_pair b'/' b'/' (codes "/") s in
    let le = replace-le b'/' b'.' b'/' t in
    elim (replace-Shorter b'/' b'/' b'/' s) [
      | inl h ↦ inl (omega arith)
      | inr (e, l) ↦ elim (replace-Shorter b'/' b'.' b'/' t) [
        | inl h ↦ inl (omega (arith, ap length e))
        | inr (f, m) ↦ inr (f ∙ e, record { no_empty = l; no_dot = subst (Lacks b'/' b'.') e m })
      ]
    ]

normalize_stop : (fuel : ℕ) (s : Bytes) → squeeze s ≡ s → normalize (suc fuel) s ≡ s
unfolding normalize
normalize_stop fuel s e = elim (Bool-cases (squeeze s =ᵇ s)) [
  | inl u ↦ rw (u, normalize) e
  | inr u ↦ absurd (cc (u, (=ᵇ_iff (squeeze s) s).1 e))
]

normalize_go :
    (fuel : ℕ) (s : Bytes)
    → length (squeeze s) < length s
    → normalize (suc fuel) s ≡ normalize fuel (squeeze s)
unfolding normalize
normalize_go fuel s h = elim (Bool-cases (squeeze s =ᵇ s)) [
  | inl u ↦ absurd (omega (arith, ap length ((=ᵇ_iff (squeeze s) s).0 u)))
  | inr u ↦ rw (u, normalize)
]

normalize-IsNormal : (fuel : ℕ) (s : Bytes) → length s < fuel → IsNormal (normalize fuel s)
normalize-IsNormal zero s h = absurd (omega arith)
normalize-IsNormal (suc fuel) s h = elim (squeeze_cases s) [
  | inl k ↦ rw (normalize_go fuel s k) (normalize-IsNormal fuel (squeeze s) (omega arith))
  | inr (e, n) ↦ rw (normalize_stop fuel s e) n
]

replace_keep : (a b : ℕ) (new s : Bytes) → Lacks a b s → replace_pair a b new s ≡ s
replace_keep a b new [] h = refl
replace_keep a b new (c ∷ []) h = refl
replace_keep a b new (c ∷ d ∷ s) (e, h) =
    rw (e, replace_pair) (ap (◌∷◌ c) (replace_keep a b new (d ∷ s) h))

squeeze_keep : (s : Bytes) → IsNormal s → squeeze s ≡ s
unfolding squeeze
squeeze_keep s n =
    rw (replace_keep b'/' b'/' (codes "/") s n.no_empty)
      (replace_keep b'/' b'.' (codes "/") s n.no_dot)

-- The loop on every path ends with one that has neither `//` nor `/.`; it leaves exactly the paths
-- without them as they are, so a second normalisation changes nothing.
pub normalize_path-IsNormal :
    (path : Bytes)
    → IsNormal (normalize_path path)
      × (IsNormal path ↔ (normalize_path path ≡ path))
      × (normalize_path (normalize_path path) ≡ normalize_path path)
unfolding normalize_path
normalize_path-IsNormal path =
    let n = normalize-IsNormal (suc (length path)) path (omega arith) in
    (
      n,
      (λ k. normalize_stop (length path) path (squeeze_keep path k), λ e. rw (← e) n),
      normalize_stop _ (normalize (suc (length path)) path) (squeeze_keep _ n),
    )

normalize_agree :
    (f g : ℕ) (s : Bytes) → length s < f → length s < g → normalize f s ≡ normalize g s
normalize_agree zero g s h k = absurd (omega arith)
normalize_agree (suc f) zero s h k = absurd (omega arith)
normalize_agree (suc f) (suc g) s h k = elim (squeeze_cases s) [
  | inl l ↦
      rw (normalize_go f s l, normalize_go g s l)
        (normalize_agree f g (squeeze s) (omega arith) (omega arith))
  | inr (e, n) ↦ rw (normalize_stop f s e, normalize_stop g s e)
]

-- Any fuel beyond the length of the path gives the result of `normalize_path`: the loop ends by its
-- own test.
pub normalize_enough :
    (fuel : ℕ) (path : Bytes) → length path < fuel → normalize fuel path ≡ normalize_path path
unfolding normalize_path
normalize_enough fuel path h = normalize_agree fuel (suc (length path)) path h (omega arith)
