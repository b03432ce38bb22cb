-- ===== src/Prelude/Text.antt =====
-- Texts as lists of bytes, with the functions of Go's `strings` and `bytes` that the program calls.
use Prim.Native.Nat.{ℕ, ◌+◌, ◌-◌}
use Prim.Native.Char.{code}
use Prim.Native.String.{String}
use mathlib.Core.Path.{◌≡◌, refl}
use mathlib.Core.Logic.{◌↔◌}
use mathlib.Core.Bool.{Bool, true, false, ◌&&◌}
use mathlib.Core.List.{List, [], ◌∷◌, ◌++◌, map}
use mathlib.Core.Option.{Option, none, some}
use native.Mathlib.Omega.{arith}
use simult.Prelude.Tests.{leb, ◌==◌, if◌then◌else◌}

abbrev pub Bytes : Type 0
Bytes = List ℕ

-- The bytes of an ASCII literal.
abbrev pub codes : String → Bytes
codes String.[] = []
codes (String.◌∷◌ c s) = code c ∷ codes s

infix 50 ◌=ᵇ◌
abbrev pub ◌=ᵇ◌ : Bytes → Bytes → Bool
[] =ᵇ [] = true
[] =ᵇ (d ∷ t) = false
(c ∷ s) =ᵇ [] = false
(c ∷ s) =ᵇ (d ∷ t) = c == d && s =ᵇ t

pub =ᵇ-sound : (s t : Bytes) → s =ᵇ t ≡ true → s ≡ t
=ᵇ-sound [] [] h = refl
=ᵇ-sound [] (d ∷ t) h = cc
=ᵇ-sound (c ∷ s) [] h = cc
=ᵇ-sound (c ∷ s) (d ∷ t) h = ground (arith, =ᵇ-sound s t)

pub =ᵇ-refl : (s : Bytes) → s =ᵇ s ≡ true
=ᵇ-refl [] = refl
=ᵇ-refl (c ∷ s) = ground (arith, =ᵇ-refl s)

pub =ᵇ_comm : (s t : Bytes) → s =ᵇ t ≡ t =ᵇ s
=ᵇ_comm [] [] = refl
=ᵇ_comm [] (d ∷ t) = refl
=ᵇ_comm (c ∷ s) [] = refl
=ᵇ_comm (c ∷ s) (d ∷ t) = ground (arith, =ᵇ_comm s t)

-- Both directions of `s == t`.
pub =ᵇ_iff : (s t : Bytes) → (s =ᵇ t ≡ true) ↔ (s ≡ t)
=ᵇ_iff s t = (=ᵇ-sound s t, λ e. rw e (=ᵇ-refl t))

-- `strings.IndexByte` with the two slices around the index.
abbrev pub cut_byte : ℕ → Bytes → Option (Bytes × Bytes)
cut_byte b [] = none
cut_byte b (c ∷ s) =
    if c == b
    then some ([], s)
    else elim (cut_byte b s) [ none ↦ none | some (l, r) ↦ some (c ∷ l, r) ]

-- `strings.HasPrefix` with the rest, and `strings.TrimPrefix`.
abbrev pub strip_prefix : Bytes → Bytes → Option Bytes
strip_prefix [] s = some s
strip_prefix (p ∷ ps) [] = none
strip_prefix (p ∷ ps) (c ∷ s) = if p == c then strip_prefix ps s else none

-- `strings.TrimLeft(s, " ")`.
abbrev pub trim_left : Bytes → Bytes
trim_left [] = []
trim_left (c ∷ s) = if c == 32 then trim_left s else c ∷ s

-- `strings.ToLower` and `strings.ToUpper`, on ASCII letters.
abbrev pub lower : ℕ → ℕ
lower c = if leb b'A' c && leb c b'Z' then c + 32 else c

abbrev pub upper : ℕ → ℕ
upper c = if leb b'a' c && leb c b'z' then c - 32 else c

abbrev pub to_lower : Bytes → Bytes
to_lower = map lower

abbrev pub to_upper : Bytes → Bytes
to_upper = map upper

abbrev pub is_digit : ℕ → Bool
is_digit c = leb b'0' c && leb c b'9'

-- `strings.Replace(s, old, new, -1)` for an `old` of two bytes.
abbrev pub replace_pair : ℕ → ℕ → Bytes → Bytes → Bytes
replace_pair a b new [] = []
replace_pair a b new (c ∷ []) = c ∷ []
replace_pair a b new (c ∷ d ∷ s) = elim (c == a && d == b) [
  | true ↦ new ++ replace_pair a b new s
  | false ↦ c ∷ replace_pair a b new (d ∷ s)
]

-- `strings.Split` by a byte: the first part and the others.
abbrev pub split_all : ℕ → Bytes → Bytes × List Bytes
split_all b [] = ([], [])
split_all b (c ∷ s) =
    let (first, rest) = split_all b s in if c == b then ([], first ∷ rest) else (c ∷ first, rest)

-- A text that ends in a byte, without that byte.
abbrev pub drop_last : ℕ → Bytes → Option Bytes
drop_last b [] = none
drop_last b (c ∷ []) = if c == b then some [] else none
drop_last b (c ∷ d ∷ s) = elim (drop_last b (d ∷ s)) [ none ↦ none | some t ↦ some (c ∷ t) ]

pub drop_last-append : (b : ℕ) (s : Bytes) → drop_last b (s ++ b ∷ []) ≡ some s
drop_last-append b [] = ground arith
drop_last-append b (c ∷ []) = ground arith
drop_last-append b (c ∷ d ∷ s) = rw (drop_last-append b (d ∷ s)) refl
