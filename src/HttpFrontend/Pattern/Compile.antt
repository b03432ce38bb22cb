-- ===== src/HttpFrontend/Pattern/Compile.antt =====
-- The compiled expression of a wildcard pattern, whatever bytes the pattern holds.
use mathlib.Core.List.{concat-ne-nil}
use simult.Prelude.{
  ℕ, ◌≡◌, refl, ap, ◌∙◌, ◌≢◌, ◌↔◌, inl, inr, Bool, true, false, ◌&&◌, Option, none, some, List, [],
  ◌∷◌, ◌++◌, map, append_assoc, arith, ltb, ◌==◌, if◌then◌else◌, Bool-cases, is_some, all, Bytes,
  codes, to_lower, replace_pair,
}
use simult.HttpFrontend.Pattern.{
  special, quote_meta, pattern_text, Atom, lit, dot, dot_star, before, parse_atoms, compile,
  pattern_to_rgx, match_string, runes,
}
use simult.HttpFrontend.Pattern.Match.{Denotes, match_runes_iff}

-- What a wildcard pattern means: `*` and `?` are wildcards, and all other bytes are themselves.
abbrev pub glob_byte : ℕ → Atom
glob_byte c = if c == b'*' then dot_star else if c == b'?' then dot else lit c

abbrev pub glob : Bytes → List Atom
glob = map glob_byte

heads : ℕ → Bytes → Bool
heads b [] = false
heads b (d ∷ s) = d == b

replace_skip :
    (a b : ℕ) (new : Bytes) (c : ℕ) (s : Bytes)
    → c == a && heads b s ≡ false
    → replace_pair a b new (c ∷ s) ≡ c ∷ replace_pair a b new s
unfolding heads
replace_skip a b new c [] h = refl
replace_skip a b new c (d ∷ s) h = rw (h, replace_pair)

replace_hit :
    (a b : ℕ) (new s : Bytes) → replace_pair a b new (a ∷ b ∷ s) ≡ new ++ replace_pair a b new s
replace_hit a b new s = let e : a == a && b == b ≡ true = ground arith in rw (e, replace_pair)

-- The text of one byte: quoted, after the first replacement, and after the second.
quoted : ℕ → Bytes
quoted c = if special c then b'\\' ∷ c ∷ [] else c ∷ []

starred : ℕ → Bytes
unfolding quoted
starred c = if c == b'*' then codes ".*" else quoted c

wild : ℕ → Bytes
unfolding starred
wild c = if c == b'?' then codes "." else starred c

spread : (ℕ → Bytes) → Bytes → Bytes
spread f [] = []
spread f (c ∷ s) = f c ++ spread f s

quote-spread : (s : Bytes) → quote_meta s ≡ spread quoted s
unfolding quote_meta spread quoted
quote-spread [] = refl
quote-spread (c ∷ s) = ground (arith, quote-spread s)

quoted-heads : (s : Bytes) → heads b'*' (spread quoted s) ≡ false
unfolding heads spread quoted special
quoted-heads [] = refl
quoted-heads (c ∷ s) = ground arith

starred-heads : (s : Bytes) → heads b'?' (spread starred s) ≡ false
unfolding heads spread starred special
starred-heads [] = refl
starred-heads (c ∷ s) = ground arith

wild-heads : (s : Bytes) → heads b'*' (spread wild s ++ b'$' ∷ []) ≡ false
unfolding heads spread wild special
wild-heads [] = refl
wild-heads (c ∷ s) = ground arith

-- Two bytes that are no match, one after the other.
replace_skip_two :
    (a b : ℕ) (new : Bytes) (c d : ℕ) (s : Bytes)
    → c == a && d == b ≡ false
    → d == a && heads b s ≡ false
    → replace_pair a b new (c ∷ d ∷ s) ≡ c ∷ d ∷ replace_pair a b new s
unfolding heads
replace_skip_two a b new c d s h k =
    replace_skip a b new c (d ∷ s) h ∙ ap (◌∷◌ c) (replace_skip a b new d s k)

-- What a byte of a pattern is: a star, a question mark, another special byte, or none of these.
data Kind (c : ℕ) : Type 0 where
  star : c ≡ b'*' → Kind c
  question : c ≡ b'?' → Kind c
  escaped : special c ≡ true → c == b'*' ≡ false → c == b'?' ≡ false → Kind c
  plain : special c ≡ false → c == b'*' ≡ false → c == b'?' ≡ false → Kind c

kind : (c : ℕ) → Kind c
kind c = elim (Bool-cases (c == b'*')) [
  | inl e ↦ star (ground arith)
  | inr e ↦ elim (Bool-cases (c == b'?')) [
    | inl f ↦ question (ground arith)
    | inr f ↦ elim (Bool-cases (special c)) [ inl p ↦ escaped p e f | inr p ↦ plain p e f ]
  ]
]

plain_byte : (c : ℕ) → special c ≡ false → (c == b'\\' ≡ false) × (c == b'.' ≡ false)
unfolding special
plain_byte c h = (ground arith, ground arith)

-- The first replacement turns a quoted star into `.*` and keeps any other byte.
first_byte :
    (c : ℕ) (q : Bytes)
    → heads b'*' q ≡ false
    → replace_pair b'\\' b'*' (codes ".*") (quoted c ++ q)
      ≡ starred c ++ replace_pair b'\\' b'*' (codes ".*") q
unfolding starred
first_byte c q h = elim (kind c) [
  | star e ↦ rw e (unfold special in replace_hit b'\\' b'*' (codes ".*") q)
  | question e ↦
      rw e (unfold special in replace_skip_two b'\\' b'*' (codes ".*") b'\\' b'?' q refl refl)
  | escaped p e f ↦
      rw (p, e) (replace_skip_two b'\\' b'*' (codes ".*") b'\\' c q (rw e) (ground (arith, h)))
  | plain p e f ↦ rw (p, e) (replace_skip b'\\' b'*' (codes ".*") c q (rw (plain_byte c p).0))
]

first_pass : (s : Bytes) → replace_pair b'\\' b'*' (codes ".*") (spread quoted s) ≡ spread starred s
unfolding spread
first_pass [] = refl
first_pass (c ∷ s) =
    first_byte c (spread quoted s) (quoted-heads s) ∙ ap (◌++◌ (starred c)) (first_pass s)

-- The second one turns a quoted question mark into `.`.
second_byte :
    (c : ℕ) (q : Bytes)
    → heads b'?' q ≡ false
    → replace_pair b'\\' b'?' (codes ".") (starred c ++ q)
      ≡ wild c ++ replace_pair b'\\' b'?' (codes ".") q
unfolding wild
second_byte c q h = elim (kind c) [
  | star e ↦ rw e (replace_skip_two b'\\' b'?' (codes ".") b'.' b'*' q refl refl)
  | question e ↦ rw e (unfold special in replace_hit b'\\' b'?' (codes ".") q)
  | escaped p e f ↦
      rw (p, e, f) (replace_skip_two b'\\' b'?' (codes ".") b'\\' c q (rw f) (ground (arith, h)))
  | plain p e f ↦ rw (p, e, f) (replace_skip b'\\' b'?' (codes ".") c q (rw (plain_byte c p).0))
]

second_pass : (s : Bytes) → replace_pair b'\\' b'?' (codes ".") (spread starred s) ≡ spread wild s
unfolding spread
second_pass [] = refl
second_pass (c ∷ s) =
    second_byte c (spread starred s) (starred-heads s) ∙ ap (◌++◌ (wild c)) (second_pass s)

parse_plain :
    (c d : ℕ) (q : Bytes)
    → c == b'\\' ≡ false
    → c == b'.' ≡ false
    → special c ≡ false
    → parse_atoms (c ∷ d ∷ q) ≡ before (lit c) (parse_atoms (d ∷ q))
unfolding parse_atoms
parse_plain c d q a b p = ground arith

-- Reading the text of one byte back.
parse_byte :
    (c d : ℕ) (q : Bytes)
    → d == b'*' ≡ false
    → parse_atoms (wild c ++ d ∷ q) ≡ before (glob_byte c) (parse_atoms (d ∷ q))
unfolding wild
parse_byte c d q h = elim (kind c) [
  | star e ↦ rw e (unfold parse_atoms in refl)
  | question e ↦ rw e (unfold parse_atoms in rw (h, parse_atoms))
  | escaped p e f ↦ rw (p, e, f) (unfold parse_atoms in refl)
  | plain p e f ↦ rw (p, e, f) (parse_plain c d q (plain_byte c p).0 (plain_byte c p).1 p)
]

-- A text that is not empty, by its first byte.
parse_text :
    (c : ℕ) (r : Bytes)
    → r ≢ []
    → heads b'*' r ≡ false
    → parse_atoms (wild c ++ r) ≡ before (glob_byte c) (parse_atoms r)
unfolding heads
parse_text c [] n h = absurd (n refl)
parse_text c (d ∷ q) n h = parse_byte c d q h

parse_spread : (s : Bytes) → parse_atoms (spread wild s ++ b'$' ∷ []) ≡ some (glob s)
unfolding spread
parse_spread [] = unfold parse_atoms in refl
parse_spread (c ∷ s) = rw append_assoc (
    parse_text c (spread wild s ++ b'$' ∷ []) (concat-ne-nil b'$' (spread wild s)) (wild-heads s)
    ∙ ap (before (glob_byte c)) (parse_spread s))

pattern_to_rgx-glob : (pattern : Bytes) → pattern_to_rgx pattern ≡ some (glob (to_lower pattern))
unfolding pattern_to_rgx pattern_text compile
pattern_to_rgx-glob pattern =
    let s = to_lower pattern in rw (quote-spread s, first_pass s, second_pass s) (parse_spread s)

-- Does a compiled expression match?
abbrev pub accepts : Option (List Atom) → Bytes → Bool
accepts none s = false
accepts (some rgx) s = match_string rgx s

-- For every ASCII pattern the expression built from its quoted text compiles, and it matches exactly
-- the texts, read as UTF-8, in which each `*` of the lower-cased pattern stands for any code points
-- without a newline, each `?` for one code point that is no newline, and each other character for
-- itself. A byte that begins no valid code point counts as the code point U+FFFD.
pub pattern_means_glob :
    (pattern : Bytes)
    → all (λ c. ltb c 128) pattern ≡ true
    → (s : Bytes)
    → (is_some (pattern_to_rgx pattern) ≡ true)
      × ((accepts (pattern_to_rgx pattern) s ≡ true) ↔ Denotes (glob (to_lower pattern)) (runes s))
unfolding match_string
pattern_means_glob pattern ascii s =
    rw (pattern_to_rgx-glob pattern) (refl, match_runes_iff (glob (to_lower pattern)) (runes s))
