-- ===== src/HttpFrontend/Pattern.antt =====
-- pkg/lb/httpfrontend.go, `patternToRgx`: a wildcard pattern becomes the text of a regular
-- expression, which is compiled and matched. The parts of Go's `regexp` that these texts use are
-- modelled: literals, escapes, `.`, `.*`, `^` and `$`. A text is matched by its code points, as
-- `regexp` reads UTF-8. `to_lower` goes by ASCII letters, which is `strings.ToLower` on an ASCII
-- pattern; a pattern with other letters is outside the model.
pub mod Compile
pub mod Match
use simult.Prelude.{
  ℕ, zero, suc, ◌+◌, ◌-◌, ◌*◌, ◌/◌, ◌%◌, ◌^◌, Bool, true, false, ◌&&◌, Option, none, some, List, [],
  ◌∷◌, ◌++◌, ltb, leb, ◌==◌, if◌then◌else◌, any, all, Bytes, codes, to_lower, replace_pair,
}

-- The bytes that `regexp.QuoteMeta` escapes.
pub special : ℕ → Bool
special c = any (λ d. d == c) (codes "\\.+*?()|[]{}^$")

pub quote_meta : Bytes → Bytes
quote_meta [] = []
quote_meta (c ∷ s) = if special c then b'\\' ∷ c ∷ quote_meta s else c ∷ quote_meta s

pub pattern_text : Bytes → Bytes
pattern_text pattern =
    let reg = quote_meta (to_lower pattern) in
    let reg' = replace_pair b'\\' b'*' (codes ".*") reg in
    let reg'' = replace_pair b'\\' b'?' (codes ".") reg' in b'^' ∷ (reg'' ++ b'$' ∷ [])

pub data Atom : Type 0 where
  lit : ℕ → Atom
  dot : Atom
  dot_star : Atom

abbrev pub before : Atom → Option (List Atom) → Option (List Atom)
before a none = none
before a (some rgx) = some (a ∷ rgx)

-- The parser of the expressions between `^` and `$`. `none` is a text outside the fragment, on
-- which nothing here relies.
pub parse_atoms : Bytes → Option (List Atom)
parse_atoms [] = none
parse_atoms (c ∷ []) = if c == b'$' then some [] else none
parse_atoms (c ∷ d ∷ s) = elim (c == b'\\') [
  | true ↦ before (lit d) (parse_atoms s)
  | false ↦ elim (c == b'.' && d == b'*') [
    | true ↦ before dot_star (parse_atoms s)
    | false ↦ elim (c == b'.') [
      | true ↦ before dot (parse_atoms (d ∷ s))
      | false ↦ elim (special c) [ true ↦ none | false ↦ before (lit c) (parse_atoms (d ∷ s)) ]
    ]
  ]
]

pub compile : Bytes → Option (List Atom)
compile [] = none
compile (c ∷ s) = if c == b'^' then parse_atoms s else none

-- What Go's `utf8.RuneError` stands for: a byte that begins no code point is read as U+FFFD.
abbrev broken : ℕ × ℕ
broken = (65533, 0)

-- May `d` follow the first byte `c`? The bounds leave out overlong forms, surrogates and what is
-- above U+10FFFF.
second_byte : ℕ → ℕ → Bool
second_byte c d =
    let low = if c == 224 then 160 else if c == 240 then 144 else 128 in
    let high = if c == 237 then 159 else if c == 244 then 143 else 191 in leb low d && leb d high

next_byte : ℕ → Bool
next_byte d = leb 128 d && leb d 191

rune_two : ℕ → Bytes → ℕ × ℕ
unfolding second_byte
rune_two c [] = broken
rune_two c (d ∷ s) = if second_byte c d then (c % 32 * 64 + d % 64, 1) else broken

rune_three : ℕ → Bytes → ℕ × ℕ
unfolding second_byte next_byte
rune_three c [] = broken
rune_three c (d ∷ []) = broken
rune_three c (d ∷ e ∷ s) =
    if second_byte c d && next_byte e then ((c % 16 * 64 + d % 64) * 64 + e % 64, 2) else broken

rune_four : ℕ → Bytes → ℕ × ℕ
unfolding second_byte next_byte
rune_four c [] = broken
rune_four c (d ∷ []) = broken
rune_four c (d ∷ e ∷ []) = broken
rune_four c (d ∷ e ∷ g ∷ s) =
    if second_byte c d && next_byte e && next_byte g
    then (((c % 8 * 64 + d % 64) * 64 + e % 64) * 64 + g % 64, 3)
    else broken

-- `utf8.DecodeRune` of `c ∷ s`: the code point and how many bytes after `c` it takes.
pub decode_rune : ℕ → Bytes → ℕ × ℕ
unfolding rune_two rune_three rune_four
decode_rune c s =
    if ltb c 128
    then (c, 0)
    else if ltb c 194
    then broken
    else if ltb c 224
    then rune_two c s
    else if ltb c 240
    then rune_three c s
    else if ltb c 245
    then rune_four c s
    else broken

-- The code points of a text, `skip` bytes of which belong to the last one.
decode : ℕ → Bytes → List ℕ
unfolding decode_rune
decode skip [] = []
decode (suc skip) (c ∷ s) = decode skip s
decode zero (c ∷ s) = (decode_rune c s).0 ∷ decode (decode_rune c s).1 s

unfoldable pub runes : Bytes → List ℕ
unfolding decode
runes = decode 0

-- `MatchString` of an expression anchored at both ends, on the code points of a text; `.` matches
-- all but a newline.
unfoldable pub match_runes : List Atom → List ℕ → Bool
match_runes [] [] = true
match_runes [] (d ∷ s) = false
match_runes (lit c ∷ rgx) [] = false
match_runes (lit c ∷ rgx) (d ∷ s) = let rest = match_runes rgx s in if c == d then rest else false
match_runes (dot ∷ rgx) [] = false
match_runes (dot ∷ rgx) (d ∷ s) = let rest = match_runes rgx s in if d == b'\n' then false else rest
match_runes (dot_star ∷ rgx) [] = match_runes rgx []
match_runes (dot_star ∷ rgx) (d ∷ s) = elim (match_runes rgx (d ∷ s)) [
  | true ↦ true
  | false ↦ elim (d == b'\n') [ true ↦ false | false ↦ match_runes (dot_star ∷ rgx) s ]
]

-- `MatchString`: whether the expression matches the text.
unfoldable pub match_string : List Atom → Bytes → Bool
match_string rgx s = match_runes rgx (runes s)

-- `patternToRgx` with `MustCompile`; the error of the fragment is an expression that matches nothing.
pub pattern_to_rgx : Bytes → Option (List Atom)
pattern_to_rgx pattern = compile (pattern_text pattern)
