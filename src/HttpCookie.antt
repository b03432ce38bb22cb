-- ===== src/HttpCookie.antt =====
-- pkg/lb/httpcookie.go: the cookies of a request, over bytes. The rune functions meet only bytes
-- here: a byte of a longer rune is no token, as its rune is none.
pub mod Lines
pub mod Printed
pub mod RoundTrip
pub mod Valid
use simult.Prelude.{
  ℕ, zero, suc, ◌+◌, ◌-◌, ◌*◌, ◌/◌, ◌%◌, ◌^◌, Bool, not, ◌&&◌, ◌||◌, Option, none, some, List, [],
  ◌∷◌, ◌++◌, ltb, leb, ◌==◌, if◌then◌else◌, length, any, all, Bytes, codes, ◌=ᵇ◌, cut_byte,
  is_digit,
}

pub record Cookie : Type 0 where
  pub name : Bytes
  pub value : Bytes

-- `isTokenTable`.
abbrev pub is_token : ℕ → Bool
is_token c =
    is_digit c
    || (leb b'A' c && leb c b'Z')
    || (leb b'a' c && leb c b'z')
    || any (λ d. c == d) (codes "!#$%&'*+-.^_`|~")

pub is_cookie_name_valid : Bytes → Bool
is_cookie_name_valid raw = not (raw =ᵇ []) && all is_token raw

abbrev pub valid_cookie_value_byte : ℕ → Bool
valid_cookie_value_byte b =
    leb 32 b && ltb b 127 && not (b == 34) && not (b == b';') && not (b == 92)

-- A text that ends in a quote, without it.
pub before_quote : Bytes → Option Bytes
before_quote [] = none
before_quote (c ∷ []) = if c == 34 then some [] else none
before_quote (c ∷ d ∷ s) = elim (before_quote (d ∷ s)) [ none ↦ none | some t ↦ some (c ∷ t) ]

pub strip_quotes : Bytes → Bytes
unfolding before_quote
strip_quotes [] = []
strip_quotes (c ∷ s) =
    if c == 34 then elim (before_quote s) [ none ↦ c ∷ s | some t ↦ t ] else c ∷ s

-- `parseCookieValue` with `allowDoubleQuote`.
pub parse_cookie_value : Bytes → Option Bytes
unfolding strip_quotes
parse_cookie_value raw =
    let v = strip_quotes raw in if all valid_cookie_value_byte v then some v else none

-- `strings.TrimSpace`, on the ASCII spaces.
abbrev pub is_space : ℕ → Bool
is_space c = c == 32 || (leb 9 c && leb c 13)

pub skip_space : Bytes → Bytes
skip_space [] = []
skip_space (c ∷ s) = let rest = skip_space s in if is_space c then rest else c ∷ s

pub drop_space : Bytes → Bytes
drop_space [] = []
drop_space (c ∷ s) = let rest = drop_space s in if is_space c && rest =ᵇ [] then [] else c ∷ rest

pub trim_space : Bytes → Bytes
trim_space s = drop_space (skip_space s)

abbrev pub part_of : Bytes → Option (Bytes × Bytes) → Bytes × Bytes
part_of line none = (line, [])
part_of line (some (l, r)) = if l =ᵇ [] then (line, []) else (l, r)

-- The next part of a line and the rest of it.
pub split_part : Bytes → Bytes × Bytes
split_part line = part_of line (cut_byte b';' line)

abbrev pub name_of : Bytes → Option (Bytes × Bytes) → Bytes × Bytes
name_of part none = (part, [])
name_of part (some (l, r)) = (l, r)

pub name_value : Bytes → Bytes × Bytes
name_value part = name_of part (cut_byte b'=' part)

pub filtered : Bytes → Bytes → Bytes → List Cookie
filtered filter name v =
    if not (is_cookie_name_valid name)
    then []
    else if not (filter =ᵇ []) && not (filter =ᵇ name)
    then []
    else elim (parse_cookie_value v) [
      | none ↦ []
      | some value ↦ record { name = name; value = value } ∷ []
    ]

-- The cookie of a part, if it has one.
pub cookie_of : Bytes → Bytes → List Cookie
cookie_of filter part =
    let p = trim_space part in
    if p =ᵇ [] then [] else let (name, v) = name_value p in filtered filter name v

-- The loop over a line, on fuel.
pub read_line : Bytes → ℕ → Bytes → List Cookie
read_line filter n [] = []
read_line filter zero (c ∷ s) = []
read_line filter (suc n) (c ∷ s) =
    let (part, rest) = split_part (c ∷ s) in cookie_of filter part ++ read_line filter n rest

-- `readCookies`, over the values of the header `Cookie`.
pub read_cookies : List Bytes → Bytes → List Cookie
read_cookies [] filter = []
read_cookies (line ∷ lines) filter =
    let t = trim_space line in read_line filter (length t) t ++ read_cookies lines filter
