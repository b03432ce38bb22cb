-- ===== src/HttpCookie/Printed.antt =====
-- One printed cookie: its bytes, and what is read from it.
use simult.Prelude.{
  ℕ, ◌≡◌, refl, ap, Bool, true, false, not, ◌&&◌, some, [], ◌∷◌, ◌++◌, arith, ◌==◌, all, Bytes,
  ◌=ᵇ◌,
}
use simult.HttpCookie.{
  Cookie, is_token, valid_cookie_value_byte, is_space, is_cookie_name_valid, strip_quotes,
  parse_cookie_value, trim_space, name_of, name_value, filtered, cookie_of,
}
use simult.HttpCookie.Lines.{
  all_mono, all-append, apart, cut_byte-some, skip_space-append, skip_space-solid, drop_space-solid,
  solid,
}

-- A byte of a value that is no space.
abbrev pub plain : ℕ → Bool
plain c = valid_cookie_value_byte c && not (c == 32)

-- A cookie whose name is a token and whose value has bytes of a cookie without spaces.
pub record Printable (c : Cookie) : Type 0 where
  pub named : c.name =ᵇ [] ≡ false
  pub tokens : all is_token c.name ≡ true
  pub plains : all plain c.value ≡ true

pub print_cookie : Cookie → Bytes
print_cookie c = c.name ++ b'=' ∷ c.value

abbrev pub no_semicolon : ℕ → Bool
no_semicolon c = not (c == b';')

spaceless :
    (c : ℕ)
    → (c == 32) ≡ false
    → (c == 9) ≡ false
    → (c == 10) ≡ false
    → (c == 11) ≡ false
    → (c == 12) ≡ false
    → (c == 13) ≡ false
    → solid c ≡ true
spaceless c e e1 e2 e3 e4 e5 = ground arith

pub token-solid : (c : ℕ) → is_token c ≡ true → solid c ≡ true
token-solid c h =
    let e = apart is_token c 32 h refl in
    let e1 = apart is_token c 9 h refl in
    let e2 = apart is_token c 10 h refl in
    let e3 = apart is_token c 11 h refl in
    let e4 = apart is_token c 12 h refl in
    let e5 = apart is_token c 13 h refl in spaceless c e e1 e2 e3 e4 e5

token-no_semicolon : (c : ℕ) → is_token c ≡ true → no_semicolon c ≡ true
token-no_semicolon c h = rw (apart is_token c b';' h refl) refl

token-no_equals : (c : ℕ) → is_token c ≡ true → not (c == b'=') ≡ true
token-no_equals c h = rw (apart is_token c b'=' h refl) refl

pub plain-solid : (c : ℕ) → plain c ≡ true → solid c ≡ true
plain-solid c h = ground arith

plain-no_semicolon : (c : ℕ) → plain c ≡ true → no_semicolon c ≡ true
plain-no_semicolon c h = ground arith

plain-valid : (c : ℕ) → plain c ≡ true → valid_cookie_value_byte c ≡ true
plain-valid c h = ground arith

-- A byte test that holds of tokens, of values and of the equals sign holds of a printed cookie.
pub print_cookie-all :
    (p : ℕ → Bool)
    → ((c : ℕ) → is_token c ≡ true → p c ≡ true)
    → ((c : ℕ) → plain c ≡ true → p c ≡ true)
    → p b'=' ≡ true
    → (c : Cookie) → Printable c
    → all p (print_cookie c) ≡ true
unfolding print_cookie
print_cookie-all p t v e c h =
    all-append p c.name (b'=' ∷ c.value) (all_mono is_token p t c.name h.tokens)
      (rw (e, all_mono plain p v c.value h.plains) refl)

strip_quotes-plain : (s : Bytes) → all plain s ≡ true → strip_quotes s ≡ s
unfolding strip_quotes
strip_quotes-plain [] h = refl
strip_quotes-plain (c ∷ s) h = ground arith

parse_cookie_value-plain : (s : Bytes) → all plain s ≡ true → parse_cookie_value s ≡ some s
unfolding parse_cookie_value
parse_cookie_value-plain s h =
    rw (strip_quotes-plain s h, all_mono plain valid_cookie_value_byte plain-valid s h) refl

filtered-Printable : (c : Cookie) → Printable c → filtered [] c.name c.value ≡ c ∷ []
unfolding filtered is_cookie_name_valid
filtered-Printable c h = rw (h.named, h.tokens, parse_cookie_value-plain c.value h.plains) refl

trim_space-padded :
    (l s : Bytes) → all is_space l ≡ true → all solid s ≡ true → trim_space (l ++ s) ≡ s
unfolding trim_space
trim_space-padded l s hl hs =
    rw (skip_space-append l s hl, skip_space-solid s hs, drop_space-solid s hs) refl

pub some_byte : (s t : Bytes) → s =ᵇ [] ≡ false → (s ++ t) =ᵇ [] ≡ false
some_byte [] t h = cc
some_byte (c ∷ s) t h = refl

name_value-print : (c : Cookie) → Printable c → name_value (print_cookie c) ≡ (c.name, c.value)
unfolding name_value print_cookie
name_value-print c h = ap (name_of (print_cookie c)) (
    cut_byte-some b'=' c.name c.value
      (all_mono is_token (λ d. not (d == b'=')) token-no_equals c.name h.tokens))

pub print_cookie-some : (c : Cookie) → Printable c → print_cookie c =ᵇ [] ≡ false
unfolding print_cookie
print_cookie-some c h = some_byte c.name (b'=' ∷ c.value) h.named

pub cookie_of-padded :
    (l : Bytes) (c : Cookie)
    → all is_space l ≡ true
    → Printable c
    → cookie_of [] (l ++ print_cookie c) ≡ c ∷ []
unfolding cookie_of
cookie_of-padded l c hl h =
    rw
      (
        trim_space-padded l (print_cookie c) hl
            (print_cookie-all solid token-solid plain-solid refl c h),
        print_cookie-some c h,
        name_value-print c h,
        filtered-Printable c h,
      )
      refl

space-no_semicolon : (c : ℕ) → is_space c ≡ true → no_semicolon c ≡ true
space-no_semicolon c h = ground arith

-- A padded cookie has no separator.
pub padded-no_semicolon :
    (l : Bytes) (c : Cookie)
    → all is_space l ≡ true
    → Printable c
    → all no_semicolon (l ++ print_cookie c) ≡ true
padded-no_semicolon l c hl h =
    all-append no_semicolon l (print_cookie c)
      (all_mono is_space no_semicolon space-no_semicolon l hl)
      (print_cookie-all no_semicolon token-no_semicolon plain-no_semicolon refl c h)

pub padded-some : (l : Bytes) (c : Cookie) → Printable c → (l ++ print_cookie c) =ᵇ [] ≡ false
padded-some [] c h = print_cookie-some c h
padded-some (b ∷ l) c h = refl
