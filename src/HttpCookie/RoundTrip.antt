-- ===== src/HttpCookie/RoundTrip.antt =====
-- Reading the cookies of a line that was printed as browsers print it.
use simult.Prelude.{
  ℕ, zero, suc, ◌≤◌, ◌<◌, ◌≡◌, refl, sym, ap, ◌∙◌, true, false, List, [], ◌∷◌, ◌++◌, append_assoc,
  append-nil, arith, length, all, length-append, All, Bytes, ◌=ᵇ◌,
}
use simult.HttpCookie.{
  Cookie, is_space, skip_space, drop_space, trim_space, split_part, part_of, cookie_of, read_line,
  read_cookies,
}
use simult.HttpCookie.Lines.{
  cut_byte-none, cut_byte-some, skip_space-solid, drop_space-solid, drop_space-append, solid,
}
use simult.HttpCookie.Printed.{
  Printable, print_cookie, no_semicolon, token-solid, plain-solid, print_cookie-all,
  print_cookie-some, some_byte, cookie_of-padded, padded-no_semicolon, padded-some,
}

-- `a=1; b=2`, for a first cookie and the others.
pub print_cookies : Cookie → List Cookie → Bytes
print_cookies c [] = print_cookie c
print_cookies c (d ∷ cs) = print_cookie c ++ b';' ∷ 32 ∷ print_cookies d cs

split_part-last : (s : Bytes) → all no_semicolon s ≡ true → split_part s ≡ (s, [])
unfolding split_part
split_part-last s h = ap (part_of s) (cut_byte-none b';' s h)

split_part-next :
    (s r : Bytes)
    → s =ᵇ [] ≡ false
    → all no_semicolon s ≡ true
    → split_part (s ++ b';' ∷ r) ≡ (s, r)
unfolding split_part
split_part-next s r e h = ap (part_of (s ++ b';' ∷ r)) (cut_byte-some b';' s r h) ∙ rw e refl

-- One turn of the loop, on a line that is not empty.
read_line-turn :
    (n : ℕ) (s part rest : Bytes)
    → s =ᵇ [] ≡ false
    → split_part s ≡ (part, rest)
    → read_line [] (suc n) s ≡ cookie_of [] part ++ read_line [] n rest
unfolding read_line
read_line-turn n [] part rest e f = cc
read_line-turn n (c ∷ s) part rest e f = rw f refl

some-length : (s : Bytes) → s =ᵇ [] ≡ false → 0 < length s
some-length [] h = cc
some-length (c ∷ s) h = omega arith

print_cookies-some :
    (c : Cookie) (cs : List Cookie) → Printable c → print_cookies c cs =ᵇ [] ≡ false
unfolding print_cookies
print_cookies-some c [] h = print_cookie-some c h
print_cookies-some c (d ∷ cs) h = some_byte (print_cookie c) _ (print_cookie-some c h)

shorter :
    (l : Bytes) (c d : Cookie) (cs : List Cookie) (n : ℕ)
    → length (l ++ print_cookies c (d ∷ cs)) ≤ suc n
    → length (32 ∷ print_cookies d cs) ≤ n
unfolding print_cookies
shorter l c d cs n k =
    let tail = print_cookies d cs in
    let e = length-append l (print_cookie c ++ b';' ∷ 32 ∷ tail) in
    let f = length-append (print_cookie c) (b';' ∷ 32 ∷ tail) in omega arith

read_line-print :
    (n : ℕ) (l : Bytes) (c : Cookie) (cs : List Cookie)
    → all is_space l ≡ true
    → Printable c
    → All Printable cs
    → length (l ++ print_cookies c cs) ≤ n
    → read_line [] n (l ++ print_cookies c cs) ≡ c ∷ cs
unfolding print_cookies read_line
read_line-print zero l c cs hl h hs k = ground (
  arith,
  length-append l (print_cookies c cs),
  some-length (print_cookies c cs) (print_cookies-some c cs h),
)
read_line-print (suc n) l c [] hl h hs k =
    read_line-turn n (l ++ print_cookies c []) (l ++ print_cookie c) [] (padded-some l c h)
      (split_part-last _ (padded-no_semicolon l c hl h))
    ∙ rw (cookie_of-padded l c hl h) refl
read_line-print (suc n) l c (d ∷ cs) hl h hs k =
    ap (read_line [] (suc n))
      (sym (append_assoc l (print_cookie c) (b';' ∷ 32 ∷ print_cookies d cs)))
    ∙ read_line-turn n ((l ++ print_cookie c) ++ b';' ∷ 32 ∷ print_cookies d cs)
        (l ++ print_cookie c) (32 ∷ print_cookies d cs)
        (some_byte (l ++ print_cookie c) _ (padded-some l c h))
        (split_part-next (l ++ print_cookie c) (32 ∷ print_cookies d cs) (padded-some l c h)
          (padded-no_semicolon l c hl h))
    ∙ rw
        (
          cookie_of-padded l c hl h,
          read_line-print n (32 ∷ []) d cs refl hs.0 hs.1 (shorter l c d cs n k),
        )
        refl

drop_space-print :
    (c : Cookie) (cs : List Cookie)
    → Printable c
    → All Printable cs
    → drop_space (print_cookies c cs) ≡ print_cookies c cs
unfolding print_cookies
drop_space-print c [] h hs =
    drop_space-solid _ (print_cookie-all solid token-solid plain-solid refl c h)
drop_space-print c (d ∷ cs) h hs = drop_space-append (print_cookie c) _ refl (
    drop_space-append (b';' ∷ 32 ∷ []) (print_cookies d cs) (print_cookies-some d cs hs.0)
      (drop_space-print d cs hs.0 hs.1))

skip_space-first :
    (s t : Bytes) → s =ᵇ [] ≡ false → all solid s ≡ true → skip_space (s ++ t) ≡ s ++ t
unfolding skip_space
skip_space-first [] t e h = cc
skip_space-first (c ∷ s) t e h = ground arith

skip_space-print :
    (c : Cookie) (cs : List Cookie)
    → Printable c
    → skip_space (print_cookies c cs) ≡ print_cookies c cs
unfolding print_cookies
skip_space-print c [] h =
    skip_space-solid _ (print_cookie-all solid token-solid plain-solid refl c h)
skip_space-print c (d ∷ cs) h =
    skip_space-first (print_cookie c) _ (print_cookie-some c h)
      (print_cookie-all solid token-solid plain-solid refl c h)

trim_space-print :
    (c : Cookie) (cs : List Cookie)
    → Printable c
    → All Printable cs
    → trim_space (print_cookies c cs) ≡ print_cookies c cs
unfolding trim_space
trim_space-print c cs h hs = rw (skip_space-print c cs h) (drop_space-print c cs h hs)

-- The cookies of a line that lists cookies as `name=value` with `"; "` between them are those
-- cookies in their order, if each name is a token and each value has only bytes of a cookie value
-- and no spaces.
pub read_cookies-print :
    (c : Cookie) (cs : List Cookie)
    → Printable c
    → All Printable cs
    → read_cookies (print_cookies c cs ∷ []) [] ≡ c ∷ cs
unfolding read_cookies
read_cookies-print c cs h hs =
    rw
      (
        trim_space-print c cs h hs,
        read_line-print (length (print_cookies c cs)) [] c cs refl h hs (omega arith),
        append-nil (c ∷ cs),
      )
      refl
