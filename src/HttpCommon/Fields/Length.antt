-- ===== src/HttpCommon/Fields/Length.antt =====
-- The content length against the decimal value of its digits.
use simult.Prelude.{
  ℕ, ◌+◌, ◌-◌, ◌*◌, ◌≤◌, ◌<◌, ◌≡◌, refl, ◌∙◌, Bool, true, false, ◌&&◌, Option, none, some, [], ◌∷◌,
  arith, ltb, if◌then◌else◌, if-cases, all, Bytes, ◌=ᵇ◌, is_digit, pos, negsuc,
}
use simult.HttpBackend.Serve.{protocol}
use simult.HttpCommon.Fields.{bound, scan_uint, parse_uint, int64, of_uint, http_content_length}

-- The value of decimal digits, behind the value of those before them.
abbrev pub decimal : ℕ → Bytes → ℕ
decimal n [] = n
decimal n (c ∷ s) = decimal (n * 10 + (c - b'0')) s

decimal-grows : (n : ℕ) (s : Bytes) → n ≤ decimal n s
decimal-grows n [] = omega arith
decimal-grows n (c ∷ s) = omega (arith, decimal-grows (n * 10 + (c - b'0')) s)

-- What a length header means.
abbrev pub meaning : ℕ → ℕ → Bytes → Option ℕ
meaning limit n s = if all is_digit s && ltb (decimal n s) limit then some (decimal n s) else none

scan_uint-meaning : (limit n : ℕ) (s : Bytes) → n < limit → scan_uint limit n s ≡ meaning limit n s
unfolding scan_uint
scan_uint-meaning limit n [] h = ground arith
scan_uint-meaning limit n (c ∷ s) h =
    let n' = n * 10 + (c - b'0') in
    let g = decimal-grows n' s in
    if-cases (λ o. o ≡ meaning limit n (c ∷ s)) (is_digit c && ltb n' limit)
      (λ t. scan_uint-meaning limit n' s (ground arith) ∙ ground arith) (λ f. ground arith)

of_uint-conditional :
    (b : Bool) (n : ℕ)
    → (b ≡ true → n < bound)
    → of_uint (if b then some n else none)
      ≡ (if b then (pos n, none) else (negsuc 0, some protocol))
unfolding of_uint int64
of_uint-conditional false n h = refl
of_uint-conditional true n h = let k = h refl in ground arith

-- The content length of a request: absent as -1 without an error, the decimal value of the header
-- if it consists of digits and the value is below 2^63, and -1 with a protocol error otherwise.
pub http_content_length-meaning :
    (s : Bytes)
    → http_content_length s ≡ (
        if s =ᵇ []
        then (negsuc 0, none)
        else if all is_digit s && ltb (decimal 0 s) bound
        then (pos (decimal 0 s), none)
        else (negsuc 0, some protocol))
unfolding http_content_length of_uint int64 parse_uint
http_content_length-meaning [] = refl
http_content_length-meaning (c ∷ s) =
    rw (scan_uint-meaning bound 0 (c ∷ s) (omega arith))
      (of_uint-conditional _ (decimal 0 (c ∷ s)) (λ e. ground arith))
