-- ===== src/HttpCommon/Head/Reference.antt =====
-- Reading by slices of a buffer against reading by whole lines.
use native.Mathlib.Nat.{add_assoc}
use simult.Prelude.{
  ℕ, zero, suc, ◌+◌, ◌<◌, ◌≡◌, refl, sym, ◌⊎◌, inl, inr, Bool, true, false, not, ◌&&◌, Option, none,
  some, [], ◌∷◌, ◌++◌, append_assoc, arith, ltb, Bool-cases, Option-cases, is_some, length,
  length-append, Bytes, cut_byte,
}
use simult.HttpBackend.Serve.{http_error, other, communication}
use simult.HttpCommon.Head.{
  max_http_header_line_len, max_http_headers_len, SliceEnd, found, full, ended, Head, Split, stop,
  chop, end_line, on_slice, read_head, empty_head, split_http_header, take_line,
}
use simult.HttpCommon.Head.Slices.{behind, Sliced, read_slice-Sliced}

-- A round on the next line, if there is one.
pub on_line : Option (Bytes × Bytes) → Head → Bytes → (Head → Bytes → Split) → Split
on_line none h s more = stop h s (http_error communication)
on_line (some (a, r)) h s more = on_slice (a ++ b'\n' ∷ []) r found h (λ h'. more h' r)

-- The loop with a buffer that holds every line.
pub read_lines : ℕ → Head → Bytes → Split
read_lines zero h s = stop h s other
read_lines (suc fuel) h s = on_line (cut_byte b'\n' s) h s (read_lines fuel)

pub split_lines : Bytes → Split
unfolding read_lines
split_lines s = read_lines (suc (length s)) empty_head s

-- Both fail, or neither does and they are equal.
abbrev pub Agree : Split → Split → Type 0
Agree x y =
    ((x.failure ≡ none) × (x ≡ y)) ⊎ ((is_some x.failure ≡ true) × (is_some y.failure ≡ true))

Agree-refl : (x : Split) → Agree x x
Agree-refl x = elim (Option-cases x.failure) [
  | inl n ↦ inl (n, refl)
  | inr (e, p) ↦ let f : is_some x.failure ≡ true = rw p refl in inr (f, f)
]

end_line-Agree :
    (o : Option Bytes) (h : Head) (r : Bytes) (f g : Head → Split)
    → ((h' : Head) → Agree (f h') (g h'))
    → Agree (end_line o h r f) (end_line o h r g)
unfolding end_line
end_line-Agree none h r f g a = a h
end_line-Agree (some []) h r f g a = inl (refl, refl)
end_line-Agree (some (c ∷ l)) h r f g a = a (take_line h (c ∷ l))

-- A round on the same slice with continuations that agree.
on_slice-Agree :
    (slice r : Bytes) (h : Head) (f g : Head → Split)
    → ((h' : Head) → Agree (f h') (g h'))
    → Agree (on_slice slice r found h f) (on_slice slice r found h g)
unfolding on_slice
on_slice-Agree slice r h f g a =
    elim (Bool-cases (ltb max_http_headers_len (h.nr + length slice))) [
      | inl y ↦ rw y (inr (refl, refl))
      | inr n ↦ rw n (elim (Bool-cases (ltb max_http_header_line_len (length (h.line ++ slice)))) [
        | inl y ↦ rw y (inr (refl, refl))
        | inr m ↦ rw m (end_line-Agree (chop (h.line ++ slice)) _ r f g a)
      ])
    ]

-- Within the limits behind a slice that is no line.
abbrev fits : Head → Bytes → Bool
fits h x =
    not (ltb max_http_headers_len (h.nr + length x))
    && not (ltb max_http_header_line_len (length (h.line ++ x)))

abbrev grown : Head → Bytes → Head
grown h x = record h { nr = h.nr + length x; line = h.line ++ x }

on_slice-full :
    (x y : Bytes) (h : Head) (f : Head → Split)
    → fits h x ≡ true
    → on_slice x y full h f ≡ f (grown h x)
unfolding on_slice
on_slice-full x y h f e = ground arith

on_slice_over :
    (x y : Bytes) (e : SliceEnd) (h : Head) (f : Head → Split)
    → fits h x ≡ false
    → is_some (on_slice x y e h f).failure ≡ true
unfolding on_slice
on_slice_over x y found h f e = ground arith
on_slice_over x y full h f e = ground arith
on_slice_over x y ended h f e = ground arith

on_slice-ended :
    (x y : Bytes) (h : Head) (f : Head → Split) → is_some (on_slice x y ended h f).failure ≡ true
unfolding on_slice
on_slice-ended x y h f = ground arith

-- What does not fit does not fit with more behind it.
fits_more : (h : Head) (x a : Bytes) → fits h x ≡ false → fits h (x ++ a) ≡ false
fits_more h x a e =
    ground (arith, length-append x a, length-append h.line x, length-append h.line (x ++ a))

-- A slice that is no line can be read with the rest of its line.
on_slice-grown :
    (x a r : Bytes) (h : Head) (f : Head → Split)
    → on_slice a r found (grown h x) f ≡ on_slice (x ++ a) r found h f
unfolding on_slice
on_slice-grown x a r h f =
    rw (length-append x a, append_assoc h.line x a, add_assoc h.nr (length x) (length a)) refl

Agree-failed : (x y : Split) → is_some y.failure ≡ true → Agree x y → is_some x.failure ≡ true
Agree-failed x y e (inl (n, q)) = rw q e
Agree-failed x y e (inr (f, g)) = f

-- The step of the comparison for a slice without the line's end.
full_step :
    (o : Option (Bytes × Bytes)) (x y s : Bytes) (h : Head) (f : Head → Split)
    (more : Head → Bytes → Split)
    → (fits h x ≡ true → Agree (f (grown h x)) (on_line o (grown h x) y more))
    → Agree (on_slice x y full h f) (on_line (behind x o) h s more)
unfolding on_line
full_step o x y s h f more a = go o (fits h x) refl a
  where
    go :
        (o : Option (Bytes × Bytes)) (b : Bool)
        → fits h x ≡ b
        → (fits h x ≡ true → Agree (f (grown h x)) (on_line o (grown h x) y more))
        → Agree (on_slice x y full h f) (on_line (behind x o) h s more)
    go none false b a = inr (on_slice_over x y full h f b, refl)
    go (some (l, r)) false b a = inr (
      on_slice_over x y full h f b,
      rw (append_assoc x l (b'\n' ∷ []))
          (on_slice_over _ r found h _ (fits_more h x (l ++ b'\n' ∷ []) b)),
    )
    go none true b a = rw (on_slice-full x y h f b) (inr (Agree-failed _ _ refl (a b), refl))
    go (some (l, r)) true b a =
        rw
          (
            on_slice-full x y h f b,
            append_assoc x l (b'\n' ∷ []),
            sym (on_slice-grown x (l ++ b'\n' ∷ []) r h (λ h'. more h' r)),
          )
          (a b)

-- The two loops, each with fuel for its bytes.
read_head-Agree :
    (size f g : ℕ) (h : Head) (s : Bytes)
    → 0 < size
    → length s < f
    → length s < g
    → Agree (read_head size f h s) (read_lines g h s)
unfolding read_head read_lines on_line
read_head-Agree size zero g h s p q r = absurd (omega arith)
read_head-Agree size (suc f) zero h s p q r = absurd (omega arith)
read_head-Agree size (suc f) (suc g) h s p q r =
    go (read_slice-Sliced size s) (λ h y g' d e. read_head-Agree size f g' h y p d e)
  where
    go :
        Sliced size s
        → ((h : Head) (y : Bytes) (g' : ℕ)
            → length y < f
            → length y < g'
            → Agree (read_head size f h y) (read_lines g' h y))
        → Agree (read_head size (suc f) h s) (read_lines (suc g) h s)
    go (inl v) ih =
        let m = v.measures in
        rw (v.slices, v.cuts)
          (on_slice-Agree (v.a ++ b'\n' ∷ []) v.r h (λ h'. read_head size f h' v.r)
            (λ h'. read_lines g h' v.r) (λ h'. ih h' v.r g (omega arith) (omega arith)))
    go (inr (inl v)) ih =
        let m = v.measures in
        let n = v.fills in
        rw (v.slices, v.cuts)
          (full_step (cut_byte b'\n' v.y) v.x v.y s h _ (read_lines g)
            (λ b. ih (grown h v.x) v.y (suc g) (omega arith) (omega arith)))
    go (inr (inr v)) ih = rw (v.slices, v.cuts) (inr (on_slice-ended v.x [] h _, refl))

-- For a reader whose buffer is not empty, `splitHTTPHeader` does what reading by whole lines does:
-- both fail, or both return the same status line, the same headers and the same rest of the input.
pub split_http_header-Agree :
    (size : ℕ) (s : Bytes) → 0 < size → Agree (split_http_header size s) (split_lines s)
unfolding split_http_header split_lines
split_http_header-Agree size s p =
    read_head-Agree size (suc (length s)) (suc (length s)) empty_head s p (omega arith)
      (omega arith)
