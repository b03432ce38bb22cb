-- ===== src/HttpCookie/Valid.antt =====
-- What holds of every cookie that is read, and the fuel of the loop.
use simult.Prelude.{
  ℕ, zero, suc, ◌≤◌, ◌<◌, ◌≡◌, refl, ap, inl, inr, true, not, ◌&&◌, ◌||◌, Option, none, some, List,
  [], ◌∷◌, ◌++◌, arith, ◌==◌, Option-cases, if-cases, length, all, All, All-append, Bytes, ◌=ᵇ◌,
  cut_byte,
}
use simult.HttpCookie.{
  Cookie, is_cookie_name_valid, valid_cookie_value_byte, parse_cookie_value, filtered, cookie_of,
  trim_space, part_of, split_part, read_line, read_cookies,
}

-- A cookie with a valid name that the filter lets through and a value of valid bytes.
pub record Valid (filter : Bytes) (c : Cookie) : Type 0 where
  pub named : is_cookie_name_valid c.name ≡ true
  pub let_through : (filter =ᵇ [] || filter =ᵇ c.name) ≡ true
  pub valued : all valid_cookie_value_byte c.value ≡ true

parse_cookie_value-all :
    (raw v : Bytes) → parse_cookie_value raw ≡ some v → all valid_cookie_value_byte v ≡ true
unfolding parse_cookie_value
parse_cookie_value-all raw v h = ground arith

filtered-Valid : (filter name v : Bytes) → All (Valid filter) (filtered filter name v)
unfolding filtered
filtered-Valid filter name v =
    if-cases (All (Valid filter)) (not (is_cookie_name_valid name)) (λ _. tt)
      (λ e.
        if-cases (All (Valid filter)) (not (filter =ᵇ []) && not (filter =ᵇ name)) (λ _. tt)
          (λ f. elim (Option-cases (parse_cookie_value v)) [
            | inl n ↦ rw n tt
            | inr (x, p) ↦ rw p (
              record {
                named = ground arith;
                let_through = ground arith;
                valued = parse_cookie_value-all v x p;
              },
              tt,
            )
          ]))

cookie_of-Valid : (filter part : Bytes) → All (Valid filter) (cookie_of filter part)
unfolding cookie_of
cookie_of-Valid filter part =
    if-cases (All (Valid filter)) (trim_space part =ᵇ []) (λ _. tt) (λ _. filtered-Valid filter _ _)

read_line-Valid : (filter : Bytes) (n : ℕ) (s : Bytes) → All (Valid filter) (read_line filter n s)
unfolding read_line
read_line-Valid filter n [] = tt
read_line-Valid filter zero (c ∷ s) = tt
read_line-Valid filter (suc n) (c ∷ s) =
    All-append (Valid filter) _ _ (cookie_of-Valid filter _) (read_line-Valid filter n _)

-- Every cookie that is read, whatever the lines are, has a name that is a token and passes the
-- filter, and a value that has only bytes of a cookie value.
pub read_cookies-Valid :
    (lines : List Bytes) (filter : Bytes) → All (Valid filter) (read_cookies lines filter)
unfolding read_cookies
read_cookies-Valid [] filter = tt
read_cookies-Valid (line ∷ lines) filter =
    All-append (Valid filter) _ _ (read_line-Valid filter _ _) (read_cookies-Valid lines filter)

-- What is behind a separator is shorter.
abbrev Shorter : Bytes → Option (Bytes × Bytes) → Type 0
Shorter s none = Unit
Shorter s (some (l, r)) = length r < length s

cut_byte-Shorter : (b : ℕ) (s : Bytes) → Shorter s (cut_byte b s)
cut_byte-Shorter b [] = tt
cut_byte-Shorter b (c ∷ s) =
    if-cases (Shorter (c ∷ s)) (c == b) (λ _. omega arith)
      (λ _. longer (cut_byte b s) (cut_byte-Shorter b s))
  where
    longer :
        (o : Option (Bytes × Bytes))
        → Shorter s o
        → Shorter (c ∷ s) (elim o [ none ↦ none | some (l, r) ↦ some (c ∷ l, r) ])
    longer none h = tt
    longer (some (l, r)) h = omega arith

part_of-Shorter :
    (c : ℕ) (s : Bytes) (o : Option (Bytes × Bytes))
    → Shorter (c ∷ s) o
    → length (part_of (c ∷ s) o).1 ≤ length s
part_of-Shorter c s none h = omega arith
part_of-Shorter c s (some (l, r)) h = ground arith

split_part-shorter : (c : ℕ) (s : Bytes) → length (split_part (c ∷ s)).1 ≤ length s
unfolding split_part
split_part-shorter c s = part_of-Shorter c s (cut_byte b';' (c ∷ s)) (cut_byte-Shorter b';' (c ∷ s))

-- A line is read the same on any fuel that is at least its length.
pub read_line-enough :
    (filter : Bytes) (n m : ℕ) (s : Bytes)
    → length s ≤ n
    → length s ≤ m
    → read_line filter n s ≡ read_line filter m s
unfolding read_line
read_line-enough filter n m [] h k = refl
read_line-enough filter zero m (c ∷ s) h k = ground arith
read_line-enough filter (suc n) zero (c ∷ s) h k = ground arith
read_line-enough filter (suc n) (suc m) (c ∷ s) h k =
    let e = split_part-shorter c s in
    ap (λ cs. cookie_of filter (split_part (c ∷ s)).0 ++ cs)
      (read_line-enough filter n m (split_part (c ∷ s)).1 (omega arith) (omega arith))
