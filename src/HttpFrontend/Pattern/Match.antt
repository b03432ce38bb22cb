-- ===== src/HttpFrontend/Pattern/Match.antt =====
-- What an expression matches, as a relation.
use simult.Prelude.{ℕ, ◌≡◌, refl, ◌≢◌, ◌↔◌, inl, inr, true, List, [], ◌∷◌, arith, Bool-cases, All}
use simult.HttpFrontend.Pattern.{Atom, lit, dot, dot_star, match_runes}

abbrev pub NoNewline : List ℕ → Type 0
NoNewline = All (λ c. c ≢ b'\n')

-- On code points: `*` stands for any of them on one line, and `?` for one that is no newline.
pub data Denotes : List Atom → List ℕ → Type 0 where
  end : Denotes [] []
  one : {c : ℕ} {rgx : List Atom} {s : List ℕ} → Denotes rgx s → Denotes (lit c ∷ rgx) (c ∷ s)
  some_rune :
      {d : ℕ} {rgx : List Atom} {s : List ℕ}
      → d ≢ b'\n'
      → Denotes rgx s
      → Denotes (dot ∷ rgx) (d ∷ s)
  none_left : {rgx : List Atom} {s : List ℕ} → Denotes rgx s → Denotes (dot_star ∷ rgx) s
  one_more :
      {d : ℕ} {rgx : List Atom} {s : List ℕ}
      → d ≢ b'\n'
      → Denotes (dot_star ∷ rgx) s
      → Denotes (dot_star ∷ rgx) (d ∷ s)

match_sound : (rgx : List Atom) (s : List ℕ) → match_runes rgx s ≡ true → Denotes rgx s
unfolding match_runes
match_sound [] [] h = end
match_sound [] (d ∷ s) h = absurd (cc)
match_sound (lit c ∷ rgx) [] h = absurd (cc)
match_sound (lit c ∷ rgx) (d ∷ s) h =
    let e : d ≡ c = ground arith in rw e (one (match_sound rgx s (ground arith)))
match_sound (dot ∷ rgx) [] h = absurd (cc)
match_sound (dot ∷ rgx) (d ∷ s) h = some_rune (ground arith) (match_sound rgx s (ground arith))
match_sound (dot_star ∷ rgx) [] h = none_left (match_sound rgx [] h)
match_sound (dot_star ∷ rgx) (d ∷ s) h = elim (Bool-cases (match_runes rgx (d ∷ s))) [
  | inl e ↦ none_left (match_sound rgx (d ∷ s) e)
  | inr e ↦ one_more (ground (arith, e)) (match_sound (dot_star ∷ rgx) s (ground (arith, e)))
]

star_end :
    (rgx : List Atom) (s : List ℕ)
    → match_runes rgx s ≡ true
    → match_runes (dot_star ∷ rgx) s ≡ true
unfolding match_runes
star_end rgx [] h = h
star_end rgx (d ∷ s) h = ground (arith, h)

match_complete : {rgx : List Atom} {s : List ℕ} → Denotes rgx s → match_runes rgx s ≡ true
unfolding match_runes
match_complete end = refl
match_complete (one p) = ground (arith, match_complete p)
match_complete (some_rune n p) = ground (arith, match_complete p)
match_complete (none_left {rgx = rgx} {s = s} p) = star_end rgx s (match_complete p)
match_complete (one_more n p) = ground (arith, match_complete p)

-- The matcher answers true exactly on the texts that the expression denotes.
pub match_runes_iff : (rgx : List Atom) (s : List ℕ) → (match_runes rgx s ≡ true) ↔ Denotes rgx s
match_runes_iff rgx s = (match_sound rgx s, match_complete)
