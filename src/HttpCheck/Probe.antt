-- ===== src/HttpCheck/Probe.antt =====
-- When a response counts as a success.
use simult.Prelude.{
  ℕ, suc, ◌≤◌, ◌≡◌, refl, ◌↔◌, Bool, true, false, Option, none, some, [], ◌∷◌, arith, leb, length,
  take, Bytes, =ᵇ_iff,
}
use simult.HttpCheck.{HttpCheckOptions, response, check_body, check}

-- One byte more than wanted is enough to tell the whole body apart.
take-eq : (want body : Bytes) → want ≡ take (suc (length want)) body → want ≡ body
take-eq [] [] h = refl
take-eq [] (d ∷ body) h = cc
take-eq (c ∷ want) [] h = h
take-eq (c ∷ want) (d ∷ body) h = ground (arith, take-eq want body)

take-short : (want body : Bytes) → want ≡ take (suc (length want)) body → length body ≤ length want
take-short [] [] h = omega arith
take-short [] (d ∷ body) h = cc
take-short (c ∷ want) [] h = omega arith
take-short (c ∷ want) (d ∷ body) h = ground (arith, take-short want body)

take_back : (want : Bytes) → leb (suc (length want)) (length want) ≡ false
take_back want = ground arith

check_body_sound :
    (want body : Bytes) (broken : Bool)
    → check_body (some want) body broken ≡ true
    → (body ≡ want) × (broken ≡ false)
unfolding check_body
check_body_sound want body broken h = ground (
  arith,
  take-eq want body,
  take-short want body,
  =ᵇ_iff want (take (suc (length want)) body),
  =ᵇ_iff want body,
)

check_body_complete : (want : Bytes) → check_body (some want) want false ≡ true
unfolding check_body
check_body_complete want = ground (arith, =ᵇ_iff want want)

-- The body is what was wanted, to its end, where a body is wanted.
abbrev pub BodyFits : Option Bytes → Bytes → Bool → Type 0
BodyFits none body broken = Unit {0}
BodyFits (some want) body broken = (body ≡ want) × (broken ≡ false)

check_body-fits :
    (want : Option Bytes) (body : Bytes) (broken : Bool)
    → (check_body want body broken ≡ true) ↔ BodyFits want body broken
check_body-fits none body broken = (λ _. tt, λ _. unfold check_body in refl)
check_body-fits (some want) body broken =
    (check_body_sound want body broken, λ (e, f). rw (e, f) (check_body_complete want))

-- A response is a success exactly when its status is 200 and, where a body is wanted, the body is
-- exactly the wanted bytes and the stream ends there without an error.
pub check_iff :
    (o : HttpCheckOptions) (status : ℕ) (body : Bytes) (broken : Bool)
    → (check o (response status body broken) ≡ true)
      ↔ ((status ≡ 200) × BodyFits o.resp_body body broken)
unfolding check
check_iff o status body broken = (
  λ h. ground (arith, (check_body-fits o.resp_body body broken).0),
  λ (e, f). ground (arith, (check_body-fits o.resp_body body broken).1 f),
)
