-- ===== src/HttpCheck/Signals.antt =====
-- The first report on the channel, which `Activate` of a backend waits for.
use simult.Prelude.{
  ℕ, suc, ◌≤◌, ◌<◌, ◌≡◌, refl, ap, ◌∙◌, ◌⊎◌, inl, inr, Bool, true, false, some, List, [], ◌∷◌,
  arith, is_some, length, ℤ, to_ℕ, IsPos, pos, negsuc,
}
use simult.HttpCheck.{
  HttpCheckOptions, HttpCheck, new_http_check, count, judge, tick, after, copy_from, receive,
}
use simult.HttpCheck.Options.{copy_from_normalises}
use simult.HttpCheck.Streaks.{after-Follows}

-- While nothing has been sent, `early` is the number of rounds, below the fall threshold.
abbrev Waits : ℕ → ℕ → HttpCheck → Type 0
Waits fall n h = (h.early ≡ pos n) × (n < fall) × (h.healthy ≡ false)

abbrev Reported : HttpCheck → Type 0
Reported h = (h.early ≡ negsuc 0) × (is_some h.c ≡ true)

judge-Reported : (h : HttpCheck) → Reported h → Reported (judge h)
unfolding judge
judge-Reported h r = ground arith

judge-Waits :
    (h : HttpCheck) (fall n : ℕ)
    → h.opts.fall_threshold ≡ pos fall
    → Waits fall n h
    → Waits fall (suc n) (judge h) ⊎ Reported (judge h)
unfolding judge
judge-Waits h fall n f w = ground arith

abbrev Stage : ℕ → ℕ → HttpCheck → Type 0
Stage fall n h = Waits fall n h ⊎ Reported h

tick-Stage :
    (h : HttpCheck) (fall n : ℕ) (ok : Bool)
    → h.opts.fall_threshold ≡ pos fall
    → Stage fall n h
    → Stage fall (suc n) (tick h ok)
unfolding tick count
tick-Stage h fall n ok f (inl w) = judge-Waits (count h ok) fall n f w
tick-Stage h fall n ok f (inr r) = inr (judge-Reported (count h ok) r)

pos-to_ℕ : (t : ℤ) → IsPos t → t ≡ pos (to_ℕ t)
pos-to_ℕ (pos n) h = refl
pos-to_ℕ (negsuc n) h = absurd (omega arith)

module _ (o : HttpCheckOptions) where
  abbrev worker : List Bool → HttpCheck
  worker = after (new_http_check o)

  abbrev fall_limit : ℕ
  fall_limit = to_ℕ (copy_from (some o)).fall_threshold

  worker-fall : (past : List Bool) → (worker past).opts.fall_threshold ≡ pos fall_limit
  worker-fall past =
      ap (λ (p : HttpCheckOptions). p.fall_threshold) (after-Follows o past).opts_same
      ∙ pos-to_ℕ _ (copy_from_normalises (some o)).0.fall_pos

  worker-Stage : (past : List Bool) → Stage fall_limit (length past) (worker past)
  unfolding after new_http_check
  worker-Stage [] = inl (refl, (copy_from_normalises (some o)).0.fall_pos, refl)
  worker-Stage (ok ∷ past) =
      tick-Stage (worker past) fall_limit (length past) ok (worker-fall past) (worker-Stage past)

  -- After as many checks as the fall threshold, whatever their outcomes, the worker has reported a
  -- status on its channel, so a receiver that waits for the first report is served.
  pub first_report :
      (past : List Bool)
      → to_ℕ (copy_from (some o)).fall_threshold ≤ length past
      → is_some (receive (after (new_http_check o) past)).0 ≡ true
  unfolding receive
  first_report past h = elim (worker-Stage past) [
    | inl w ↦ absurd (omega (arith, w.1))
    | inr r ↦ r.1
  ]
