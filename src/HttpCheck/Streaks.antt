-- ===== src/HttpCheck/Streaks.antt =====
-- The counters of the worker, and the health status that they decide.
use simult.Prelude.{
  ℕ, suc, ◌≡◌, refl, ◌∙◌, Bool, true, false, not, some, List, [], ◌∷◌, arith, leb, if◌then◌else◌, ℤ,
  leb_ℤ, ltb_ℤ, to_ℕ, IsPos, pos, negsuc,
}
use simult.HttpCheck.{
  HttpCheckOptions, HttpCheck, new_http_check, count, judge, tick, after, copy_from,
}
use simult.HttpCheck.Options.{copy_from_normalises}

-- How many of the newest outcomes are `b` in a row.
abbrev pub streak : Bool → List Bool → ℕ
streak b [] = 0
streak true (ok ∷ past) = if ok then suc (streak true past) else 0
streak false (ok ∷ past) = if ok then 0 else suc (streak false past)

-- The newest outcome, and failure before the first.
abbrev pub newest : List Bool → Bool
newest [] = false
newest (ok ∷ past) = ok

-- The status with hysteresis: it falls after `fall` failures in a row and rises after `rise`
-- successes in a row.
abbrev pub status : ℕ → ℕ → List Bool → Bool
status fall rise [] = false
status fall rise (ok ∷ past) =
    if status fall rise past
    then not (leb fall (streak false (ok ∷ past)))
    else leb rise (streak true (ok ∷ past))

-- The worker's fields after a history.
pub record Follows (h : HttpCheck) (o : HttpCheckOptions) (past : List Bool) : Type 0 where
  pub opts_same : h.opts ≡ o
  pub last_same : h.last_check ≡ newest past
  pub falls_same : h.falls ≡ streak false past
  pub rises_same : h.rises ≡ streak true past
  pub healthy_same : h.healthy ≡ status (to_ℕ o.fall_threshold) (to_ℕ o.rise_threshold) past

judge-opts : (h : HttpCheck) → (judge h).opts ≡ h.opts
unfolding judge
judge-opts h = ground arith

judge-counts : (h : HttpCheck) → ((judge h).falls ≡ h.falls) × ((judge h).rises ≡ h.rises)
unfolding judge
judge-counts h = ground arith

at_least : (t : ℤ) (n : ℕ) → IsPos t → (ltb_ℤ (pos 0) t ≡ true) × (leb_ℤ t (pos n) ≡ leb (to_ℕ t) n)
at_least (pos t) n h = ground arith
at_least (negsuc t) n h = absurd (omega arith)

judge-healthy :
    (h : HttpCheck)
    → IsPos h.opts.fall_threshold
    → IsPos h.opts.rise_threshold
    → (judge h).healthy ≡ (
        if h.healthy
        then not (leb (to_ℕ h.opts.fall_threshold) h.falls)
        else leb (to_ℕ h.opts.rise_threshold) h.rises)
unfolding judge
judge-healthy h fp rp =
    ground
      (arith, at_least h.opts.fall_threshold h.falls fp, at_least h.opts.rise_threshold h.rises rp)

count-keeps :
    (h : HttpCheck) (ok : Bool) → ((count h ok).opts ≡ h.opts) × ((count h ok).healthy ≡ h.healthy)
unfolding count
count-keeps h ok = (refl, refl)

-- The counters hold the lengths of the runs of equal outcomes.
count-streaks :
    (h : HttpCheck) (past : List Bool) (ok : Bool)
    → h.last_check ≡ newest past
    → h.falls ≡ streak false past
    → h.rises ≡ streak true past
    → ((count h ok).falls ≡ streak false (ok ∷ past))
      × ((count h ok).rises ≡ streak true (ok ∷ past))
unfolding count
count-streaks h [] true l f r = ground arith
count-streaks h [] false l f r = ground arith
count-streaks h (was ∷ past) true l f r = ground arith
count-streaks h (was ∷ past) false l f r = ground arith

module _ (o : HttpCheckOptions) (fall_pos : IsPos o.fall_threshold)
    (rise_pos : IsPos o.rise_threshold) where
  tick-Follows :
      (h : HttpCheck) (past : List Bool) (ok : Bool)
      → Follows h o past
      → Follows (tick h ok) o (ok ∷ past)
  unfolding tick
  tick-Follows h past ok f =
      let c = count-streaks h past ok f.last_same f.falls_same f.rises_same in
      let k = count-keeps h ok in
      let j = judge-counts (count h ok) in
      let op : (count h ok).opts ≡ o = k.0 ∙ f.opts_same in
      record {
        opts_same = judge-opts (count h ok) ∙ op;
        last_same = refl;
        falls_same = j.0 ∙ c.0;
        rises_same = j.1 ∙ c.1;
        healthy_same = cc (
          judge-healthy (count h ok) (rw op fall_pos) (rw op rise_pos),
          op,
          c.0,
          c.1,
          k.1,
          f.healthy_same,
        );
      }

  after-Follows_from :
      (h : HttpCheck) (past : List Bool) → Follows h o [] → Follows (after h past) o past
  unfolding after
  after-Follows_from h [] f = f
  after-Follows_from h (ok ∷ past) f =
      tick-Follows (after h past) past ok (after-Follows_from h past f)

-- After any history of check outcomes, a new worker counts exactly the newest failures and the
-- newest successes in a row, and is healthy exactly as the hysteresis with its two thresholds says.
pub after-Follows :
    (o : HttpCheckOptions) (past : List Bool)
    → Follows (after (new_http_check o) past) (copy_from (some o)) past
unfolding new_http_check
after-Follows o past =
    let n = (copy_from_normalises (some o)).0 in
    after-Follows_from _ n.fall_pos n.rise_pos _ past (record {
      opts_same = refl;
      last_same = refl;
      falls_same = refl;
      rises_same = refl;
      healthy_same = refl;
    })
