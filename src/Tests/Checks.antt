-- ===== src/Tests/Checks.antt =====
-- Health checks.
use simult.Prelude.{
  ℕ, ◌^◌, ◌≡◌, ◌↔◌, Bool, true, false, some, List, [], ◌∷◌, arith, is_some, codes, pos, negsuc,
}
use simult.HttpCheck.{HttpCheckOptions, copy_from, check, response, new_http_check, after, receive}
use simult.HttpCheck.Probe.{BodyFits, check_iff}
use simult.HttpCheck.Streaks.{Follows, after-Follows}
use simult.HttpCheck.Signals.{first_report}

-- A check of `health` every second that wants the body `OK`.
abbrev options : HttpCheckOptions
options = record {
  path = codes "health";
  header_host = [];
  interval = pos (10 ^ 9);
  timeout = pos 0;
  fall_threshold = pos 2;
  rise_threshold = negsuc 0;
  resp_body = some (codes "OK");
  user_agent = [];
}

-- Two failures behind three successes, the newest first.
abbrev past : List Bool
past = false ∷ false ∷ true ∷ true ∷ true ∷ []

check_iff_example :
    (check options (response 200 (codes "OK!") false) ≡ true)
    ↔ (◌≡◌ {A = ℕ} 200 200 × BodyFits options.resp_body (codes "OK!") false)
check_iff_example = check_iff options 200 (codes "OK!") false

after-Follows_example :
    Follows (after (new_http_check options) past) (copy_from (some options)) past
after-Follows_example = after-Follows options past

first_report_example : is_some (receive (after (new_http_check options) past)).0 ≡ true
unfolding copy_from
first_report_example = first_report options past (omega arith)
