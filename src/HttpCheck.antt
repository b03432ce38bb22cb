-- ===== src/HttpCheck.antt =====
-- pkg/hc/httpcheck.go: the options of a health check, the verdict on one response, and the worker.
-- The proofs are in the children.
pub mod Options
pub mod Probe
pub mod Streaks
pub mod Signals
use simult.Prelude.{
  ℕ, zero, suc, ◌-◌, ◌*◌, ◌/◌, ◌^◌, ◌<◌, Bool, true, false, ◌&&◌, ◌||◌, Option, none, some, List,
  [], ◌∷◌, leb, ◌==◌, if◌then◌else◌, differ, length, take, any, all, ℤ, inc, leb_ℤ, ltb_ℤ, Bytes,
  codes, ◌=ᵇ◌, pos, negsuc,
}

pub record HttpCheckOptions : Type 0 where
  pub path : Bytes
  pub header_host : Bytes
  pub interval : ℤ  -- nanoseconds
  pub timeout : ℤ
  pub fall_threshold : ℤ
  pub rise_threshold : ℤ
  pub resp_body : Option Bytes  -- `none` is nil
  pub user_agent : Bytes

abbrev pub second : ℕ
second = 10 ^ 9

-- The zero value, which `CopyFrom` takes for a nil source.
abbrev pub zero_options : HttpCheckOptions
zero_options = record {
  path = [];
  header_host = [];
  interval = pos 0;
  timeout = pos 0;
  fall_threshold = pos 0;
  rise_threshold = pos 0;
  resp_body = none;
  user_agent = [];
}

-- `if x <= 0 { x = d }`.
or_default : ℤ → ℕ → ℤ
or_default x d = if leb_ℤ x (pos 0) then pos d else x

-- "" becomes "/", and any other path gets its leading slash.
rooted : Bytes → Bytes
rooted [] = codes "/"
rooted (c ∷ s) = if c == b'/' then c ∷ s else b'/' ∷ c ∷ s

source_options : Option HttpCheckOptions → HttpCheckOptions
source_options none = zero_options
source_options (some s) = s

-- `CopyFrom`; the byte slice is copied, and here a value.
unfoldable pub copy_from : Option HttpCheckOptions → HttpCheckOptions
unfolding source_options or_default rooted
copy_from src = record (source_options src) {
  path = rooted (source_options src).path;
  interval = or_default (source_options src).interval (10 * second);
  timeout = or_default (source_options src).timeout (5 * second);
  fall_threshold = or_default (source_options src).fall_threshold 3;
  rise_threshold = or_default (source_options src).rise_threshold 2;
}

-- What `client.Do` and the body reader give: the bytes that arrive, and whether the stream then
-- fails in place of ending.
pub data Reply : Type 0 where
  failed : Reply
  response : (status : ℕ) (body : Bytes) (broken : Bool) → Reply

-- `ioutil.ReadAll(io.LimitReader(body, n))`; `none` is a read error, seen only within the limit.
read_limited : ℕ → Bytes → Bool → Option Bytes
read_limited n body broken =
    if leb n (length body) then some (take n body) else if broken then none else some body

-- `bytes.Equal` with what was read.
body_matches : Bytes → Option Bytes → Bool
body_matches want none = false
body_matches want (some got) = want =ᵇ got

-- `check` of the body, when a body is wanted at all.
check_body : Option Bytes → Bytes → Bool → Bool
unfolding read_limited body_matches
check_body none body broken = true
check_body (some want) body broken =
    body_matches want (read_limited (suc (length want)) body broken)

-- `check`: its first result (the worker ignores the error).
pub check : HttpCheckOptions → Reply → Bool
unfolding check_body
check o failed = false
check o (response status body broken) =
    if status == 200 then check_body o.resp_body body broken else false

-- `early` is a variable of the worker's loop, and `c` the buffered channel of capacity 1.
pub record HttpCheck : Type 0 where
  pub opts : HttpCheckOptions
  pub healthy : Bool
  pub last_check : Bool
  pub falls : ℕ
  pub rises : ℕ
  pub early : ℤ
  pub c : Option Bool
  pub closed : Bool

unfoldable pub new_http_check : HttpCheckOptions → HttpCheck
new_http_check o = record {
  opts = copy_from (some o);
  healthy = false;
  last_check = false;
  falls = 0;
  rises = 0;
  early = pos 0;
  c = none;
  closed = false;
}

-- `select { case h.c <- v: default: }`: a full channel drops the value.
abbrev pub send : Option Bool → Bool → Option Bool
send none v = some v
send (some u) v = some u

-- A change of outcome restarts both counts, and the outcome is counted.
count : HttpCheck → Bool → HttpCheck
count h ok =
    let changed = differ ok h.last_check in
    let falls = if changed then 0 else h.falls in
    let rises = if changed then 0 else h.rises in
    record h { falls = if ok then falls else suc falls; rises = if ok then suc rises else rises }

-- A new health status is stored and sent, and settles `early`.
announce : HttpCheck → Bool → HttpCheck
announce h b = record h { healthy = b; c = send h.c b; early = negsuc 0 }

-- Still unhealthy: `early` counts up to the fall threshold, where the status is sent at last.
wait_early : HttpCheck → HttpCheck
unfolding announce
wait_early h =
    let e = inc h.early in
    if ltb_ℤ h.early (pos 0)
    then h
    else if leb_ℤ h.opts.fall_threshold (pos 0) || leb_ℤ h.opts.fall_threshold e
    then record h { c = send h.c h.healthy; early = negsuc 0 }
    else record h { early = e }

-- The two branches on `h.healthy`.
judge : HttpCheck → HttpCheck
unfolding announce wait_early
judge h =
    if h.healthy
    then (if ltb_ℤ (pos 0) h.opts.fall_threshold && leb_ℤ h.opts.fall_threshold (pos h.falls)
        then announce h false
        else h)
    else if leb_ℤ h.opts.rise_threshold (pos h.rises)
    then announce h true
    else wait_early h

-- One round of the worker on the outcome of `check`.
unfoldable pub tick : HttpCheck → Bool → HttpCheck
unfolding count judge
tick h ok = record (judge (count h ok)) { last_check = ok }

-- The worker's rounds over a history, newest outcome first.
unfoldable pub after : HttpCheck → List Bool → HttpCheck
after h [] = h
after h (ok ∷ past) = tick (after h past) ok

-- `Check`: a receive from the channel takes the value out.
unfoldable pub receive : HttpCheck → Option Bool × HttpCheck
receive h = (h.c, record h { c = none })

-- `Close` waits for the worker, which closes the channel on its way out.
pub close : HttpCheck → HttpCheck
close h = record h { healthy = false; closed = true }
