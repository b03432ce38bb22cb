-- ===== src/HttpFrontend/Connection.antt =====
-- pkg/lb/httpfrontend.go, `Serve`: the requests of one client connection. A turn of its loop is
-- what the world answers it; the read that a turn starts is over before the turn ends, but for the
-- turn that the context ends, which leaves it behind.
pub mod Inside
pub mod Bounds
use simult.Prelude.{
  ℕ, suc, ◌-◌, ◌/◌, Bool, true, false, ◌&&◌, ◌||◌, List, [], ◌∷◌, ◌==◌, if◌then◌else◌, ℤ, inc, dec,
  leb_ℤ, pos,
}
use simult.HttpBackend.Serve.{exceeds}

pub record HttpFrontendOptions : Type 0 where
  pub max_conn : ℤ
  pub max_idle_conn : ℤ
  pub max_keep_alive_reqs : ℤ

-- `requests` has the failure of the request's `serve` and the idle connections of the frontend
-- behind it; the read of the first byte ends in EOF, a timeout or another error, or the context
-- is done before.
pub data Turn : Type 0 where
  requests : Bool → ℤ → Turn
  ends times_out breaks waits_out : Turn

-- The frontend's counters and the variables of the loop.
pub record Connection : Type 0 where
  pub total_conn_count : ℤ
  pub waiting_conn_count : ℤ
  pub idle_conn_count : ℤ
  pub active_conn_count : ℤ
  pub req_idx : ℕ
  pub done : Bool
  pub served : ℕ  -- calls of `serve`
  pub pages : ℕ  -- pages sent by the loop
  pub reading : Bool  -- a read is left behind

-- The counts around the read of the first byte; the first request waits, the others are idle.
unfoldable pub opened : Bool → Connection → Connection
opened true c = record c { waiting_conn_count = inc c.waiting_conn_count }
opened false c = record c { idle_conn_count = inc c.idle_conn_count }

unfoldable pub shut : Bool → Connection → Connection
shut true c = record c { waiting_conn_count = dec c.waiting_conn_count }
shut false c = record c { idle_conn_count = dec c.idle_conn_count }

abbrev pub open_wait : Connection → Connection
open_wait c = opened (c.req_idx == 0) c

abbrev pub close_wait : Connection → Connection
close_wait c = shut (c.req_idx == 0) c

-- The limits that are tested behind a request.
unfoldable pub over_limits : HttpFrontendOptions → ℤ → ℕ → Bool
over_limits o idle idx =
    exceeds o.max_idle_conn idle
    || (leb_ℤ (pos 0) o.max_keep_alive_reqs && leb_ℤ o.max_keep_alive_reqs (pos idx))

unfoldable pub serve_request : HttpFrontendOptions → Bool → ℤ → Connection → Connection
serve_request o failed idle c =
    let c1 = record c { active_conn_count = inc c.active_conn_count } in
    let c2 = record c1 { served = suc c1.served; done = failed } in
    let c3 = record c2 { active_conn_count = dec c2.active_conn_count } in
    if over_limits o idle c3.req_idx then record c3 { done = true } else c3

-- The `select` of a turn.
unfoldable pub answer : HttpFrontendOptions → Turn → Connection → Connection
answer o (requests failed idle) c = serve_request o failed idle (close_wait c)
answer o ends c = record (close_wait c) { done = true }
answer o times_out c =
    let c' = close_wait c in
    record c' { done = true; pages = if c'.req_idx == 0 then suc c'.pages else c'.pages }
answer o breaks c = record (close_wait c) { done = true }
answer o waits_out c = record c { done = true; reading = true }

-- A turn of the loop.
unfoldable pub turn : HttpFrontendOptions → Turn → Connection → Connection
turn o t c =
    if c.done
    then c
    else let c' = answer o t (open_wait c) in record c' { req_idx = suc c'.req_idx }

unfoldable pub loop : HttpFrontendOptions → List Turn → Connection → Connection
loop o [] c = c
loop o (t ∷ ts) c = loop o ts (turn o t c)

-- `Serve`, on the turns that the world gives it; its return takes the connection off the total.
unfoldable pub serve : HttpFrontendOptions → List Turn → Connection → Connection
serve o ts c =
    if exceeds o.max_conn c.total_conn_count
    then record c { done = true }
    else let c' = loop o ts (record c { total_conn_count = inc c.total_conn_count }) in
      if c'.done then record c' { total_conn_count = dec c'.total_conn_count } else c'
