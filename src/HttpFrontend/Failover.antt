-- ===== src/HttpFrontend/Failover.antt =====
-- pkg/lb/httpfrontend.go, `serveAsync` from the backends found on: the call of the backend, the
-- call of its backup, and the test of the client's buffer.
pub mod Pages
use simult.Prelude.{
  ◌-◌, ◌*◌, ◌/◌, Bool, true, false, not, Option, none, some, [], ◌∷◌, if◌then◌else◌, is_some, Bytes,
}
use simult.HttpBackend.Serve.{
  GoError, http_error, other, HttpErrGroup, restricted, protocol, Page, forbidden, HttpReqDesc,
  HttpBackend, World, serve, Served, Reply, panicked, served,
}

-- A backend with what the world does during the call of its `serve`.
pub record Party : Type 0 where
  pub backend : HttpBackend
  pub world : World

-- `panics` is the failing type assertion `err.(*httpError)`, or a panic of a backend's call.
pub data Answer : Type 0 where
  panics : Answer
  returns : Option GoError → HttpReqDesc → Answer

-- The test that no byte of another request is buffered.
buffer_test : Bool → HttpReqDesc → Answer
buffer_test buffered q = returns (if buffered then some (http_error protocol) else none) q

-- The request as the backup's call takes it.
pub hand_over : Bytes → HttpReqDesc → HttpReqDesc
hand_over name q = record q { be_final = true; be_name = name; be_server = []; be_conn = none }

-- The end of `serveAsync` behind its last call of a backend.
pub conclude : Bool → Option GoError → HttpReqDesc → Answer
unfolding buffer_test
conclude buffered none q = buffer_test buffered q
conclude buffered (some e) q = returns (some e) q

pub conclude_reply : Bool → Reply → Answer
unfolding conclude
conclude_reply buffered panicked = panics
conclude_reply buffered (served r) = conclude buffered r.err r.req

-- The backup's call and what follows it.
pub back_up : Party → Bool → HttpReqDesc → Answer
back_up p buffered q =
    conclude_reply buffered (serve p.backend p.world (hand_over p.backend.name q))

-- What `serveAsync` does with an error of the first backend.
pub on_error : Option Party → Bool → GoError → HttpReqDesc → Answer
on_error none buffered e q = returns (some e) q
on_error (some p) buffered e q = elim q.be_final [
  | true ↦ returns (some e) q
  | false ↦ elim e [ http_error g ↦ back_up p buffered q | other ↦ panics ]
]

-- The first backend has been called.
pub judge : Option Party → Bool → Option GoError → HttpReqDesc → Answer
unfolding buffer_test
judge bb buffered none q = buffer_test buffered q
judge bb buffered (some e) q = on_error bb buffered e q

pub judge_reply : Option Party → Bool → Reply → Answer
unfolding judge
judge_reply bb buffered panicked = panics
judge_reply bb buffered (served r) = judge bb buffered r.err r.req

-- `serveAsync` with what `findBackend` answered; `buffered` is `Buffered() != 0` at the end.
pub serve_async : Option Party → Option Party → Bool → HttpReqDesc → Answer
serve_async none bb buffered q =
    returns (some (http_error restricted)) (record q { pages = forbidden ∷ q.pages })
serve_async (some p) bb buffered q =
    let q' = record q { be_final = not (is_some bb); be_name = p.backend.name } in
    judge_reply bb buffered (serve p.backend p.world q')
