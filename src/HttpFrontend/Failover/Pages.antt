-- ===== src/HttpFrontend/Failover/Pages.antt =====
-- What the client is sent when a backend fails and its backup takes over.
use simult.Prelude.{
  ◌≡◌, refl, ap, ◌∙◌, ◌≢◌, ◌⊎◌, inl, inr, Bool, true, false, not, Option, none, some, List, [], ◌∷◌,
  arith, is_some, Bytes,
}
use simult.HttpBackend.Select.{Node, round_robin}
use simult.HttpBackend.Serve.{
  serve, Reply, panicked, served, GoError, http_error, HttpErrGroup, Page, HttpReqDesc, Served,
}
use simult.HttpBackend.Serve.Outcomes.{Outcome, Replied, serve_outcomes}
use simult.HttpFrontend.Failover.{
  Party, conclude_reply, judge_reply, Answer, returns, hand_over, conclude, back_up, on_error,
  judge, serve_async,
}

-- A page and no connection to a backend, or a connection and no page.
abbrev pub PageOrConn : HttpReqDesc → HttpReqDesc → Type 0
PageOrConn q q' =
    ((p : Page) × (q'.pages ≡ p ∷ q.pages) × (q'.be_conn ≡ none))
    ⊎ ((q'.pages ≡ q.pages) × (is_some q'.be_conn ≡ true))

abbrev pub Settled : HttpReqDesc → Answer → Type 0
Settled q a = (e : Option GoError) × (q' : HttpReqDesc) × (a ≡ returns e q') × PageOrConn q q'

-- The party's call does not panic: a backend in the mode roundrobin has nodes, and the library answers
-- one of them.
pub record Stocked (p : Party) : Type 0 where
  pub nodes : p.backend.mode ≡ round_robin → p.world.nodes ≢ []
  pub answers :
      (ns : List Node) (key : Bytes) → ns ≢ [] → p.world.wrh.responsible_nodes2 ns key 1 ≢ []

abbrev pub AllStocked : Option Party → Type 0
AllStocked none = Unit {0}
AllStocked (some p) = Stocked p

-- Without a panic, a call of the party's backend has an outcome.
Called : Party → HttpReqDesc → Reply → Type 0
Called p q panicked = ⊥
Called p q (served r) = Outcome q r

call-Called : (p : Party) (q : HttpReqDesc) → Stocked p → Called p q (serve p.backend p.world q)
unfolding Called
call-Called p q t = go (serve p.backend p.world q) (serve_outcomes p.backend p.world q)
  where
    go : (r : Reply) → Replied p.backend p.world q r → Called p q r
    go panicked (u, n) = t.answers p.world.nodes p.world.bval (t.nodes u.round) u.no_node
    go (served r) (o, e) = o

-- The final call's outcome as a page or a connection.
final-PageOrConn :
    (q q0 : HttpReqDesc) (r : Served)
    → q0.be_final ≡ true
    → q0.be_conn ≡ none
    → q0.pages ≡ q.pages
    → Outcome q0 r
    → PageOrConn q r.req
final-PageOrConn q q0 r f c e (inl o) =
    let (p, a) = o.answered in inl (p, a ∙ rw f (ap (◌∷◌ p) e), no_conn o.no_conn)
  where
    no_conn : (r.req.be_conn ≡ none) ⊎ (r.req.be_conn ≡ q0.be_conn) → r.req.be_conn ≡ none
    no_conn (inl x) = x
    no_conn (inr x) = x ∙ c
final-PageOrConn q q0 r f c e (inr o) = inr (o.pages_same ∙ e, o.conn)

conclude-Settled :
    (q q' : HttpReqDesc) (buffered : Bool) (e : Option GoError)
    → PageOrConn q q'
    → Settled q (conclude buffered e q')
unfolding conclude
conclude-Settled q q' buffered none o = (_, _, refl, o)
conclude-Settled q q' buffered (some e) o = (_, _, refl, o)

back_up-Settled :
    (p : Party) (buffered : Bool) (q q1 : HttpReqDesc)
    → Stocked p
    → q1.pages ≡ q.pages
    → Settled q (back_up p buffered q1)
unfolding back_up hand_over Called conclude_reply
back_up-Settled p buffered q q1 t e = go (serve p.backend p.world q2) (call-Called p q2 t)
  where
    q2 : HttpReqDesc
    q2 = hand_over p.backend.name q1

    go : (r : Reply) → Called p q2 r → Settled q (conclude_reply buffered r)
    go panicked o = absurd o
    go (served r) o =
        conclude-Settled q r.req buffered r.err (final-PageOrConn q q2 r refl refl e o)

on_error-final :
    (p : Party) (buffered : Bool) (e : GoError) (q : HttpReqDesc)
    → q.be_final ≡ true
    → on_error (some p) buffered e q ≡ returns (some e) q
unfolding on_error
on_error-final p buffered e q f = ground arith

on_error-backup :
    (p : Party) (buffered : Bool) (g : HttpErrGroup) (q : HttpReqDesc)
    → q.be_final ≡ false
    → on_error (some p) buffered (http_error g) q ≡ back_up p buffered q
unfolding on_error
on_error-backup p buffered g q f = ground arith

judge-alone :
    (q q' : HttpReqDesc) (buffered : Bool) (e : Option GoError)
    → PageOrConn q q'
    → Settled q (judge none buffered e q')
unfolding judge on_error
judge-alone q q' buffered none o = (_, _, refl, o)
judge-alone q q' buffered (some e) o = (_, _, refl, o)

-- The first backend was final.
judge-Final :
    (q q' : HttpReqDesc) (bb : Option Party) (buffered : Bool) (e : Option GoError)
    → q'.be_final ≡ true
    → PageOrConn q q'
    → Settled q (judge bb buffered e q')
unfolding judge
judge-Final q q' bb buffered none f o = (_, _, refl, o)
judge-Final q q' none buffered (some e) f o = judge-alone q q' buffered (some e) o
judge-Final q q' (some p) buffered (some e) f o = (_, _, on_error-final p buffered e q' f, o)

-- A backup takes over from a backend that had no connection.
judge-Refused :
    (q q' : HttpReqDesc) (p : Party) (buffered : Bool) (e : Option GoError) (g : HttpErrGroup)
    → Stocked p
    → e ≡ some (http_error g)
    → q'.be_final ≡ false
    → q'.pages ≡ q.pages
    → Settled q (judge (some p) buffered e q')
unfolding judge
judge-Refused q q' p buffered e g t h f s =
    rw (h, on_error-backup p buffered g q' f) (back_up-Settled p buffered q q' t s)

with_backup :
    (q q0 : HttpReqDesc) (p : Party) (buffered : Bool) (r : Served)
    → Stocked p
    → q0.be_final ≡ false
    → q0.pages ≡ q.pages
    → Outcome q0 r
    → Settled q (judge (some p) buffered r.err r.req)
with_backup q q0 p buffered r t f e (inl o) =
    let (g, h) = o.http in
    judge-Refused q _ p buffered r.err g t h (o.final_same ∙ f) (o.answered.1 ∙ rw f e)
with_backup q q0 p buffered r t f e (inr o) =
    judge-Final q _ (some p) buffered r.err o.final (inr (o.pages_same ∙ e, o.conn))

-- What follows the first backend's call.
judge-Settled :
    (q q0 : HttpReqDesc) (bb : Option Party) (buffered : Bool) (r : Served)
    → AllStocked bb
    → q0.be_final ≡ not (is_some bb)
    → q0.be_conn ≡ none
    → q0.pages ≡ q.pages
    → Outcome q0 r
    → Settled q (judge bb buffered r.err r.req)
judge-Settled q q0 none buffered r t f c e o =
    judge-alone q r.req buffered r.err (final-PageOrConn q q0 r f c e o)
judge-Settled q q0 (some p) buffered r t f c e o = with_backup q q0 p buffered r t f e o

-- When the request comes without a connection to a backend and no backend's call panics for want of a
-- node, the call returns without a panic, with or without a backup: either the client was sent
-- exactly one page and the request has no connection to a backend, or it was sent none and has one.
pub one_page :
    (b bb : Option Party) (buffered : Bool) (q : HttpReqDesc)
    → AllStocked b
    → AllStocked bb
    → q.be_conn ≡ none
    → Settled q (serve_async b bb buffered q)
unfolding serve_async judge_reply Called
one_page none bb buffered q t u c = (_, _, refl, inl (_, refl, c))
one_page (some p) bb buffered q t u c = go (serve p.backend p.world q0) (call-Called p q0 t)
  where
    q0 : HttpReqDesc
    q0 = record q { be_final = not (is_some bb); be_name = p.backend.name }

    go : (r : Reply) → Called p q0 r → Settled q (judge_reply bb buffered r)
    go panicked o = absurd o
    go (served r) o = judge-Settled q q0 bb buffered r u refl c refl o
