-- ===== src/HttpBackend/Serve/Outcomes.antt =====
-- Every way in which a backend's call ends.
use simult.Prelude.{
  ℕ, ◌≡◌, refl, sym, ap, ◌∙◌, ◌⊎◌, inl, inr, true, false, Option, none, some, List, [], ◌∷◌, arith,
  if◌then◌else◌, is_some, if-cases, inc, dec, dec-inc, ◌=ᵇ◌,
}
use simult.BackendServer.{BackendServer, update}
use simult.HttpBackend.Select.{
  HttpBackendMode, round_robin, least_conn, affinity_key, Node, Store, Pick, picked, panics,
  first_node, find_server,
}
use simult.HttpBackend.Serve.{
  HttpErrGroup, GoError, http_error, backend_exhausted, backend_find, Page, override,
  service_unavailable, HttpReqDesc, HttpBackend, Dial, connects, times_out, fails, World, Served,
  Reply, panicked, served, respond, refuse, finish, refused_dial, connected, serve_server,
  serve_picked, pick, uncount, serve, exceeds,
}

-- The error is a `*httpError`.
abbrev pub IsHttp : Option GoError → Type 0
IsHttp e = (g : HttpErrGroup) × (e ≡ some (http_error g))

-- Before a connection is there: an HTTP error, and one page for the client if the backend is final.
pub record Refused (q : HttpReqDesc) (r : Served) : Type 0 where
  pub http : IsHttp r.err
  pub final_same : r.req.be_final ≡ q.be_final
  pub no_conn : (r.req.be_conn ≡ none) ⊎ (r.req.be_conn ≡ q.be_conn)
  pub open_same : r.req.fe_closed ≡ q.fe_closed
  pub answered : (p : Page) × (r.req.pages ≡ (if q.be_final then p ∷ q.pages else q.pages))

-- With a connection: the call is final and sends no page of its own.
pub record Connected (q : HttpReqDesc) (r : Served) : Type 0 where
  pub final : r.req.be_final ≡ true
  pub conn : is_some r.req.be_conn ≡ true
  pub pages_same : r.req.pages ≡ q.pages
  pub closed_on_error : r.req.fe_closed ≡ (if is_some r.err then true else q.fe_closed)

abbrev pub Outcome : HttpReqDesc → Served → Type 0
Outcome q r = Refused q r ⊎ Connected q r

respond-pages :
    (b : HttpBackend) (p : Page) (q : HttpReqDesc)
    → (p' : Page) × ((respond b p q).pages ≡ (if q.be_final then p' ∷ q.pages else q.pages))
unfolding respond
respond-pages b p q =
    ((if b.override_errors =ᵇ [] then p else override b.override_errors), ground arith)

respond-final :
    (b : HttpBackend) (p : Page) (q : HttpReqDesc) → (respond b p q).be_final ≡ q.be_final
unfolding respond
respond-final b p q = ground arith

respond-conn : (b : HttpBackend) (p : Page) (q : HttpReqDesc) → (respond b p q).be_conn ≡ q.be_conn
unfolding respond
respond-conn b p q = ground arith

respond-open :
    (b : HttpBackend) (p : Page) (q : HttpReqDesc) → (respond b p q).fe_closed ≡ q.fe_closed
unfolding respond
respond-open b p q = ground arith

refuse-Refused :
    (b : HttpBackend) (s : Store) (q : HttpReqDesc) (g : HttpErrGroup) (p : Page)
    → Refused q (refuse b s q g p)
unfolding refuse
refuse-Refused b s q g p = record {
  http = (g, refl);
  final_same = respond-final b p q;
  no_conn = inr (respond-conn b p q);
  open_same = respond-open b p q;
  answered = respond-pages b p q;
}

finish-Connected :
    (b : HttpBackend) (w : World) (i : ℕ) (s : BackendServer) (c : ℕ) (q : HttpReqDesc)
    → Connected q (finish b w i s c (record q { be_conn = some c; be_final = true }))
unfolding finish
finish-Connected b w i s c q = record {
  final = ground arith;
  conn = ground arith;
  pages_same = ground arith;
  closed_on_error = ground arith;
}

refused_dial-Refused :
    (d : Dial) (b : HttpBackend) (s : Store) (q : HttpReqDesc) → Refused q (refused_dial d b s q)
unfolding refused_dial
refused_dial-Refused times_out b s q = refuse-Refused b s q _ _
refused_dial-Refused connects b s q = refuse-Refused b s q _ _
refused_dial-Refused fails b s q = refuse-Refused b s q _ _

connected-Outcome :
    (b : HttpBackend) (w : World) (i : ℕ) (c : Option ℕ) (s : BackendServer) (q : HttpReqDesc)
    → Outcome q (connected b w i c s q)
unfolding connected
connected-Outcome b w i none s q = inl (record {
  http = r.http;
  final_same = r.final_same;
  no_conn = inl (gone r.no_conn);
  open_same = r.open_same;
  answered = r.answered;
})
  where
    r :
        Refused
          (record q { be_conn = none })
          (refused_dial w.dial b (update w.servers i s) (record q { be_conn = none }))
    r = refused_dial-Refused w.dial b (update w.servers i s) (record q { be_conn = none })

    gone : {c : Option ℕ} → (c ≡ none) ⊎ (c ≡ none) → c ≡ none
    gone (inl e) = e
    gone (inr e) = e
connected-Outcome b w i (some c) s q = inr (finish-Connected b w i s c q)

serve_server-Outcome :
    (b : HttpBackend) (w : World) (i : ℕ) (q : HttpReqDesc) → Outcome q (serve_server b w i q)
unfolding serve_server
serve_server-Outcome b w i q =
    if-cases (λ r. Outcome q r) (exceeds b.server_max_conn (w.servers i).active_conn_count)
      (λ _. same (inl (refuse-Refused b w.servers _ _ _)))
      (λ _. same (connected-Outcome b w i _ _ _))
  where
    q' : HttpReqDesc
    q' = record q { be_server = (w.servers i).server }

    same : {r : Served} → Outcome q' r → Outcome q r
    same (inl r) = inl (record {
      http = r.http;
      final_same = r.final_same;
      no_conn = r.no_conn;
      open_same = r.open_same;
      answered = r.answered;
    })
    same (inr r) = inr (record {
      final = r.final;
      conn = r.conn;
      pages_same = r.pages_same;
      closed_on_error = r.closed_on_error;
    })

recount :
    {q : HttpReqDesc} {r : Served} {b : HttpBackend}
    → Outcome q r
    → Outcome q (record r { backend = b })
recount (inl r) = inl (record {
  http = r.http;
  final_same = r.final_same;
  no_conn = r.no_conn;
  open_same = r.open_same;
  answered = r.answered;
})
recount (inr r) = inr (record {
  final = r.final;
  conn = r.conn;
  pages_same = r.pages_same;
  closed_on_error = r.closed_on_error;
})

connected-backend :
    (b : HttpBackend) (w : World) (i : ℕ) (c : Option ℕ) (s : BackendServer) (q : HttpReqDesc)
    → (connected b w i c s q).backend ≡ b
unfolding connected finish refused_dial refuse
connected-backend b w i (some c) s q = refl
connected-backend b w i none s q = dial_backend w.dial
  where
    dial_backend :
        (d : Dial)
        → (refused_dial d b (update w.servers i s) (record q { be_conn = none })).backend ≡ b
    dial_backend connects = refl
    dial_backend times_out = refl
    dial_backend fails = refl

serve_server-backend :
    (b : HttpBackend) (w : World) (i : ℕ) (q : HttpReqDesc) → (serve_server b w i q).backend ≡ b
unfolding serve_server refuse
serve_server-backend b w i q =
    if-cases (λ (r : Served). r.backend ≡ b)
      (exceeds b.server_max_conn (w.servers i).active_conn_count) (λ _. refl)
      (λ _. connected-backend b w i _ _ _)

-- `findServer` panics: in the mode roundrobin the library answers no node.
pub record Unstocked (b : HttpBackend) (w : World) : Type 0 where
  pub round : b.mode ≡ round_robin
  pub no_node : w.wrh.responsible_nodes2 w.nodes w.bval 1 ≡ []

pick-panics : (b : HttpBackend) (w : World) → pick b w ≡ panics → Unstocked b w
unfolding pick find_server first_node
pick-panics b w h = go b.mode refl (w.wrh.responsible_nodes2 w.nodes w.bval 1) refl h
  where
    go :
        (m : HttpBackendMode)
        → b.mode ≡ m
        → (ns : List Node) → w.wrh.responsible_nodes2 w.nodes w.bval 1 ≡ ns
        → find_server w.wrh w.servers b.affinity_key w.nodes w.client w.bval m ≡ panics
        → Unstocked b w
    go round_robin e [] f h = record { round = e; no_node = f }
    go round_robin e (n ∷ ns) f h =
        let x : first_node (n ∷ ns) ≡ panics = ap first_node (sym f) ∙ h in cc
    go least_conn e ns f h = cc
    go affinity_key e ns f h = cc

-- What a reply says of the call.
abbrev pub Replied : HttpBackend → World → HttpReqDesc → Reply → Type 0
Replied b w q panicked = Unstocked b w × (exceeds b.max_conn b.conn_count ≡ false)
Replied b w q (served r) = Outcome q r × (r.backend ≡ b)

picked-Replied :
    (b : HttpBackend) (w : World) (q : HttpReqDesc) (p : Pick)
    → exceeds b.max_conn b.conn_count ≡ false
    → pick (record b { conn_count = inc b.conn_count }) w ≡ p
    → Replied b w q (uncount (serve_picked (record b { conn_count = inc b.conn_count }) w q p))
unfolding uncount serve_picked refuse
picked-Replied b w q panics n e =
    let u = pick-panics (record b { conn_count = inc b.conn_count }) w e in
    (record { round = u.round; no_node = u.no_node }, n)
picked-Replied b w q (picked none) n e = (
  recount (
      inl (
        refuse-Refused (record b { conn_count = inc b.conn_count }) w.servers q backend_find
          service_unavailable)),
  ap (λ n. record b { conn_count = n }) (dec-inc b.conn_count),
)
picked-Replied b w q (picked (some i)) n e =
    let b' : HttpBackend = record b { conn_count = inc b.conn_count } in
    (
      recount (serve_server-Outcome b' w i q),
      ap (λ (x : HttpBackend). record x { conn_count = dec x.conn_count })
            (serve_server-backend b' w i q)
          ∙ ap (λ n. record b { conn_count = n }) (dec-inc b.conn_count),
    )

-- A call of `serve` panics only where the limit of connections is not reached, the mode is roundrobin
-- and the library answers no node, or it returns, and leaves the count of connections that it found.
-- It then either fails before it has a connection: with an HTTP error, with exactly one page for the
-- client when the backend is final and none when it is not, with finality and the client's connection
-- as they were, and with no connection to a backend or the one it had before. Or it has a connection,
-- is final, sends no page of its own, and closes the client's connection if it returns an error, and
-- else leaves it as it was.
pub serve_outcomes : (b : HttpBackend) (w : World) (q : HttpReqDesc) → Replied b w q (serve b w q)
unfolding serve
serve_outcomes b w q =
    if-cases (λ r. Replied b w q r) (exceeds b.max_conn b.conn_count)
      (λ _. (inl (refuse-Refused b w.servers q backend_exhausted service_unavailable), refl))
      (λ n. picked-Replied b w q _ n refl)
