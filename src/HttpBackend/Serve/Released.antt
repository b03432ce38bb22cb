-- ===== src/HttpBackend/Serve/Released.antt =====
-- A backend's call gives back the connection that it takes.
use mathlib.Core.Path.{subst}
use simult.Prelude.{
  ℕ, ◌≡◌, refl, sym, ap, ◌∙◌, inl, inr, Bool, true, false, Option, none, some, ◌==◌, if◌then◌else◌,
  ==_iff, Bool-cases, is_some, if-cases, inc, dec, dec-inc,
}
use simult.BackendServer.{BackendServer, update, close_conn}
use simult.BackendServer.Active.{
  busier, conn_acquire-busier, conn_release-active, close_conn-active,
}
use simult.HttpBackend.Select.{Store, Pick, picked, panics}
use simult.HttpBackend.Serve.{
  HttpReqDesc, HttpBackend, Dial, connects, times_out, fails, World, Served, Reply, panicked,
  served, refuse, reset_conn, finish, refused_dial, connected, dials, serve_server, serve_picked,
  pick, uncount, serve, exceeds, exchange_error,
}

-- What `finish` leaves of the server before the release.
closing-active :
    (b : Bool) (s : BackendServer) (c : ℕ)
    → (if b then close_conn s c else s).active_conn_count ≡ s.active_conn_count
closing-active true s c = close_conn-active s c
closing-active false s c = refl

-- The active counts are those of `f`.
abbrev pub Steady : Store → Store → Type 0
Steady f g = (j : ℕ) → (g j).active_conn_count ≡ (f j).active_conn_count

update-Steady :
    (f : Store) (i : ℕ) (s : BackendServer)
    → s.active_conn_count ≡ (f i).active_conn_count
    → Steady f (update f i s)
update-Steady f i s e j = elim (Bool-cases (i == j)) [
  | inl y ↦ rw y (e ∙ ap (λ k. (f k).active_conn_count) ((==_iff i j).0 y))
  | inr n ↦ rw n refl
]

finish-Steady :
    (b : HttpBackend) (w : World) (i : ℕ) (s : BackendServer) (c : ℕ) (q : HttpReqDesc)
    → dec (w.meanwhile s).active_conn_count ≡ (w.servers i).active_conn_count
    → Steady w.servers (finish b w i s c q).servers
unfolding finish reset_conn
finish-Steady b w i s c q e =
    let failed = is_some (exchange_error w.exchange) in
    let s1 = w.meanwhile s in
    let s2 = reset_conn (if failed then close_conn s1 c else s1) c in
    let full = exceeds b.server_max_idle_conn s2.idle_conn_count in
    update-Steady w.servers i _ (
      conn_release-active (if full then close_conn s2 c else s2) c
      ∙ ap dec (closing-active full s2 c ∙ closing-active failed s1 c)
      ∙ e)

refused_dial-servers :
    (d : Dial) (b : HttpBackend) (f : Store) (q : HttpReqDesc) → (refused_dial d b f q).servers ≡ f
unfolding refused_dial refuse
refused_dial-servers times_out b f q = refl
refused_dial-servers connects b f q = refl
refused_dial-servers fails b f q = refl

connected-Steady :
    (b : HttpBackend) (w : World) (i : ℕ) (c : Option ℕ) (s : BackendServer) (q : HttpReqDesc)
    → ((t : BackendServer) → (w.meanwhile t).active_conn_count ≡ t.active_conn_count)
    → s.active_conn_count ≡ busier c (w.servers i).active_conn_count
    → Steady w.servers (connected b w i c s q).servers
unfolding connected
connected-Steady b w i none s q h e =
    subst (Steady w.servers)
      (sym (refused_dial-servers w.dial b (update w.servers i s) (record q { be_conn = none })))
      (update-Steady w.servers i s e)
connected-Steady b w i (some c) s q h e =
    finish-Steady b w i s c (record q { be_conn = some c; be_final = true })
      (ap dec (h s ∙ e) ∙ dec-inc (w.servers i).active_conn_count)

serve_server-Steady :
    (b : HttpBackend) (w : World) (i : ℕ) (q : HttpReqDesc)
    → ((t : BackendServer) → (w.meanwhile t).active_conn_count ≡ t.active_conn_count)
    → Steady w.servers (serve_server b w i q).servers
unfolding serve_server refuse
serve_server-Steady b w i q h =
    if-cases (λ (r : Served). Steady w.servers r.servers)
      (exceeds b.server_max_conn (w.servers i).active_conn_count) (λ _ j. refl)
      (λ _. connected-Steady b w i _ _ _ h (conn_acquire-busier (w.servers i) (dials w.dial)))

-- The servers that a reply leaves; a panic leaves them as they were.
abbrev pub servers_after : World → Reply → Store
servers_after w panicked = w.servers
servers_after w (served r) = r.servers

picked-Steady :
    (b : HttpBackend) (w : World) (q : HttpReqDesc) (p : Pick)
    → ((t : BackendServer) → (w.meanwhile t).active_conn_count ≡ t.active_conn_count)
    → Steady w.servers (servers_after w (uncount (serve_picked b w q p)))
unfolding uncount serve_picked refuse
picked-Steady b w q panics h = λ j. refl
picked-Steady b w q (picked none) h = λ j. refl
picked-Steady b w q (picked (some i)) h = serve_server-Steady b w i q h

-- If what others do to the server meanwhile leaves its active count, a call of `serve` leaves the
-- active counts of all servers, however the call ends.
pub serve-active :
    (b : HttpBackend) (w : World) (q : HttpReqDesc)
    → ((t : BackendServer) → (w.meanwhile t).active_conn_count ≡ t.active_conn_count)
    → (j : ℕ)
    → (servers_after w (serve b w q) j).active_conn_count ≡ (w.servers j).active_conn_count
unfolding serve refuse
serve-active b w q h =
    if-cases (λ (r : Reply). Steady w.servers (servers_after w r)) (exceeds b.max_conn b.conn_count)
      (λ _ j. refl)
      (λ _.
        let b' : HttpBackend = record b { conn_count = inc b.conn_count } in
        picked-Steady b' w q (pick b' w) h)
