-- ===== src/HttpBackend/Serve.antt =====
-- pkg/lb/httpbackend.go, `serve`: the limits, the server that `findServer` chooses, the connection to
-- it, and what the client is sent on errors. The rewriting of the headers stands in `Forward`; the
-- metrics are left out.
pub mod Outcomes
pub mod Released
use simult.Prelude.{
  ℕ, ◌-◌, ◌*◌, ◌/◌, Bool, true, false, not, ◌&&◌, Option, none, some, List, [], ◌∷◌, if◌then◌else◌,
  is_some, any, all, ℤ, inc, dec, leb_ℤ, ltb_ℤ, Bytes, ◌=ᵇ◌, ◌>>=◌, ◌>>◌, pos,
}
use simult.BufConn
use simult.BackendServer.{BackendServer, update, conn_acquire, conn_release, close_conn}
use simult.HttpBackend.Select.{
  HttpBackendMode, AffinityKey, Node, Store, Client, Wrh, Pick, picked, panics, find_server,
}

pub data HttpErrGroup : Type 0 where
  protocol communication restricted request_timeout frontend_timeout frontend_exhausted :
      HttpErrGroup
  backend_timeout backend_exhausted backend_find backend_server_exhausted : HttpErrGroup
  backend_connect backend_connect_timeout : HttpErrGroup

-- A `*httpError` with its group, or another error.
pub data GoError : Type 0 where
  http_error : HttpErrGroup → GoError
  other : GoError

-- The texts of httpcommon.go that are sent in place of a response; `override` is `OverrideErrors`.
pub data Page : Type 0 where
  bad_request forbidden timed_out bad_gateway service_unavailable gateway_timeout : Page
  version_not_supported : Page
  override : Bytes → Page

pub record HttpReqDesc : Type 0 where
  pub be_final : Bool
  pub be_name : Bytes
  pub be_server : Bytes
  pub be_conn : Option ℕ
  pub pages : List Page  -- sent to the client, the newest first
  pub fe_closed : Bool

pub record HttpBackend : Type 0 where
  pub name : Bytes
  pub max_conn : ℤ
  pub server_max_conn : ℤ
  pub server_max_idle_conn : ℤ
  pub override_errors : Bytes
  pub mode : HttpBackendMode
  pub affinity_key : AffinityKey
  pub conn_count : ℤ

-- What the network answers a dial.
pub data Dial : Type 0 where
  connects times_out fails : Dial

-- How the exchange of the request and the response ends, or that its timeout comes first.
pub data Exchange : Type 0 where
  ends : Option GoError → Exchange
  expires : Exchange

-- What a call meets: what `findServer` reads, with the random bytes that it draws, all servers, the
-- dial, the exchange, and what others and the traffic do to the server meanwhile.
pub record World : Type 0 where
  pub wrh : Wrh
  pub nodes : List Node
  pub client : Client
  pub bval : Bytes
  pub servers : Store
  pub dial : Dial
  pub exchange : Exchange
  pub meanwhile : BackendServer → BackendServer

-- A page goes to the client, or to the `nopWriter` of a backend that is not final.
pub respond : HttpBackend → Page → HttpReqDesc → HttpReqDesc
respond b page q =
    let p = if b.override_errors =ᵇ [] then page else override b.override_errors in
    if q.be_final then record q { pages = p ∷ q.pages } else q

-- `x > 0 && count >= x`.
abbrev pub exceeds : ℤ → ℤ → Bool
exceeds limit count = ltb_ℤ (pos 0) limit && leb_ℤ limit count

pub record Served : Type 0 where
  pub err : Option GoError
  pub backend : HttpBackend
  pub servers : Store
  pub req : HttpReqDesc

-- `panicked` is the index out of range of `findServer`.
pub data Reply : Type 0 where
  panicked : Reply
  served : Served → Reply

refuse : HttpBackend → Store → HttpReqDesc → HttpErrGroup → Page → Served
refuse b servers q g page = record {
  err = some (http_error g);
  backend = b;
  servers = servers;
  req = respond b page q;
}

exchange_error : Exchange → Option GoError
exchange_error (ends e) = e
exchange_error expires = some (http_error backend_timeout)

-- `reqDesc.beConn.Stats()`, which resets the counters that `ConnRelease` tests.
reset_conn : BackendServer → ℕ → BackendServer
reset_conn s c = record s { conns = update s.conns c (BufConn.stats (s.conns c)).1 }

-- Both connections are closed on an error; the counters of the backend's are reset, and it is then
-- released in any case, and closed before if the server has its number of idle connections.
finish : HttpBackend → World → ℕ → BackendServer → ℕ → HttpReqDesc → Served
unfolding exchange_error reset_conn
finish b w i s c q =
    let err = exchange_error w.exchange in
    let s1 = w.meanwhile s in
    let s2 = reset_conn (if is_some err then close_conn s1 c else s1) c in
    let s3 = if exceeds b.server_max_idle_conn s2.idle_conn_count then close_conn s2 c else s2 in
    record {
      err = err;
      backend = b;
      servers = update w.servers i (conn_release s3 (some c));
      req = if is_some err then record q { fe_closed = true } else q;
    }

dials : Dial → Bool
dials connects = true
dials times_out = false
dials fails = false

refused_dial : Dial → HttpBackend → Store → HttpReqDesc → Served
unfolding refuse
refused_dial times_out b servers q = refuse b servers q backend_connect_timeout gateway_timeout
refused_dial _ b servers q = refuse b servers q backend_connect bad_gateway

connected : HttpBackend → World → ℕ → Option ℕ → BackendServer → HttpReqDesc → Served
unfolding finish refused_dial
connected b w i none s q =
    refused_dial w.dial b (update w.servers i s) (record q { be_conn = none })
connected b w i (some c) s q = finish b w i s c (record q { be_conn = some c; be_final = true })

-- The call behind `findServer`, with the server `i`.
pub serve_server : HttpBackend → World → ℕ → HttpReqDesc → Served
unfolding refuse dials connected
serve_server b w i q =
    let bs = w.servers i in
    let q' = record q { be_server = bs.server } in
    if exceeds b.server_max_conn bs.active_conn_count
    then refuse b w.servers q' backend_server_exhausted service_unavailable
    else let (c, s) = conn_acquire bs (dials w.dial) in connected b w i c s q'

pub serve_picked : HttpBackend → World → HttpReqDesc → Pick → Reply
unfolding refuse serve_server
serve_picked b w q panics = panicked
serve_picked b w q (picked none) = served (refuse b w.servers q backend_find service_unavailable)
serve_picked b w q (picked (some i)) = served (serve_server b w i q)

-- What `findServer` answers in a call.
pub pick : HttpBackend → World → Pick
pick b w = find_server w.wrh w.servers b.affinity_key w.nodes w.client w.bval b.mode

-- The deferred `atomic.AddInt64(&b.connCount, -1)`.
pub uncount : Reply → Reply
uncount panicked = panicked
uncount (served r) =
    served (record r { backend = record (r.backend) { conn_count = dec (r.backend).conn_count } })

-- `serve`.
pub serve : HttpBackend → World → HttpReqDesc → Reply
unfolding refuse pick serve_picked uncount
serve b w q =
    if exceeds b.max_conn b.conn_count
    then served (refuse b w.servers q backend_exhausted service_unavailable)
    else let b' = record b { conn_count = inc b.conn_count } in
      uncount (serve_picked b' w q (pick b' w))
