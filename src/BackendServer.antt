-- ===== src/BackendServer.antt =====
-- pkg/lb/backendserver.go: a backend server with its pool of idle connections. Connections are the
-- numbers under which `conns` stores them. `bcs` lists the map's keys in the order in which the next
-- iteration meets them, which Go leaves open; `Life` has a step that reorders it. The counters are
-- unbounded integers.
pub mod Active
pub mod Claim
pub mod Life
pub mod Sharing
pub mod Opened
use simult.Prelude.{
  ℕ, suc, ◌+◌, ◌-◌, ◌/◌, Bool, true, false, not, ◌&&◌, Option, none, some, List, [], ◌∷◌, ◌++◌, map,
  ◌==◌, if◌then◌else◌, any, ℤ, inc, dec, Bytes, codes, ◌=ᵇ◌, to_lower, pos,
}
use simult.BufConn
use simult.BufConn.{BufConn, new_buf_conn}
use simult.HttpCheck
use simult.HttpCheck.{HttpCheck}

pub record BackendServer : Type 0 where
  pub server : Bytes
  pub scheme : Bytes  -- of serverURL
  pub address : Bytes
  pub use_tls : Bool
  pub weight : ℕ  -- float64 of a uint8
  pub conns : ℕ → BufConn
  pub next : ℕ
  pub bcs : List ℕ
  pub health_check : Option HttpCheck
  pub active_conn_count : ℤ
  pub idle_conn_count : ℤ
  pub total_conn_count : ℤ
  pub done : Bool  -- ctx
  pub shared : Bool

abbrev pub update {ℓ} : {A : Type ℓ} → (ℕ → A) → ℕ → A → ℕ → A
update f c v d = if c == d then v else f d

-- The parts of a parsed URL that the program reads.
pub record ServerUrl : Type 0 where
  pub scheme : Bytes
  pub host : Bytes  -- with its port
  pub port : Bytes

pub data ServerError : Type 0 where
  url_parse_error empty_hostport unknown_scheme : ServerError

pub data Made {ℓ} (A : Type ℓ) : Type ℓ where
  made : A → Made A
  refused : ServerError → Made A

-- The host with the scheme's port, if the URL has none.
pub with_port : ServerUrl → Bytes → Bytes
with_port u p = if u.port =ᵇ [] then u.host ++ p else u.host

unfoldable pub build : ServerUrl → Bytes → Bool → BackendServer
build u address use_tls = record {
  server = u.scheme ++ codes "://" ++ address;
  scheme = u.scheme;
  address = address;
  use_tls = use_tls;
  weight = 0;
  conns = λ _. new_buf_conn;
  next = 0;
  bcs = [];
  health_check = none;
  active_conn_count = pos 0;
  idle_conn_count = pos 0;
  total_conn_count = pos 0;
  done = false;
  shared = false;
}

pub from_url : ServerUrl → Made BackendServer
unfolding with_port
from_url u =
    if u.host =ᵇ []
    then refused empty_hostport
    else if u.scheme =ᵇ codes "http"
    then made (build u (with_port u (codes ":80")) false)
    else if u.scheme =ᵇ codes "https"
    then made (build u (with_port u (codes ":443")) true)
    else if u.port =ᵇ []
    then refused unknown_scheme
    else made (build u [] false)

pub of_parsed : Option ServerUrl → Made BackendServer
of_parsed none = refused url_parse_error
of_parsed (some u) = from_url u

-- `newBackendServer`, over the URL parser of the standard library.
unfoldable pub new_backend_server : (Bytes → Option ServerUrl) → Bytes → Made BackendServer
unfolding of_parsed from_url build
new_backend_server url_parse server = of_parsed (url_parse (to_lower server))

-- `delete(bs.bcs, bcr)` with the two counters; `rest` is what the iteration has left.
pub forget : BackendServer → List ℕ → BackendServer
forget s rest = record s {
  bcs = rest;
  idle_conn_count = dec s.idle_conn_count;
  total_conn_count = dec s.total_conn_count;
}

-- The connection is open and nothing was read or written since its counters were reset.
pub usable : BufConn → Bool
usable bc = BufConn.check bc && bc.sr_n == 0 && bc.sw_n == 0

-- A connection that fails its check leaves the map and is closed.
pub evict : BackendServer → ℕ → List ℕ → BackendServer
unfolding forget
evict s c rest = record (forget s rest) { conns = update s.conns c (BufConn.close (s.conns c)) }

-- What the check leaves of the connection: its counters reset by `Stats`, and closed if not usable.
pub inspect : BufConn → BufConn
inspect bc =
    let bc' = if BufConn.check bc then (BufConn.stats bc).1 else bc in
    if usable bc then bc' else BufConn.close bc'

-- One round of the loop of `ConnAcquire`, for the connection `c`.
pub pull : BackendServer → ℕ → List ℕ → BackendServer
unfolding forget
pull s c rest = record (forget s rest) { conns = update s.conns c (inspect (s.conns c)) }

-- The loop of `ConnAcquire`, under `bcsMu`.
unfoldable pub take_idle : BackendServer → List ℕ → Option ℕ × BackendServer
take_idle s [] = (none, record s { bcs = [] })
take_idle s (c ∷ rest) = elim (usable (s.conns c)) [
  | true ↦ (some c, pull s c rest)
  | false ↦ take_idle (pull s c rest) rest
]

-- The lines from the unlock to the dial.
pub enter : BackendServer → BackendServer
enter s = record s {
  active_conn_count = inc s.active_conn_count;
  total_conn_count = inc s.total_conn_count;
}

-- The first part of `ConnAcquire`; `none` means that it goes on to dial.
unfoldable pub acquire_idle : BackendServer → Option ℕ × BackendServer
unfolding enter
acquire_idle s = let (c, t) = take_idle s s.bcs in (c, enter t)

-- The rest of it, on the outcome of the dial.
pub dial_failed : BackendServer → BackendServer
dial_failed s = record s {
  active_conn_count = dec s.active_conn_count;
  total_conn_count = dec s.total_conn_count;
}

pub dial_done : BackendServer → ℕ × BackendServer
dial_done s = (s.next, record s { conns = update s.conns s.next new_buf_conn; next = suc s.next })

or_dial : Bool → Option ℕ → BackendServer → Option ℕ × BackendServer
unfolding dial_failed dial_done
or_dial dials (some c) s = (some c, s)
or_dial true none s = let (c, t) = dial_done s in (some c, t)
or_dial false none s = (none, dial_failed s)

-- `ConnAcquire`; `dials` says whether `DialContext` would answer.
pub conn_acquire : BackendServer → Bool → Option ℕ × BackendServer
unfolding or_dial
conn_acquire s dials = let (c, t) = acquire_idle s in or_dial dials c t

abbrev pub contains : List ℕ → ℕ → Bool
contains xs c = any (λ d. d == c) xs

-- The part of `ConnRelease` behind the checks: the connection goes into the map.
pub pool_conn : BackendServer → ℕ → BackendServer
pool_conn s c = if contains s.bcs c then s else record s {
  bcs = c ∷ s.bcs;
  idle_conn_count = inc s.idle_conn_count;
  total_conn_count = inc s.total_conn_count;
}

pub leave : BackendServer → BackendServer
leave s = record s {
  active_conn_count = dec s.active_conn_count;
  total_conn_count = dec s.total_conn_count;
}

pub close_conn : BackendServer → ℕ → BackendServer
close_conn s c = record s { conns = update s.conns c (BufConn.close (s.conns c)) }

pub inspect_conn : BackendServer → ℕ → BackendServer
inspect_conn s c = record s { conns = update s.conns c (inspect (s.conns c)) }

-- The part of `ConnRelease` under `bcsMu`.
pub settle : BackendServer → ℕ → BackendServer
settle s c =
    if s.done
    then close_conn s c
    else if usable (s.conns c)
    then pool_conn (inspect_conn s c) c
    else inspect_conn s c

-- `ConnRelease`; `none` is nil.
pub conn_release : BackendServer → Option ℕ → BackendServer
conn_release s none = s
conn_release s (some c) = settle (leave s) c

-- One tick of the worker: the connections that fail the check are dropped and closed.
pub sweep : BackendServer → List ℕ → BackendServer
sweep s [] = record s { bcs = [] }
sweep s (c ∷ rest) =
    let t = sweep s rest in
    if BufConn.check (s.conns c) then record t { bcs = c ∷ t.bcs } else evict t c t.bcs

pub work : BackendServer → BackendServer
work s = sweep s s.bcs

-- `IsShared` and `SetShared`, which returns the old status.
unfoldable pub set_shared : BackendServer → Bool → Bool × BackendServer
set_shared s status = (s.shared, record s { shared = status })

-- A health check that is closed, if there is one.
pub closed : Option HttpCheck → List HttpCheck
closed none = []
closed (some h) = HttpCheck.close h ∷ []

-- `SetHealthCheck`; the list holds the health checks that it closes.
unfoldable pub set_health_check : BackendServer → Option HttpCheck → BackendServer × List HttpCheck
unfolding closed
set_health_check s h =
    if s.done
    then (record s { health_check = none }, closed h ++ closed s.health_check)
    else (record s { health_check = h }, closed s.health_check)

pub healthy : BackendServer → Bool
healthy s = elim s.health_check [ none ↦ true | some h ↦ h.healthy ]

-- The loop of `Close` over the idle connections.
pub drain : BackendServer → List ℕ → BackendServer
drain s [] = record s { bcs = [] }
drain s (c ∷ rest) = drain (evict s c rest) rest

-- `Close`: a shared server only loses the mark.
unfoldable pub close : BackendServer → BackendServer
unfolding set_shared
close s =
    let (was, t) = set_shared s false in
    if was then t else record (drain (record t { done = true }) t.bcs) { health_check = none }
