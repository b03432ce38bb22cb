-- ===== src/Program.antt =====
-- cmd/simult-server/main.go: `configReload` and the loop of `main` over the members of pkg/lb that an
-- application forks. Objects are numbers under which the host keeps them. Flags, logs, limits of the system and the metrics are left out.
pub mod Lookup
pub mod Invariant
pub mod Closing
pub mod Adding
pub mod Settings
pub mod Grown
pub mod Handing
pub mod Serving
pub mod Reload
pub mod Run
pub mod Owned
pub mod Backed
pub mod Ended
pub mod Over
use simult.Prelude.{
  ℕ, zero, suc, ◌+◌, ◌-◌, ◌/◌, Bool, true, false, not, Option, none, some, List, [], ◌∷◌, ◌++◌,
  if◌then◌else◌, all, All, Bytes, Result, ok, err,
}
use simult.BackendServer.{update, ServerUrl}
use simult.HttpCheck.{HttpCheck, HttpCheckOptions}
use simult.HttpBackend.Select.{Servers}
use simult.HttpBackend.Fork.{
  Heap, Forking, ForkError, close_all, fork as fork_servers, activate as activate_servers, report,
  first_report_of,
}
use simult.HttpFrontend.Fork.{HttpFrontend, fork as fork_front, close_found}
use simult.HttpFrontend.Route.{IpNet}
use simult.Listener.{
  ListenerOptions, Net, ListenError, Listener, fork as fork_on_net, close as close_on_net,
  activate as activate_on_net,
}
use simult.Config.{TlsParams, Config}
use simult.Config.Options.{AppError, HttpBackendOptions, HttpFrontendOptions}
use simult.Config.App.{App, Members, empty_app, fork, close}

-- All listeners with the network; those from `made` on are not made yet.
pub record Ports : Type 0 where
  pub net : Net
  pub listener : ℕ → Listener
  pub made : ℕ

-- All backends with their servers, all frontends, and the health checks whose first report is awaited.
pub record Host : Type 0 where
  pub heap : Heap
  pub servers : ℕ → Servers
  pub frontends : ℕ → Option HttpFrontend
  pub checks : ℕ → Option HttpCheckOptions
  pub pending : List (ℕ × HttpCheck)
  pub objects : ℕ
  pub ports : Ports

-- What libraries, the disk and the system answer.
pub record System : Type 0 where
  pub url_parse : Bytes → Option ServerUrl
  pub listens : Bytes → Bool  -- whether `net.Listen` succeeds at an address
  pub parse_cidr : Bytes → Option IpNet
  pub tls_config : TlsParams → Option ℕ
  pub version : Bytes

pub add_port : Result ListenError Listener × Net → Ports → Option ℕ × Ports
add_port (err e, net) p = (none, record p { net = net })
add_port (ok ln, net) p =
    (some p.made, record { net = net; listener = update p.listener p.made ln; made = suc p.made })

pub listener_of : Ports → Option ℕ → Option Listener
listener_of p none = none
listener_of p (some i) = some (p.listener i)

pub fork_port : (Bytes → Bool) → Option ℕ → ListenerOptions → Ports → Option ℕ × Ports
unfolding add_port listener_of
fork_port listens old opts p =
    add_port (fork_on_net (listens opts.address) (listener_of p old) opts p.net) p

unfoldable pub close_port : ℕ → Ports → Ports
close_port i p =
    let (l, net) = close_on_net (p.listener i) p.net in
    record p { net = net; listener = update p.listener i l }

unfoldable pub activate_port : ℕ → Ports → Ports
activate_port i p = record p { net = activate_on_net i (p.listener i) p.net }

pub servers_of : (ℕ → Servers) → Option ℕ → Servers
servers_of servers none = []
servers_of servers (some i) = servers i

pub add_backend : HttpBackendOptions → Forking → Option ForkError → Host → Option ℕ × Host
add_backend opts f (some e) h = (none, record h { heap = f.heap })
add_backend opts f none h = (
  some h.objects,
  record h {
    heap = f.heap;
    servers = update h.servers h.objects f.bss;
    checks = update h.checks h.objects opts.health_check_http_opts;
    objects = suc h.objects;
  },
)

unfoldable pub fork_backend :
    (Bytes → Option ServerUrl) → Option ℕ → HttpBackendOptions → Host → Option ℕ × Host
unfolding add_backend servers_of
fork_backend url_parse old opts h =
    let f = fork_servers url_parse (servers_of h.servers old) opts.servers h.heap in
    add_backend opts f f.failure h

unfoldable pub fork_frontend : Option ℕ → HttpFrontendOptions → Host → Option ℕ × Host
fork_frontend old opts h = (
  some h.objects,
  record h {
    frontends = update h.frontends h.objects (some (fork_front opts));
    objects = suc h.objects;
  },
)

unfoldable pub activate_backend : ℕ → Host → Host
activate_backend i h =
    let (heap, pending) = activate_servers (h.checks i) (h.servers i) h.heap in
    record h { heap = heap; pending = pending ++ h.pending }

unfoldable pub close_backend : ℕ → Host → Host
close_backend i h = record h {
  heap = close_all (h.servers i) h.heap;
  servers = update h.servers i [];
}

unfoldable pub close_frontend : ℕ → Host → Host
close_frontend i h = record h { frontends = update h.frontends i (close_found (h.frontends i)) }

unfoldable pub fork_listener : (Bytes → Bool) → Option ℕ → ListenerOptions → Host → Option ℕ × Host
unfolding fork_port
fork_listener listens old opts h =
    let (r, p) = fork_port listens old opts h.ports in (r, record h { ports = p })

-- The members as the packages implement them.
abbrev pub members : System → Members Host
members sys = record {
  fork_backend = fork_backend sys.url_parse;
  fork_frontend = fork_frontend;
  fork_listener = fork_listener sys.listens;
  activate_backend = activate_backend;
  activate_listener = λ i h. record h { ports = activate_port i h.ports };
  close_backend = close_backend;
  close_frontend = close_frontend;
  close_listener = λ i h. record h { ports = close_port i h.ports };
  parse_cidr = sys.parse_cidr;
  tls_config = sys.tls_config;
  version = sys.version;
}

abbrev pub or_empty : Option App → App
or_empty none = empty_app
or_empty (some a) = a

pub close_old : System → Option App → Host → Host
close_old sys none h = h
close_old sys (some a) h = close (members sys) a h

-- `configReload` behind `app.Fork`.
pub take_over : System → Option App → Result AppError App × Host → Bool × Option App × Host
unfolding close_old
take_over sys app (err e, h) = (false, app, h)
take_over sys app (ok an, h) = (true, some an, close_old sys app h)

-- `configReload`; `none` is a file that cannot be read or parsed.
pub config_reload : System → Option Config → Option App → Host → Bool × Option App × Host
unfolding take_over
config_reload sys none app h = (false, app, h)
config_reload sys (some cfg) app h = take_over sys app (fork (members sys) (or_empty app) cfg h)

-- The entry with a number, and the rest.
pub take_at : {A : Type 0} → ℕ → List A → Option (A × List A)
take_at n [] = none
take_at zero (x ∷ xs) = some (x, xs)
take_at (suc n) (x ∷ xs) = elim (take_at n xs) [ none ↦ none | some (y, ys) ↦ some (y, x ∷ ys) ]

-- What is received from a check that is waited for, after rounds with the given outcomes.
pub received :
    List Bool
    → Option ((ℕ × HttpCheck) × List (ℕ × HttpCheck))
    → Option ((ℕ × HttpCheck) × List (ℕ × HttpCheck))
received past none = none
received past (some ((i, check), rest)) = elim (first_report_of check past) [
  | none ↦ none
  | some c ↦ some ((i, c), rest)
]

-- A report, if one has been received, is set.
pub reported : Option ((ℕ × HttpCheck) × List (ℕ × HttpCheck)) → Host → Host
reported none h = h
reported (some (r, rest)) h = record h { heap = report h.heap r; pending = rest }

-- One of the health checks that `Activate` waits for has had rounds with the given outcomes, newest
-- first; its report is set if there is one by then.
pub report_pending : ℕ → List Bool → Host → Host
unfolding take_at received reported
report_pending n past h = reported (received past (take_at n h.pending)) h

-- A signal to reload, with what the system answers and with the file that is there then; or a first
-- report, in the goroutine that `Activate` has started.
pub data Event : Type 0 where
  reloads : System → Option Config → Event
  reports : ℕ → List Bool → Event

-- The loop of `main` over the signals to reload, and what comes between them.
pub serve_signals : List Event → Option App → Host → Option App × Host
unfolding config_reload report_pending
serve_signals [] app h = (app, h)
serve_signals (reloads sys file ∷ events) app h =
    let (_, app', h') = config_reload sys file app h in serve_signals events app' h'
serve_signals (reports n past ∷ events) app h = serve_signals events app (report_pending n past h)

-- The last call of `main`, for the application that runs.
pub terminate : System → Option App × Host → Host
unfolding close_old
terminate sys (app, h) = close_old sys app h

-- `main` from its first `configReload` on; `false` where the program leaves behind it.
unfoldable pub run : System → Option Config → List Event → Host → Bool × Host
unfolding config_reload serve_signals terminate
run sys file signals h =
    let (loaded, app, h') = config_reload sys file none h in
    if loaded then (true, terminate sys (serve_signals signals app h')) else (false, h')
