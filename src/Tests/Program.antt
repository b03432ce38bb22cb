-- ===== src/Tests/Program.antt =====
-- The program: an application that is forked, reloads, and the end.
use simult.Prelude.{
  ◌≡◌, refl, Bool, true, false, Option, none, some, List, [], ◌∷◌, arith, codes, pos,
}
use simult.BackendServer.{build, set_shared, new_backend_server, ServerUrl}
use simult.HttpCommon.Fields.{parse_uint}
use simult.HttpBackend.Fork.{activate as activate_servers, fork as fork_servers, first_report_of}
use simult.HttpCheck.{after, receive, tick, copy_from, new_http_check}
use simult.AccepterHandler.{set, set_shared as mark_handler}
use simult.Listener.{
  close as close_on_net, activate as activate_on_net, fork as fork_on_net, ListenerOptions,
  new_accepter,
}
use simult.Config.Options.{health_check_options}
use simult.Config.{HttpConfig, Frontend, Backend, Config}
use simult.Config.App.{App, activate_all, empty_app, fork, gather}
use simult.Config.App.Complete.{Complete, fork-Complete}
use simult.Program.{
  Event, reloads, reports, close_frontend, fork_backend, fork_frontend, fork_listener,
  activate_backend, close_backend, activate_port, close_port, Host, System, members, or_empty,
  config_reload, run,
}
use simult.Program.Reload.{Reloaded, config_reload-Reloaded}
use simult.Program.Backed.{BackedBy}
use simult.Program.Ended.{config_reload-Backed}
use simult.Program.Over.{Nothing, at_start-Backed, Over, run-Over}
use simult.Program.Run.{no_listeners, config_reload-Complete, run_closes}

-- One backend, and a frontend with a route and a listener.
abbrev backend : Backend
backend = record {
  max_conn = pos 0;
  server_max_conn = pos 0;
  server_max_idle_conn = pos 0;
  timeout = pos 0;
  connect_timeout = none;
  req_headers = [];
  server_hash_secret = [];
  health_check = codes "c";
  mode = [];
  affinity_key = record { source = []; max_servers = pos 0; threshold = pos 0 };
  override_errors = [];
  servers = codes "http://h" ∷ [];
}

abbrev frontend : Frontend
frontend = record {
  max_conn = pos 0;
  max_idle_conn = pos 0;
  timeout = pos 0;
  request_timeout = none;
  max_keep_alive_reqs = none;
  keep_alive_timeout = none;
  default_backend = codes "b";
  default_backup = [];
  routes =
      record { host = []; path = codes "/a"; backend = codes "b"; backup = []; restrictions = [] }
      ∷ [];
  listeners = record { address = codes ":80"; tls = false; tls_params = none } ∷ [];
}

abbrev probe : HttpConfig
probe = record {
  path = codes "/";
  host = [];
  interval = pos 0;
  timeout = pos 0;
  fall = pos 2;
  rise = pos 2;
  resp = [];
}

abbrev config : Config
config = record {
  global = record { prom_reset_on_reload = false; rlimit_nofile = 0 };
  defaults = record {
    tls_params = none;
    request_timeout = none;
    max_keep_alive_reqs = none;
    keep_alive_timeout = none;
    connect_timeout = none;
  };
  frontends = (codes "f", frontend) ∷ [];
  backends = (codes "b", backend) ∷ [];
  health_checks = (codes "c", record { http = some probe }) ∷ [];
}

abbrev url : ServerUrl
url = record { scheme = codes "http"; host = codes "h"; port = [] }

abbrev sys : System
sys = record {
  url_parse = λ s. some url;
  listens = λ a. true;
  parse_cidr = λ s. none;
  tls_config = λ t. none;
  version = codes "0.1";
}

abbrev opts : ListenerOptions
opts = record { name = []; network = []; address = []; fe = none; tls_config = none }

-- The first configuration, and the same once more.
abbrev host : Host
host = record {
  heap = record { store = λ i. build url (codes "h:80") false; fresh = 0 };
  servers = λ i. [];
  frontends = λ i. none;
  checks = λ i. none;
  pending = [];
  objects = 0;
  ports = record {
    net = record { accepters = λ b. new_accepter; fresh = 0 };
    listener = λ i. record { opts = opts; accr = none };
    made = 0;
  };
}

abbrev app : App
app = record {
  listeners = (codes ":80", 0) ∷ [];
  frontends = (codes "f", 1) ∷ [];
  backends = (codes "b", 0) ∷ [];
  health_checks = (codes "c", health_check_options sys.version (record { http = some probe })) ∷ [];
}

abbrev forked : Host
forked = (fork (members sys) empty_app config host).1

fork-Complete_example :
    Complete config app
    × (forked ≡ activate_all (members sys) app (gather (members sys) empty_app config host).state)
unfolding fork fork_backend fork_frontend fork_listener fork_servers new_backend_server set_shared
    parse_uint fork_on_net
fork-Complete_example = fork-Complete (members sys) empty_app config host app forked refl

abbrev first : Bool × Option App × Host
first = config_reload sys (some config) none host

-- The same file once more.
config_reload-Reloaded_example :
    (let r = config_reload sys (some config) first.1 first.2 in
      Reloaded (or_empty first.1) (or_empty r.1) first.2.ports r.2.ports)
config_reload-Reloaded_example =
    config_reload-Reloaded sys (some config) first.1 first.2
      (config_reload-Reloaded sys (some config) none host (no_listeners host.ports refl)).serving

-- A file that is missing, and one that is there again.
abbrev signals : List Event
signals = reloads sys none ∷ reports 0 (true ∷ true ∷ []) ∷ reloads sys (some config) ∷ []

config_reload-Complete_example :
    (let r = config_reload sys (some config) none host in
      (r.0 ≡ false → r.1 ≡ none)
      × (r.0 ≡ true
          → (cfg : Config) × (an : App) × (some config ≡ some cfg)
            × (r.1 ≡ some an)
            × Complete cfg an))
config_reload-Complete_example = config_reload-Complete sys (some config) none host

run_closes_example : ((run sys (some config) signals host).1.ports.net.accepters 0).opened ≡ false
unfolding health_check_options activate_servers run fork mark_handler close_on_net activate_on_net
    set activate_backend close_backend close_frontend activate_port close_port fork_backend
    fork_frontend fork_listener fork_servers new_backend_server set_shared parse_uint fork_on_net
    first_report_of after receive tick copy_from new_http_check
run_closes_example = run_closes sys (some config) signals host refl 0 (omega arith)

abbrev nothing : Nothing host
nothing = record { fresh = refl; servers = λ k. refl; frontends = λ k. refl }

config_reload-Backed_example :
    (let r = config_reload sys (some config) first.1 first.2 in
      BackedBy (or_empty r.1) empty_app r.2)
config_reload-Backed_example =
    config_reload-Backed sys (some config) first.1 first.2
      (config_reload-Backed sys (some config) none host (at_start-Backed host nothing))

run-Over_example : Over (run sys (some config) signals host).1
run-Over_example = run-Over sys (some config) signals host nothing
