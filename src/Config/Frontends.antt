-- ===== src/Config/Frontends.antt =====
-- pkg/config/app.go, `Fork`: the options of frontends with their routes, and of their listeners.
pub mod Resolved
use simult.Prelude.{
  ℕ, ◌-◌, ◌*◌, ◌/◌, Option, none, some, List, [], ◌∷◌, if◌then◌else◌, Bytes, codes, ◌=ᵇ◌, Result,
  ◌>>=◌, ◌>>◌, require, pos, ok,
}
use simult.HttpCheck.{second}
use simult.HttpFrontend.Route.{IpNet, HttpFrontendRestriction, HttpFrontendRoute}
use simult.Listener.{ListenerOptions}
use simult.Config.{TlsParams, Defaults, Restriction, Route, Listener, Frontend}
use simult.Config.Options.{
  AppError, backend_not_found, backup_not_found, network_error, not_valid_address, needs_tls_params,
  tls_error, HttpFrontendOptions, find, if_positive, or_default, backend_of,
}

-- `net.ParseCIDR`, by what it answers.
abbrev pub network_of : (Bytes → Option IpNet) → Bytes → Result AppError (Option IpNet)
network_of parse_cidr network =
    if network =ᵇ []
    then ok none
    else (do n ← require network_error (parse_cidr network); ok (some n))

pub restriction_options :
    (Bytes → Option IpNet) → List Restriction → Result AppError (List HttpFrontendRestriction)
restriction_options parse_cidr [] = ok []
restriction_options parse_cidr (r ∷ rs) = do
  network ← network_of parse_cidr r.network
  rest ← restriction_options parse_cidr rs
  ok (
      record {
        network = network;
        path = r.path;
        invert = r.invert;
        and_after = r.and_after;
        path_rgx = none;
      }
      ∷ rest)

pub route_options :
    (Bytes → Option IpNet)
    → List (Bytes × ℕ)
    → List Route
    → Result AppError (List HttpFrontendRoute)
unfolding backend_of restriction_options
route_options parse_cidr backends [] = ok []
route_options parse_cidr backends (r ∷ rs) = do
  backend ← backend_of backend_not_found backends r.backend
  backup ← backend_of backup_not_found backends r.backup
  restrictions ← restriction_options parse_cidr r.restrictions
  rest ← route_options parse_cidr backends rs
  ok (
      record {
        host = r.host;
        path = r.path;
        backend = backend;
        backup = backup;
        restrictions = restrictions;
        host_rgx = none;
        path_rgx = none;
      }
      ∷ rest)

unfoldable pub frontend_options :
    (Bytes → Option IpNet)
    → List (Bytes × ℕ)
    → Defaults
    → Bytes
    → Frontend
    → Result AppError HttpFrontendOptions
unfolding backend_of route_options
frontend_options parse_cidr backends defaults name item = do
  default_backend ← backend_of backend_not_found backends item.default_backend
  default_backup ← backend_of backup_not_found backends item.default_backup
  routes ← route_options parse_cidr backends item.routes
  ok (record {
    name = name;
    max_conn = if_positive item.max_conn;
    max_idle_conn = if_positive item.max_idle_conn;
    timeout = if_positive item.timeout;
    request_timeout = or_default item.request_timeout defaults.request_timeout (pos (5 * second));
    max_keep_alive_reqs = or_default item.max_keep_alive_reqs defaults.max_keep_alive_reqs (pos 20);
    keep_alive_timeout =
        or_default item.keep_alive_timeout defaults.keep_alive_timeout (pos (65 * second));
    default_backend = default_backend;
    default_backup = default_backup;
    routes = routes;
  })

-- The item's parameters of TLS or the default ones.
abbrev pub or_params : Option TlsParams → Option TlsParams → Option TlsParams
or_params (some t) d = some t
or_params none d = d

-- `tlsParams.Config()` is `tls_config`, by what it answers.
abbrev pub tls_of : (TlsParams → Option ℕ) → Defaults → Listener → Result AppError (Option ℕ)
tls_of tls_config defaults item =
    if item.tls
    then (do
      params ← require needs_tls_params (or_params item.tls_params defaults.tls_params)
      c ← require tls_error (tls_config params)
      ok (some c))
    else ok none

unfoldable pub listener_options :
    (TlsParams → Option ℕ) → Defaults → ℕ → Listener → Result AppError ListenerOptions
listener_options tls_config defaults fe item = do
  c ← tls_of tls_config defaults item
  ok (record {
    name = item.address;
    network = codes "tcp";
    address = item.address;
    fe = some fe;
    tls_config = c;
  })
