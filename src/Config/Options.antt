-- ===== src/Config/Options.antt =====
-- pkg/config/app.go, `Fork`: the options of health checks, backends, frontends and listeners, from
-- the items of the configuration. Objects are numbers.
use simult.Prelude.{
  ℕ, ◌*◌, ◌||◌, Option, none, some, List, [], ◌∷◌, ◌++◌, if◌then◌else◌, ℤ, ltb_ℤ, Bytes, codes,
  ◌=ᵇ◌, cut_byte, trim_left, Result, ◌>>=◌, require, pos, ok, err,
}
use simult.HttpCheck.{HttpCheckOptions, second}
use simult.HttpCommon.Header.{Header, set}
use simult.HttpBackend.Select.{
  HttpBackendMode, round_robin, least_conn, affinity_key, HttpBackendAffinityKeyKind, remote_ip,
  real_ip, http_header, http_cookie, AffinityKey,
}
use simult.HttpFrontend.Route.{HttpFrontendRoute}
use simult.Config.{Defaults, KeyConfig, Backend, HealthCheck}

pub data AppError : Type 0 where
  not_valid_name already_defined health_check_not_found unknown_mode unknown_key_kind : AppError
  backend_not_found backup_not_found network_error : AppError
  not_valid_address needs_tls_params tls_error fork_error : AppError

-- `lb.HTTPBackendOptions` and `lb.HTTPFrontendOptions`.
pub record HttpBackendOptions : Type 0 where
  pub name : Bytes
  pub max_conn : ℤ
  pub server_max_conn : ℤ
  pub server_max_idle_conn : ℤ
  pub timeout : ℤ
  pub connect_timeout : ℤ
  pub req_header : Header
  pub server_hash_secret : Bytes
  pub health_check_http_opts : Option HttpCheckOptions
  pub mode : HttpBackendMode
  pub affinity_key : AffinityKey
  pub override_errors : Bytes
  pub servers : List Bytes

pub record HttpFrontendOptions : Type 0 where
  pub name : Bytes
  pub max_conn : ℤ
  pub max_idle_conn : ℤ
  pub timeout : ℤ
  pub request_timeout : ℤ
  pub max_keep_alive_reqs : ℤ
  pub keep_alive_timeout : ℤ
  pub default_backend : Option ℕ
  pub default_backup : Option ℕ
  pub routes : List HttpFrontendRoute

-- What stands in a map under a name.
unfoldable pub find {ℓ} : {A : Type ℓ} → Bytes → List (Bytes × A) → Option A
find name [] = none
find name ((key, a) ∷ es) = if key =ᵇ name then some a else find name es

-- A limit is taken over if it is positive.
abbrev pub if_positive : ℤ → ℤ
if_positive n = if ltb_ℤ (pos 0) n then n else pos 0

-- The item's value, the default value, or the program's.
abbrev pub or_default : Option ℤ → Option ℤ → ℤ → ℤ
or_default (some n) d m = n
or_default none (some n) m = n
or_default none none m = m

-- `none` is an `h` that is nil.
unfoldable pub health_check_options : Bytes → HealthCheck → Option HttpCheckOptions
health_check_options version item = elim item.http [
  | none ↦ none
  | some http ↦ some (record {
    path = http.path;
    header_host = http.host;
    interval = http.interval;
    timeout = http.timeout;
    fall_threshold = http.fall;
    rise_threshold = http.rise;
    resp_body = if http.resp =ᵇ [] then none else some http.resp;
    user_agent = codes "simult/" ++ (version ++ codes " healthcheck");
  })
]

pub mode_of : Bytes → Result AppError HttpBackendMode
mode_of mode =
    if mode =ᵇ [] || mode =ᵇ codes "roundrobin"
    then ok round_robin
    else (if mode =ᵇ codes "leastconn"
        then ok least_conn
        else (if mode =ᵇ codes "affinitykey" then ok affinity_key else err unknown_mode))

pub kind_of : Bytes → Result AppError HttpBackendAffinityKeyKind
kind_of kind =
    if kind =ᵇ codes "remoteip"
    then ok remote_ip
    else (if kind =ᵇ codes "realip"
        then ok real_ip
        else (if kind =ᵇ codes "httpheader"
            then ok http_header
            else (if kind =ᵇ codes "httpcookie" then ok http_cookie else err unknown_key_kind)))

-- The kind and the key around a colon.
pub split_source : Bytes → Bytes × Bytes
split_source line = elim (cut_byte b':' line) [
  | none ↦ (line, [])
  | some (kind, key) ↦ (kind, trim_left key)
]

pub key_of : KeyConfig → Result AppError AffinityKey
unfolding kind_of split_source
key_of item =
    if item.source =ᵇ []
    then ok (record { kind = remote_ip; key = []; max_servers = pos 0; threshold = pos 0 })
    else (do
      kind ← kind_of (split_source item.source).0
      ok (record {
        kind = kind;
        key = (split_source item.source).1;
        max_servers = item.max_servers;
        threshold = item.threshold;
      }))

-- The health check that a backend names; under the name may stand nil.
pub check_of :
    List (Bytes × Option HttpCheckOptions) → Bytes → Result AppError (Option HttpCheckOptions)
unfolding find
check_of checks name =
    if name =ᵇ [] then ok none else require health_check_not_found (find name checks)

abbrev pub set_all : List (Bytes × Bytes) → Header → Header
set_all [] hdr = hdr
set_all ((k, v) ∷ kvs) hdr = set_all kvs (set hdr k v)

unfoldable pub backend_options :
    List (Bytes × Option HttpCheckOptions)
    → Defaults
    → Bytes
    → Backend
    → Result AppError HttpBackendOptions
unfolding check_of mode_of key_of
backend_options checks defaults name item = do
  check ← check_of checks item.health_check
  mode ← mode_of item.mode
  key ← key_of item.affinity_key
  ok (record {
    name = name;
    max_conn = if_positive item.max_conn;
    server_max_conn = if_positive item.server_max_conn;
    server_max_idle_conn = if_positive item.server_max_idle_conn;
    timeout = if_positive item.timeout;
    connect_timeout = or_default item.connect_timeout defaults.connect_timeout (pos (2 * second));
    req_header = set_all item.req_headers [];
    server_hash_secret = item.server_hash_secret;
    health_check_http_opts = check;
    mode = mode;
    affinity_key = key;
    override_errors = item.override_errors;
    servers = item.servers;
  })

-- The backend that a name stands for, if there is a name.
unfoldable pub backend_of : AppError → List (Bytes × ℕ) → Bytes → Result AppError (Option ℕ)
unfolding find
backend_of e backends name =
    if name =ᵇ [] then ok none else (do i ← require e (find name backends); ok (some i))
