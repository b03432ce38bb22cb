-- ===== src/Config.antt =====
-- pkg/config/config.go: the configuration as the decoder of YAML leaves it. A map lists its entries in
-- the order in which an iteration meets them; a pointer is an option.
pub mod Options
pub mod Frontends
pub mod Tls
pub mod App
use simult.Prelude.{
  ℕ, ◌-◌, ◌/◌, Bool, false, ◌&&◌, ◌||◌, Option, List, [], ◌∷◌, map, leb, ◌==◌, all, ℤ, Bytes,
  is_digit,
}

pub record TlsParams : Type 0 where
  pub cert_path : Bytes
  pub key_path : Bytes

pub record Global : Type 0 where
  pub prom_reset_on_reload : Bool
  pub rlimit_nofile : ℕ

pub record Defaults : Type 0 where
  pub tls_params : Option TlsParams
  pub request_timeout : Option ℤ
  pub max_keep_alive_reqs : Option ℤ
  pub keep_alive_timeout : Option ℤ
  pub connect_timeout : Option ℤ

pub record Restriction : Type 0 where
  pub network : Bytes
  pub path : Bytes
  pub invert : Bool
  pub and_after : Bool

pub record Route : Type 0 where
  pub host : Bytes
  pub path : Bytes
  pub backend : Bytes
  pub backup : Bytes
  pub restrictions : List Restriction

pub record Listener : Type 0 where
  pub address : Bytes
  pub tls : Bool
  pub tls_params : Option TlsParams

pub record Frontend : Type 0 where
  pub max_conn : ℤ
  pub max_idle_conn : ℤ
  pub timeout : ℤ
  pub request_timeout : Option ℤ
  pub max_keep_alive_reqs : Option ℤ
  pub keep_alive_timeout : Option ℤ
  pub default_backend : Bytes
  pub default_backup : Bytes
  pub routes : List Route
  pub listeners : List Listener

pub record KeyConfig : Type 0 where
  pub source : Bytes
  pub max_servers : ℤ
  pub threshold : ℤ

pub record Backend : Type 0 where
  pub max_conn : ℤ
  pub server_max_conn : ℤ
  pub server_max_idle_conn : ℤ
  pub timeout : ℤ
  pub connect_timeout : Option ℤ
  pub req_headers : List (Bytes × Bytes)
  pub server_hash_secret : Bytes
  pub health_check : Bytes
  pub mode : Bytes
  pub affinity_key : KeyConfig
  pub override_errors : Bytes
  pub servers : List Bytes

pub record HttpConfig : Type 0 where
  pub path : Bytes
  pub host : Bytes
  pub interval : ℤ
  pub timeout : ℤ
  pub fall : ℤ
  pub rise : ℤ
  pub resp : Bytes

pub record HealthCheck : Type 0 where
  pub http : Option HttpConfig

pub record Config : Type 0 where
  pub global : Global
  pub defaults : Defaults
  pub frontends : List (Bytes × Frontend)
  pub backends : List (Bytes × Backend)
  pub health_checks : List (Bytes × HealthCheck)

-- `nameRgx`: letters, `_` and `-`, and digits behind the first place.
pub is_name_start : ℕ → Bool
is_name_start c = leb b'a' c && leb c b'z' || leb b'A' c && leb c b'Z' || c == b'_' || c == b'-'

unfoldable pub valid_name : Bytes → Bool
unfolding is_name_start
valid_name [] = false
valid_name (c ∷ s) = is_name_start c && all (λ d. is_name_start d || is_digit d) s
