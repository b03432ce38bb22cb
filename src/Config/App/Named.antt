-- ===== src/Config/App/Named.antt =====
-- What a member's options say where they are made: a new name, and a listener's address.
use simult.Prelude.{
  ℕ, ◌≡◌, sym, ap, false, not, Option, List, is_some, Bytes, codes, fail_if, ok_parts, fail_if-ok,
  ok-injective, ok,
}
use simult.HttpFrontend.Route.{IpNet}
use simult.Listener.{ListenerOptions}
use simult.Config.{valid_name, TlsParams, Defaults, Listener, Frontend, Backend}
use simult.Config.Options.{
  not_valid_name, already_defined, HttpBackendOptions, HttpFrontendOptions, find,
}
use simult.Config.Frontends.{listener_options, tls_of}
use simult.Config.App.{App, check_name, named_backend, named_frontend}

pub listener_options-address :
    (tls_config : TlsParams → Option ℕ) (d : Defaults) (fe : ℕ) (item : Listener)
    {o : ListenerOptions}
    → listener_options tls_config d fe item ≡ ok o
    → (o.network ≡ codes "tcp") × (o.address ≡ item.address)
unfolding listener_options
listener_options-address tls_config d fe item {o} h =
    let (c, p, q) = ok_parts (tls_of tls_config d item) _ h in
    let e = ok-injective q in
    (
      sym (ap (λ (o : ListenerOptions). o.network) e),
      sym (ap (λ (o : ListenerOptions). o.address) e),
    )

check_name-new {ℓ} :
    {A : Type ℓ} (name : Bytes) (made : List (Bytes × A)) {u : Unit {0}}
    → check_name name made ≡ ok u
    → is_some (find name made) ≡ false
unfolding check_name
check_name-new name made h =
    let (u, p, q) = ok_parts (fail_if (not (valid_name name)) not_valid_name) _ h in
    fail_if-ok (is_some (find name made)) already_defined q

pub named_backend-new :
    (d : Defaults) (an : App) (name : Bytes) (item : Backend) {o : HttpBackendOptions}
    → named_backend d an name item ≡ ok o
    → is_some (find name an.backends) ≡ false
unfolding named_backend
named_backend-new d an name item h =
    let (u, p, q) = ok_parts (check_name name an.backends) _ h in check_name-new name an.backends p

pub named_frontend-new :
    (parse_cidr : Bytes → Option IpNet) (d : Defaults) (an : App) (name : Bytes) (item : Frontend)
    {o : HttpFrontendOptions}
    → named_frontend parse_cidr d an name item ≡ ok o
    → is_some (find name an.frontends) ≡ false
unfolding named_frontend
named_frontend-new parse_cidr d an name item h =
    let (u, p, q) = ok_parts (check_name name an.frontends) _ h in
    check_name-new name an.frontends p
