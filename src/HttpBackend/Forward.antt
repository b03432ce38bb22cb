-- ===== src/HttpBackend/Forward.antt =====
-- pkg/lb/httpbackend.go, `serve`: the request's headers as they go to the server.
use simult.Prelude.{
  ◌≡◌, refl, ◌∙◌, false, List, [], ◌∷◌, ◌++◌, if◌then◌else◌, if-cases, Bytes, codes, ◌=ᵇ◌,
}
use simult.HttpCommon.Header.{Header, canonical_key, get, set, add, del}
use simult.HttpCommon.Header.Laws.{get-set, get-del}

-- What the client's connection and the listener say of the request.
pub record Origin : Type 0 where
  pub fe_remote_ip : Bytes
  pub scheme : Bytes
  pub host : Bytes
  pub le_port : Bytes

-- A field that is set where the client has not sent it.
pub set_missing : Header → Bytes → Bytes → Header
set_missing hdr name v = if get hdr name =ᵇ [] then set hdr name v else hdr

-- The client's address behind those of the proxies before.
pub forwarded_for : Header → Bytes → Bytes
forwarded_for hdr remote_ip =
    let xff = get hdr (codes "X-Forwarded-For") in
    (if xff =ᵇ [] then [] else xff ++ codes ", ") ++ remote_ip

abbrev pub add_all : Bytes → List Bytes → Header → Header
add_all name [] hdr = hdr
add_all name (v ∷ vs) hdr = add_all name vs (add hdr name v)

-- A configured field: its first value replaces the client's, the others are added.
pub set_field : Bytes × List Bytes → Header → Header
set_field (name, []) hdr = hdr
set_field (name, v ∷ vs) hdr = add_all name vs (set hdr name v)

abbrev pub set_fields : Header → Header → Header
set_fields [] hdr = hdr
set_fields (field ∷ fields) hdr = set_fields fields (set_field field hdr)

pub forwarded : Origin → Header → Header
unfolding set_missing forwarded_for
forwarded o hdr0 =
    let hdr1 = set hdr0 (codes "X-Forwarded-For") (forwarded_for hdr0 o.fe_remote_ip) in
    let hdr2 = set_missing hdr1 (codes "X-Forwarded-Proto") o.scheme in
    let hdr3 = set_missing hdr2 (codes "X-Forwarded-Host") o.host in
    let hdr4 = set_missing hdr3 (codes "X-Forwarded-Port") o.le_port in
    let hdr5 = set_missing hdr4 (codes "X-Real-IP") o.fe_remote_ip in del hdr5 (codes "Keep-Alive")

-- The headers with the fields that the configuration sets, `req_header`.
pub request_hdr : Header → Origin → Header → Header
unfolding forwarded set_field
request_hdr req_header o hdr = set_fields req_header (forwarded o hdr)

-- A field that is set where it is missing does not change the others.
get-set_missing :
    (hdr : Header) (name other v : Bytes)
    → canonical_key name =ᵇ canonical_key other ≡ false
    → get (set_missing hdr name v) other ≡ get hdr other
unfolding set_missing
get-set_missing hdr name other v h =
    if-cases (λ (r : Header). get r other ≡ get hdr other) (get hdr name =ᵇ [])
      (λ _. get-set hdr name other v ∙ rw h refl) (λ _. refl)

-- The server is told the client's address behind those that the client has sent.
pub get-forwarded :
    (o : Origin) (hdr : Header)
    → get (forwarded o hdr) (codes "X-Forwarded-For") ≡ forwarded_for hdr o.fe_remote_ip
unfolding forwarded canonical_key
get-forwarded o hdr =
    let n = codes "X-Forwarded-For" in
    let h1 = set hdr n (forwarded_for hdr o.fe_remote_ip) in
    let h2 = set_missing h1 (codes "X-Forwarded-Proto") o.scheme in
    let h3 = set_missing h2 (codes "X-Forwarded-Host") o.host in
    let h4 = set_missing h3 (codes "X-Forwarded-Port") o.le_port in
    let h5 = set_missing h4 (codes "X-Real-IP") o.fe_remote_ip in
    get-del h5 (codes "Keep-Alive") n refl
    ∙ get-set_missing h4 (codes "X-Real-IP") n o.fe_remote_ip refl
    ∙ get-set_missing h3 (codes "X-Forwarded-Port") n o.le_port refl
    ∙ get-set_missing h2 (codes "X-Forwarded-Host") n o.host refl
    ∙ get-set_missing h1 (codes "X-Forwarded-Proto") n o.scheme refl
    ∙ get-set hdr n n (forwarded_for hdr o.fe_remote_ip)
