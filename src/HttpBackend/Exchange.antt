-- ===== src/HttpBackend/Exchange.antt =====
-- pkg/lb/httpbackend.go: `serveIngress`, `serveEngress` and `serveAsync`, the exchange of one request
-- and its response. The two directions share no connection end, so their order does not matter; the
-- logs and the times are left out.
pub mod Bodies
pub mod Reuse
use simult.Prelude.{
  ℕ, ◌+◌, ◌-◌, ◌/◌, Bool, not, ◌&&◌, ◌||◌, Option, none, some, [], ◌++◌, ltb, if◌then◌else◌, length,
  ℤ, ltb_ℤ, Bytes, codes, ◌=ᵇ◌, cut_byte, to_lower, to_upper, pos,
}
use simult.HttpBackend.Serve.{GoError, HttpErrGroup, http_error, other, protocol, communication}
use simult.HttpCommon.Header.{Header, get, set, del}
use simult.HttpCommon.Head.{Head, Split, split_http_header}
use simult.HttpCommon.Fields.{http_content_length, group_http_status_code}
use simult.HttpCommon.Transfer.{Sink, Codec, Copied, write_http_header, write_http_body}

-- What the code takes from elsewhere: net/http's text of headers and chunks, `md5` in hexadecimal
-- digits, and the size of the readers' buffers.
pub record Env : Type 0 where
  pub codec : Codec
  pub md5 : Bytes → Bytes
  pub buffer_size : ℕ
  pub server_hash_secret : Bytes

-- The request, the response, and the four ends of the connections: the bytes that are to come from
-- the client and the server, and what is sent to them.
pub record HttpReqDesc : Type 0 where
  pub fe_status_line : Bytes
  pub fe_hdr : Header
  pub fe_status_method : Bytes
  pub fe_reader : Bytes
  pub fe_writer : Sink
  pub be_server : Bytes
  pub be_status_line : Bytes
  pub be_hdr : Header
  pub be_status_version : Bytes
  pub be_status_code : Bytes
  pub be_status_msg : Bytes
  pub be_status_code_grouped : Bytes
  pub be_reader : Bytes
  pub be_writer : Sink

-- An error, if there is one, and the state.
abbrev pub Outcome : Type 0
Outcome = Option GoError × HttpReqDesc

-- The next step, unless there was an error.
pub unless_failed : Outcome → (HttpReqDesc → Outcome) → Outcome
unless_failed (none, r) f = f r
unless_failed (some e, r) f = (some e, r)

-- The request's body, for the length of its header; `-1` counts as no body.
pub ingress_body : Env → ℕ → ℤ × Option HttpErrGroup → HttpReqDesc → Outcome
ingress_body env ready (n, some g) r = (some (http_error g), r)
ingress_body env ready (n, none) r =
    let n' = if ltb_ℤ n (pos 0) then pos 0 else n in
    let c =
      write_http_body env.codec ready r.be_writer r.fe_reader n'
        (get r.fe_hdr (codes "Transfer-Encoding")) in
    (c.failure, record r { be_writer = c.dst; fe_reader = c.rest })

pub serve_ingress : Env → ℕ → HttpReqDesc → Outcome
unfolding unless_failed ingress_body
serve_ingress env ready r =
    let (e, d) = write_http_header env.codec r.be_writer r.fe_status_line r.fe_hdr in
    unless_failed (e, record r { be_writer = d })
      (ingress_body env ready (http_content_length (get r.fe_hdr (codes "Content-Length"))))

-- `strings.SplitN(line, " ", 3)`, if there are three parts.
pub split_3 : Bytes → Option (Bytes × Bytes × Bytes)
split_3 line = elim (cut_byte b' ' line) [
  | none ↦ none
  | some (a, rest) ↦ elim (cut_byte b' ' rest) [ none ↦ none | some (b, c) ↦ some (a, b, c) ]
]

pub known_version : Bytes → Bool
known_version v = v =ᵇ codes "HTTP/1.0" || v =ᵇ codes "HTTP/1.1"

-- The fields of the status line.
pub set_status : Option (Bytes × Bytes × Bytes) → HttpReqDesc → Outcome
set_status none r = (some (http_error protocol), r)
set_status (some (version, code, msg)) r =
    let r' = record r { be_status_version = to_upper version } in
    if known_version (to_upper version)
    then (
      none,
      record r' {
        be_status_code = code;
        be_status_msg = msg;
        be_status_code_grouped = group_http_status_code code;
      },
    )
    else (some (http_error protocol), r')

-- The response's headers for the client.
pub response_hdr : Env → Bytes → Header → Header
response_hdr env server hdr =
    let name = codes "X-Server-Name" in
    let hdr' =
      if not (env.server_hash_secret =ᵇ []) && get hdr name =ᵇ []
      then set hdr name (env.md5 (env.server_hash_secret ++ server))
      else hdr in
    del hdr' (codes "Keep-Alive")

-- One round of the loop: a header is read from the server and written to the client.
pub engress_header : Env → HttpReqDesc → Outcome
unfolding unless_failed set_status response_hdr split_3
engress_header env r =
    let s = split_http_header env.buffer_size r.be_reader in
    let r' = record r {
      be_status_line = s.head.status_line;
      be_hdr = s.head.hdr;
      be_reader = s.rest;
    } in
    unless_failed (s.failure, r')
      (λ r. unless_failed (set_status (split_3 r.be_status_line) r) (λ r.
        let hdr = response_hdr env r.be_server r.be_hdr in
        let (e, d) = write_http_header env.codec r.fe_writer r.be_status_line hdr in
        (e, record r { be_hdr = hdr; fe_writer = d })))

-- The part of the header `Expect` before a dash.
pub expect_code : Bytes → Bytes
expect_code expect = elim (cut_byte b'-' expect) [ none ↦ expect | some (code, rest) ↦ code ]

-- Whether the loop goes on behind its first round.
pub expected : HttpReqDesc → Bool
unfolding expect_code
expected r =
    let expect = get r.fe_hdr (codes "Expect") in
    not (expect =ᵇ []) && expect_code expect =ᵇ r.be_status_code

pub engress_body : Env → ℕ → ℤ × Option HttpErrGroup → HttpReqDesc → Outcome
engress_body env ready (n, some g) r = (some (http_error g), r)
engress_body env ready (n, none) r =
    let c =
      write_http_body env.codec ready r.fe_writer r.be_reader n
        (get r.be_hdr (codes "Transfer-Encoding")) in
    (c.failure, record r { fe_writer = c.dst; be_reader = c.rest })

pub serve_engress : Env → ℕ → HttpReqDesc → Outcome
unfolding unless_failed engress_header expected engress_body
serve_engress env ready r =
    unless_failed
      (unless_failed (engress_header env r)
        (λ r. if expected r then engress_header env r else (none, r)))
      (λ r.
        if r.fe_status_method =ᵇ codes "HEAD"
        then (none, r)
        else engress_body env ready (http_content_length (get r.be_hdr (codes "Content-Length"))) r)

-- Whether the response lets the server's connection be used again.
pub keeps_alive : HttpReqDesc → Bool
keeps_alive r =
    to_lower (get r.be_hdr (codes "Connection")) =ᵇ codes "keep-alive"
    && r.be_status_version =ᵇ codes "HTTP/1.1"

-- `serveAsync`; `buffered` counts the bytes that the reader of the server's connection holds at the
-- end. An error of the request's direction is returned before the response's is looked at.
pub serve_async : Env → ℕ → ℕ → ℕ → HttpReqDesc → Outcome
unfolding serve_ingress serve_engress keeps_alive
serve_async env ready_in ready_out buffered r = unless_failed (serve_ingress env ready_in r) (λ r.
    unless_failed (serve_engress env ready_out r) (λ r.
      if ltb 0 buffered
      then (some (http_error protocol), r)
      else (if keeps_alive r then (none, r) else (some (http_error communication), r))))
