-- ===== src/HttpFrontend/Request.antt =====
-- pkg/lb/httpfrontend.go, `serveAsync` up to the choice of a backend: the header, the status line,
-- the URL, the cookies and the client's addresses. The URL parser is a parameter.
use simult.Prelude.{
  Bool, not, ◌&&◌, Option, none, some, List, [], ◌∷◌, ◌++◌, if◌then◌else◌, Bytes, codes, ◌=ᵇ◌,
  cut_byte, strip_prefix, to_upper, Result, ◌>>=◌, ◌>>◌, fail_if, require, ok, err,
}
use simult.HttpBackend.Serve.{
  GoError, http_error, protocol, request_timeout, Page, bad_request, timed_out,
  version_not_supported,
}
use simult.HttpBackend.Exchange.{split_3, known_version}
use simult.HttpCommon.Header.{Header, get, values}
use simult.HttpCommon.Head.{Split}
use simult.HttpCommon.Fields.{group_http_status_method}
use simult.HttpCookie.{Cookie, read_cookies, trim_space}

-- The fields of `url.URL` that the program uses.
pub record Url : Type 0 where
  pub scheme : Bytes
  pub host : Bytes
  pub path : Bytes
  pub raw_path : Bytes

-- The fields of the descriptor that are known before a backend is chosen.
pub record Request : Type 0 where
  pub fe_status_line : Bytes
  pub fe_hdr : Header
  pub fe_status_method : Bytes
  pub fe_status_uri : Bytes
  pub fe_status_version : Bytes
  pub fe_status_method_grouped : Bytes
  pub fe_url : Url
  pub fe_cookies : List Cookie
  pub fe_remote_ip : Bytes
  pub fe_real_ip : Bytes

-- An early return: the error, and what the client is sent.
pub record Refusal : Type 0 where
  pub error : GoError
  pub page : Page

-- The client's connection: whether it has TLS, whether this request is its first, whether a failing
-- read was a timeout, and its address, which is empty if it is not one of TCP.
pub record Client : Type 0 where
  pub le_tls : Bool
  pub first_request : Bool
  pub read_timed_out : Bool
  pub remote_ip : Bytes

-- The answer to a header that cannot be read.
pub unreadable : Client → GoError → Refusal
unreadable c e =
    if c.first_request && c.read_timed_out
    then record { error = http_error request_timeout; page = timed_out }
    else record { error = e; page = bad_request }

pub check_header : Client → Option GoError → Result Refusal (Unit {0})
unfolding unreadable
check_header c none = ok tt
check_header c (some e) = err (unreadable c e)

abbrev slash : Bytes
slash = b'/' ∷ []

-- `strings.TrimPrefix(s, "/")`.
pub trim_slash : Bytes → Bytes
trim_slash s = elim (strip_prefix slash s) [ none ↦ s | some t ↦ t ]

-- The URL for the header `Host` and the part of the URI behind its slash.
pub full_url : (Bytes → Option Url) → Bytes → Bytes → Bytes → Option Url
full_url url_parse scheme host uri =
    if host =ᵇ []
    then elim (url_parse (scheme ++ (codes "://host/" ++ uri))) [
      | none ↦ none
      | some u ↦ some (record u { host = [] })
    ]
    else elim (cut_byte b'/' host) [
      | none ↦ url_parse (scheme ++ (codes "://" ++ (host ++ (slash ++ uri))))
      | some _ ↦ none
    ]

-- A URI that does not start with a slash loses the one that was put in front of it.
pub without_slash : Bytes → Url → Url
unfolding trim_slash
without_slash uri u =
    if trim_slash uri =ᵇ uri
    then record u { path = trim_slash u.path; raw_path = trim_slash u.raw_path }
    else u

-- `strings.SplitN(s, ",", 2)[0]`.
pub before_comma : Bytes → Bytes
before_comma s = elim (cut_byte b',' s) [ none ↦ s | some (first, rest) ↦ first ]

pub real_ip : Header → Bytes → Bytes
unfolding before_comma
real_ip hdr remote_ip =
    let forwarded = trim_space (before_comma (get hdr (codes "X-Forwarded-For"))) in
    if get hdr (codes "X-Real-IP") =ᵇ []
    then (if forwarded =ᵇ [] then remote_ip else forwarded)
    else get hdr (codes "X-Real-IP")

-- The request that the header gives, or the early return.
pub read_request : (Bytes → Option Url) → Client → Split → Result Refusal Request
unfolding check_header full_url without_slash real_ip
read_request url_parse c s = do
  check_header c s.failure
  (method, uri, version) ←
      require (record { error = http_error protocol; page = bad_request })
        (split_3 s.head.status_line)
  fail_if (not (known_version (to_upper version)))
      (record { error = http_error protocol; page = version_not_supported })
  u ←
      require (record { error = http_error protocol; page = bad_request })
        (full_url url_parse (if c.le_tls then codes "https" else codes "http")
          (get s.head.hdr (codes "Host")) (trim_slash uri))
  ok (record {
    fe_status_line = s.head.status_line;
    fe_hdr = s.head.hdr;
    fe_status_method = to_upper method;
    fe_status_uri = uri;
    fe_status_version = to_upper version;
    fe_status_method_grouped = group_http_status_method (to_upper method);
    fe_url = without_slash uri u;
    fe_cookies = read_cookies (values (codes "Cookie") s.head.hdr) [];
    fe_remote_ip = c.remote_ip;
    fe_real_ip = real_ip s.head.hdr c.remote_ip;
  })
