-- ===== src/HttpFrontend/Serve.antt =====
-- pkg/lb/httpfrontend.go: the whole of `serveAsync`, from the client's bytes to its answer, and
-- `serve` with its timeout. The metrics are left out.
pub mod Pages
use simult.Prelude.{
  ℕ, ◌-◌, ◌/◌, Bool, true, false, Option, none, some, List, [], ◌∷◌, map, Bytes, Result, ok, err,
}
use simult.HttpBackend.Serve.{
  HttpErrGroup, frontend_timeout, GoError, http_error, other, HttpReqDesc,
}
use simult.HttpBackend.Select
use simult.HttpCookie.{Cookie}
use simult.HttpCommon.Header.{get}
use simult.HttpCommon.Head.{split_http_header}
use simult.HttpFrontend.Route.{HttpFrontendRoute, Defaults, find_backend, Request as RouteRequest}
use simult.HttpFrontend.Request.{Url, Client, Refusal, Request as ClientRequest, read_request}
use simult.HttpFrontend.Failover.{Party, Answer, returns, panics, serve_async}

-- The frontend's options and what `net/url` does; `party` is the backend with a number and what its
-- call meets, but for the client, which the request gives.
pub record Site : Type 0 where
  pub url_parse : Bytes → Option Url
  pub hostname : Url → Bytes
  pub buffer_size : ℕ
  pub defaults : Defaults
  pub routes : List HttpFrontendRoute
  pub party : ℕ → Party

-- What `findBackend` reads of the request; `remote` is the address of a TCP client.
pub route_request : Site → Option Bytes → ClientRequest → RouteRequest
route_request site remote r = record {
  remote = remote;
  url_host = site.hostname r.fe_url;
  url_path = r.fe_url.path;
  fe_host = [];
  fe_path = [];
}

-- What `findServer` reads of the request.
pub client_of : ClientRequest → Select.Client
client_of r = record {
  fe_remote_ip = r.fe_remote_ip;
  fe_real_ip = r.fe_real_ip;
  fe_hdr_get = get r.fe_hdr;
  fe_cookies = map (λ (c : Cookie). (c.name, c.value)) r.fe_cookies;
}

pub party_of : Site → ClientRequest → Option ℕ → Option Party
unfolding client_of
party_of site r none = none
party_of site r (some i) =
    let p = site.party i in some (record p { world = record (p.world) { client = client_of r } })

-- What follows the reading of the request.
pub on_request : Site → Option Bytes → Bool → HttpReqDesc → Result Refusal ClientRequest → Answer
unfolding route_request party_of
on_request site remote buffered q (err f) =
    returns (some f.error) (record q { pages = f.page ∷ q.pages })
on_request site remote buffered q (ok r) =
    let (b, bb) = (find_backend site.defaults (route_request site remote r) site.routes).0 in
    serve_async (party_of site r b) (party_of site r bb) buffered q

-- `serveAsync` on the bytes that the client sends.
pub serve_bytes : Site → Client → Option Bytes → Bytes → Bool → HttpReqDesc → Answer
unfolding on_request
serve_bytes site c remote reader buffered q =
    on_request site remote buffered q
      (read_request site.url_parse c (split_http_header site.buffer_size reader))

-- The end of `serve`: an error closes the client's connection. `expired` tells that the context ended
-- before `serveAsync` did, whose answer is then waited for and dropped.
pub serve : Bool → Answer → Answer
serve expired panics = panics
serve true (returns e q) =
    returns (some (http_error frontend_timeout)) (record q { fe_closed = true })
serve false (returns none q) = returns none q
serve false (returns (some e) q) = returns (some e) (record q { fe_closed = true })
