-- ===== src/HttpFrontend/Serve/Pages.antt =====
-- What a client is sent for the bytes of its request.
use simult.Prelude.{ℕ, ◌≡◌, refl, inl, Bool, Option, none, some, Bytes, Result, ok, err}
use simult.HttpBackend.Serve.{HttpReqDesc}
use simult.HttpFrontend.Request.{Client, Refusal, Request}
use simult.HttpFrontend.Failover.Pages.{Settled, Stocked, AllStocked, one_page}
use simult.HttpFrontend.Serve.{Site, route_request, party_of, on_request, serve_bytes}
use simult.HttpFrontend.Route.{find_backend}

party_of-AllStocked :
    (site : Site) (r : Request) (o : Option ℕ)
    → ((i : ℕ) → Stocked (site.party i))
    → AllStocked (party_of site r o)
unfolding party_of
party_of-AllStocked site r none t = tt
party_of-AllStocked site r (some i) t = record { nodes = (t i).nodes; answers = (t i).answers }

on_request-Settled :
    (site : Site) (remote : Option Bytes) (buffered : Bool) (q : HttpReqDesc)
    (r : Result Refusal Request)
    → ((i : ℕ) → Stocked (site.party i))
    → q.be_conn ≡ none
    → Settled q (on_request site remote buffered q r)
unfolding on_request
on_request-Settled site remote buffered q (err f) t c = (_, _, refl, inl (_, refl, c))
on_request-Settled site remote buffered q (ok r) t c =
    let (b, bb) = (find_backend site.defaults (route_request site remote r) site.routes).0 in
    one_page (party_of site r b) (party_of site r bb) buffered q (party_of-AllStocked site r b t)
      (party_of-AllStocked site r bb t) c

-- Whatever bytes a client sends, for a request that comes without a connection to a backend, where each
-- backend in the mode roundrobin has nodes and the library answers one of the nodes it is given,
-- `serveAsync` returns without a panic, and either the client was sent exactly one page and the request
-- has no connection to a backend, or it was sent none and has one.
pub serve_bytes-Settled :
    (site : Site) (c : Client) (remote : Option Bytes) (reader : Bytes) (buffered : Bool)
    (q : HttpReqDesc)
    → ((i : ℕ) → Stocked (site.party i))
    → q.be_conn ≡ none
    → Settled q (serve_bytes site c remote reader buffered q)
unfolding serve_bytes
serve_bytes-Settled site c remote reader buffered q t n =
    on_request-Settled site remote buffered q _ t n
