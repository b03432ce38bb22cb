-- ===== src/HttpBackend/Exchange/Reuse.antt =====
-- When a server's connection is used again.
use simult.Prelude.{
  ℕ, ◌≡◌, refl, ◌↔◌, none, some, arith, ltb, if◌then◌else◌, codes, =ᵇ_iff, to_lower,
}
use simult.HttpBackend.Serve.{http_error, protocol, communication}
use simult.HttpCommon.Header.{get}
use simult.HttpBackend.Exchange.{
  Env, HttpReqDesc, Outcome, unless_failed, serve_ingress, serve_engress, keeps_alive, serve_async,
}

unless_failed-none :
    (o : Outcome) (f : HttpReqDesc → Outcome)
    → ((unless_failed o f).0 ≡ none) ↔ ((o.0 ≡ none) × ((f o.1).0 ≡ none))
unfolding unless_failed
unless_failed-none (none, r) f = (λ h. (refl, h), λ (e, h). h)
unless_failed-none (some e, r) f = (λ h. cc, λ (e, h). cc)

abbrev judge : ℕ → HttpReqDesc → Outcome
judge n r =
    if ltb 0 n
    then (some (http_error protocol), r)
    else (if keeps_alive r then (none, r) else (some (http_error communication), r))

-- The tests behind the exchange.
at_end :
    (n : ℕ) (r : HttpReqDesc)
    → ((judge n r).0 ≡ none) ↔ (
        (n ≡ 0)
        × (to_lower (get r.be_hdr (codes "Connection")) ≡ codes "keep-alive")
        × (r.be_status_version ≡ codes "HTTP/1.1"))
unfolding keeps_alive
at_end n r = (
  λ h.
      let c = =ᵇ_iff (to_lower (get r.be_hdr (codes "Connection"))) (codes "keep-alive") in
      let v = =ᵇ_iff r.be_status_version (codes "HTTP/1.1") in
      (ground arith, c.0 (ground arith), v.0 (ground arith)),
  λ h. rw (h.0, h.1, h.2) refl,
)

-- `serveAsync` returns no error just when neither direction fails, the reader of the server's
-- connection holds no further bytes, and the response is of HTTP/1.1 with `Connection: keep-alive`.
pub serve_async_reuses :
    (env : Env) (ready_in ready_out buffered : ℕ) (r : HttpReqDesc)
    → (let (e, r') = serve_ingress env ready_in r in
        let (f, r'') = serve_engress env ready_out r' in
        ((serve_async env ready_in ready_out buffered r).0 ≡ none) ↔ (
          (e ≡ none)
          × (f ≡ none)
          × (buffered ≡ 0)
          × (to_lower (get r''.be_hdr (codes "Connection")) ≡ codes "keep-alive")
          × (r''.be_status_version ≡ codes "HTTP/1.1")))
unfolding serve_async unless_failed keeps_alive
serve_async_reuses env i o n r = (
  λ h.
      (let (e, h') = (unless_failed-none _ _).0 h in
        let (f, h'') = (unless_failed-none _ _).0 h' in
        let (z, c, v) = (at_end n _).0 h'' in (e, f, z, c, v)),
  λ (e, f, z, c, v).
      (unless_failed-none _ _).1 (e, (unless_failed-none _ _).1 (f, (at_end n _).1 (z, c, v))),
)
