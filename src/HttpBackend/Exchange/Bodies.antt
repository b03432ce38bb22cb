-- ===== src/HttpBackend/Exchange/Bodies.antt =====
-- What the exchange does with the client's request.
use simult.Prelude.{
  ℕ, ◌+◌, ◌≤◌, ◌≡◌, refl, false, Option, none, some, [], ◌++◌, append_assoc, arith, ltb, length,
  take, drop, codes, pos, negsuc,
}
use simult.HttpBackend.Serve.{GoError}
use simult.HttpCommon.Header.{get}
use simult.HttpCommon.Fields.{http_content_length}
use simult.HttpCommon.Transfer.{Sink, write_http_header, write_http_body}
use simult.HttpCommon.Transfer.Exact.{
  header_text, written, write_http_header_fits, write_http_body_exact,
}
use simult.HttpBackend.Exchange.{Env, HttpReqDesc, unless_failed, ingress_body, serve_ingress}

-- Where the request has no `Content-Length`, `serveIngress` sends its header only and takes no byte
-- of the client's body, whatever its `Transfer-Encoding` is.
pub serve_ingress_unread :
    (env : Env) (ready : ℕ) (r : HttpReqDesc)
    → get r.fe_hdr (codes "Content-Length") ≡ []
    → (let (e, d) = write_http_header env.codec r.be_writer r.fe_status_line r.fe_hdr in
        serve_ingress env ready r ≡ (e, record r { be_writer = d }))
unfolding serve_ingress unless_failed ingress_body http_content_length write_http_body
serve_ingress_unread env ready r h =
    rw h (go (write_http_header env.codec r.be_writer r.fe_status_line r.fe_hdr))
  where
    go :
        (o : Option GoError × Sink)
        → unless_failed
            (o.0, record r { be_writer = o.1 })
            (ingress_body env ready (negsuc 0, none))
          ≡ (o.0, record r { be_writer = o.1 })
    go (none, d) = refl
    go (some e, d) = refl

-- Where the request has a `Content-Length` of `n` and no `Transfer-Encoding`, its body of `n` bytes
-- has come, and the connection takes it all, `serveIngress` sends the header and these bytes to the
-- server, and leaves what follows in the client's connection.
pub serve_ingress_exact :
    (env : Env) (ready n : ℕ) (r : HttpReqDesc)
    → http_content_length (get r.fe_hdr (codes "Content-Length")) ≡ (pos n, none)
    → get r.fe_hdr (codes "Transfer-Encoding") ≡ []
    → n ≤ length r.fe_reader
    → length (header_text env.codec r.fe_status_line r.fe_hdr) + n ≤ r.be_writer.room
    → (let (e, r') = serve_ingress env ready r in
        (e ≡ none)
        × (r'.be_writer.sent
            ≡ r.be_writer.sent
              ++ (header_text env.codec r.fe_status_line r.fe_hdr ++ take n r.fe_reader))
        × (r'.fe_reader ≡ drop n r.fe_reader))
unfolding serve_ingress unless_failed ingress_body
serve_ingress_exact env ready n r l t b k =
    rw
      (
        write_http_header_fits env.codec r.be_writer r.fe_status_line r.fe_hdr (omega arith),
        l,
        t,
        below n,
        write_http_body_exact env.codec ready
            (written r.be_writer (header_text env.codec r.fe_status_line r.fe_hdr)) r.fe_reader n b
            (omega arith),
      )
      (
        refl,
        append_assoc r.be_writer.sent (header_text env.codec r.fe_status_line r.fe_hdr)
            (take n r.fe_reader),
        refl,
      )
  where
    below : (n : ℕ) → ltb n 0 ≡ false
    below n = ground arith
