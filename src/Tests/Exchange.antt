-- ===== src/Tests/Exchange.antt =====
-- Headers and the exchange with a server.
use simult.Prelude.{
  ℕ, ◌≡◌, refl, ◌↔◌, true, none, List, [], ◌∷◌, ◌++◌, arith, take, drop, Bytes, codes, to_lower,
}
use simult.HttpCommon.Header.{Header, get}
use simult.HttpCommon.Fields.{http_content_length, parse_uint}
use simult.HttpCommon.Head.{split_http_header}
use simult.HttpCommon.Head.Reference.{Agree, split_lines, split_http_header-Agree}
use simult.HttpCommon.Transfer.{write_http_header}
use simult.HttpCommon.Transfer.Exact.{header_text}
use simult.HttpBackend.Exchange.{Env, HttpReqDesc, serve_ingress, serve_engress, serve_async}
use simult.HttpBackend.Exchange.Bodies.{serve_ingress_unread, serve_ingress_exact}
use simult.HttpBackend.Exchange.Reuse.{serve_async_reuses}

abbrev text : Bytes
text = codes "GET / HTTP/1.1\r\nHost: h\r\n\r\nbody"

split_http_header-Agree_example : Agree (split_http_header 16 text) (split_lines text)
split_http_header-Agree_example = split_http_header-Agree 16 text (omega arith)

abbrev lines : Bytes → List Bytes → Bytes
lines key [] = []
lines key (v ∷ vs) = key ++ (codes ": " ++ (v ++ (codes "\r\n" ++ lines key vs)))

abbrev print : Header → Bytes
print [] = []
print ((key, vs) ∷ hdr) = lines key vs ++ print hdr

abbrev env : Env
env = record {
  codec = record { print = print; decode = λ s. ([], s, true); encode = λ s. s };
  md5 = λ s. s;
  buffer_size = 16;
  server_hash_secret = [];
}

abbrev request : Header → HttpReqDesc
request hdr = record {
  fe_status_line = codes "POST / HTTP/1.1";
  fe_hdr = hdr;
  fe_status_method = codes "POST";
  fe_reader = codes "3\r\nabc\r\n0\r\n\r\n";
  fe_writer = record { sent = []; room = 1000 };
  be_server = codes "http://h:80";
  be_status_line = [];
  be_hdr = [];
  be_status_version = [];
  be_status_code = [];
  be_status_msg = [];
  be_status_code_grouped = [];
  be_reader = codes "HTTP/1.1 200 OK\r\nContent-Length: 0\r\n\r\n";
  be_writer = record { sent = []; room = 1000 };
}

abbrev chunked : HttpReqDesc
chunked = request ((codes "Transfer-Encoding", codes "chunked" ∷ []) ∷ [])

serve_ingress_unread_example : serve_ingress env 2 chunked ≡ (
  (write_http_header env.codec chunked.be_writer chunked.fe_status_line chunked.fe_hdr).0,
  record chunked {
    be_writer =
        (write_http_header env.codec chunked.be_writer chunked.fe_status_line chunked.fe_hdr).1;
  },
)
unfolding get
serve_ingress_unread_example = serve_ingress_unread env 2 chunked refl

abbrev sized : HttpReqDesc
sized = request ((codes "Content-Length", codes "4" ∷ []) ∷ [])

serve_ingress_exact_example :
    ((serve_ingress env 2 sized).0 ≡ none)
    × ((serve_ingress env 2 sized).1.be_writer.sent
        ≡ header_text env.codec sized.fe_status_line sized.fe_hdr ++ take 4 sized.fe_reader)
    × ((serve_ingress env 2 sized).1.fe_reader ≡ drop 4 sized.fe_reader)
unfolding get http_content_length parse_uint
serve_ingress_exact_example =
    serve_ingress_exact env 2 4 sized refl refl (omega arith) (omega arith)

abbrev answered : HttpReqDesc
answered = (serve_engress env 2 (serve_ingress env 2 sized).1).1

abbrev unread : ℕ
unread = 0

serve_async_reuses_example : ((serve_async env 2 2 0 sized).0 ≡ none) ↔ (
    ((serve_ingress env 2 sized).0 ≡ none)
    × ((serve_engress env 2 (serve_ingress env 2 sized).1).0 ≡ none)
    × (unread ≡ 0)
    × (to_lower (get answered.be_hdr (codes "Connection")) ≡ codes "keep-alive")
    × (answered.be_status_version ≡ codes "HTTP/1.1"))
serve_async_reuses_example = serve_async_reuses env 2 2 0 sized
