-- ===== src/Tests/Frontend.antt =====
-- Patterns, routes, failover and connections of the frontend.
use simult.Prelude.{
  ◌≡◌, refl, ◌↔◌, true, false, not, ◌&&◌, none, some, List, [], ◌∷◌, ◌++◌, ltb, if◌then◌else◌,
  is_some, any, all, Bytes, codes, ◌=ᵇ◌, to_lower, is_digit, pos, negsuc,
}
use simult.HostPort.{split_host_port}
use simult.HostPort.RoundTrip.{split_host_port-print}
use simult.BackendServer.{ServerUrl, build}
use simult.HttpCommon.Paths.{IsNormal, normalize_path, normalize_path-IsNormal}
use simult.HttpCommon.Fields.{bound, http_content_length}
use simult.HttpCommon.Fields.Length.{decimal, http_content_length-meaning}
use simult.HttpBackend.Serve.{HttpReqDesc, connects, fails, ends, protocol}
use simult.HttpBackend.Select.{round_robin, remote_ip}
use simult.HttpFrontend.Pattern.{
  lit, dot, dot_star, Atom, match_string, match_runes, runes, pattern_to_rgx,
}
use simult.HttpFrontend.Pattern.Match.{Denotes}
use simult.HttpFrontend.Pattern.Compile.{accepts, glob, pattern_means_glob}
use simult.HttpFrontend.Route.{
  IpNet, HttpFrontendRestriction, HttpFrontendRoute, restriction_ok, is_route_restricted,
  net_contains, matches, Request, Defaults, find_backend, masked_eq, to4, cut_mask, IpNet,
}
use simult.HttpFrontend.Route.Groups.{groups, is_route_restricted-groups, invert_keeps_mixed}
use simult.HttpFrontend.Route.Choice.{Decides, find_backend-Decides}
use simult.HttpFrontend.Failover.{Party}
use simult.HttpFrontend.Failover.Pages.{Settled}
use simult.HttpFrontend.Request.{Client}
use simult.HttpFrontend.Serve.{Site, serve_bytes}
use simult.HttpFrontend.Serve.Pages.{serve_bytes-Settled}
use simult.HttpFrontend.Connection.{
  HttpFrontendOptions, Turn, requests, ends as turn_ends, Connection, serve, loop, turn, answer,
  serve_request, over_limits, opened, shut,
}
use simult.HttpFrontend.Connection.Bounds.{Returned, serve-Returned}

-- "café.com", where é takes two bytes.
abbrev cafe : Bytes
cafe = codes "caf" ++ 195 ∷ 169 ∷ codes ".com"

pattern_means_glob_example :
    (is_some (pattern_to_rgx (codes "Caf?.*")) ≡ true)
    × ((accepts (pattern_to_rgx (codes "Caf?.*")) cafe ≡ true)
        ↔ Denotes (glob (to_lower (codes "Caf?.*"))) (runes cafe))
pattern_means_glob_example = pattern_means_glob (codes "Caf?.*") refl cafe

cafe-runes : runes cafe ≡ codes "caf" ++ 233 ∷ codes ".com"
unfolding runes
cafe-runes = refl

-- One code point is matched by `?`; a lone byte of it is one character too, and two are two.
question_runes :
    (match_string (dot ∷ []) (195 ∷ 169 ∷ []) ≡ true)
    × (match_string (dot ∷ []) (195 ∷ []) ≡ true)
    × (match_string (dot ∷ []) (169 ∷ 169 ∷ []) ≡ false)
unfolding match_string match_runes runes
question_runes = (refl, refl, refl)

-- The network 10.0.0.0/8.
abbrev net10 : IpNet
net10 = record { ip = 10 ∷ 0 ∷ 0 ∷ 0 ∷ []; mask = 255 ∷ 0 ∷ 0 ∷ 0 ∷ [] }

abbrev admin : List Atom
admin = lit b'/' ∷ lit b'a' ∷ []

-- Clients of the network, or the path `/a`.
abbrev mixed : HttpFrontendRestriction
mixed = record {
  network = some net10;
  path = codes "/a";
  invert = false;
  and_after = true;
  path_rgx = some (some admin);
}

abbrev route : HttpFrontendRoute
route = record {
  host = codes "*";
  path = codes "*";
  backend = some 1;
  backup = none;
  restrictions = mixed ∷ record mixed { invert = true; and_after = false } ∷ [];
  host_rgx = some (dot_star ∷ []);
  path_rgx = some (dot_star ∷ []);
}

is_route_restricted-groups_example :
    is_route_restricted (some (10 ∷ 1 ∷ 2 ∷ 3 ∷ [])) (codes "/b") route
    ≡ any
        (all (restriction_ok (some (10 ∷ 1 ∷ 2 ∷ 3 ∷ [])) (codes "/b")))
        (groups [] route.restrictions)
is_route_restricted-groups_example =
    is_route_restricted-groups (some (10 ∷ 1 ∷ 2 ∷ 3 ∷ [])) (codes "/b") route

invert_keeps_mixed_example :
    (restriction_ok (some (10 ∷ 1 ∷ 2 ∷ 3 ∷ [])) (codes "/b") mixed ≡ true)
    × (restriction_ok
          (some (10 ∷ 1 ∷ 2 ∷ 3 ∷ []))
          (codes "/b")
          (record mixed { invert = not mixed.invert })
        ≡ true)
unfolding net_contains matches match_string match_runes runes masked_eq to4 cut_mask
invert_keeps_mixed_example =
    invert_keeps_mixed mixed (10 ∷ 1 ∷ 2 ∷ 3 ∷ []) (codes "/b") net10 (some admin) refl refl refl

-- The mapped network ::ffff:10.0.0.0/104 holds the IPv4 clients of 10.0.0.0/8.
abbrev mapped10 : IpNet
mapped10 = record {
  ip = 0 ∷ 0 ∷ 0 ∷ 0 ∷ 0 ∷ 0 ∷ 0 ∷ 0 ∷ 0 ∷ 0 ∷ 255 ∷ 255 ∷ 10 ∷ 0 ∷ 0 ∷ 0 ∷ [];
  mask =
      255 ∷ 255 ∷ 255 ∷ 255 ∷ 255 ∷ 255 ∷ 255 ∷ 255 ∷ 255 ∷ 255 ∷ 255 ∷ 255 ∷ 255 ∷ 0 ∷ 0 ∷ 0 ∷ [];
}

mapped_network :
    (net_contains mapped10 (10 ∷ 1 ∷ 2 ∷ 3 ∷ []) ≡ true)
    × (net_contains mapped10 (11 ∷ 1 ∷ 2 ∷ 3 ∷ []) ≡ false)
unfolding net_contains masked_eq to4 cut_mask
mapped_network = (refl, refl)

abbrev request : Request
request = record {
  remote = some (10 ∷ 1 ∷ 2 ∷ 3 ∷ []);
  url_host = codes "example.com";
  url_path = codes "/b";
  fe_host = [];
  fe_path = [];
}

abbrev defaults : Defaults
defaults = record { default_backend = some 7; default_backup = none }

find_backend-Decides_example :
    Decides defaults request (route ∷ []) (find_backend defaults request (route ∷ []))
find_backend-Decides_example = find_backend-Decides defaults request (route ∷ [])

normalize_path-IsNormal_example :
    IsNormal (normalize_path (codes "//a/./b"))
    × (IsNormal (codes "//a/./b") ↔ (normalize_path (codes "//a/./b") ≡ codes "//a/./b"))
    × (normalize_path (normalize_path (codes "//a/./b")) ≡ normalize_path (codes "//a/./b"))
normalize_path-IsNormal_example = normalize_path-IsNormal (codes "//a/./b")

http_content_length-meaning_example : http_content_length (codes "120") ≡ (
    if codes "120" =ᵇ []
    then (negsuc 0, none)
    else if all is_digit (codes "120") && ltb (decimal 0 (codes "120")) bound
    then (pos (decimal 0 (codes "120")), none)
    else (negsuc 0, some protocol))
http_content_length-meaning_example = http_content_length-meaning (codes "120")

abbrev url : ServerUrl
url = record { scheme = codes "http"; host = codes "h:80"; port = codes "80" }

-- A backend whose server refuses the connection, and one whose server answers.
abbrev refusing : Party
refusing = record {
  backend = record {
    name = codes "first";
    max_conn = pos 10;
    server_max_conn = pos 5;
    server_max_idle_conn = pos 2;
    override_errors = [];
    mode = round_robin;
    affinity_key = record { kind = remote_ip; key = []; max_servers = pos 1; threshold = pos 1 };
    conn_count = pos 0;
  };
  world = record {
    wrh = record { responsible_nodes2 = λ ns key k. ns; sort_nodes = λ ns. ns };
    nodes = record { seed = 0; weight = 1; bs = 0 } ∷ [];
    client = record {
      fe_remote_ip = [];
      fe_real_ip = [];
      fe_hdr_get = λ name. [];
      fe_cookies = [];
    };
    bval = [];
    servers = λ i. build url (codes "h:80") false;
    dial = fails;
    exchange = ends none;
    meanwhile = λ s. s;
  };
}

abbrev answering : Party
answering = record refusing { world = record (refusing.world) { dial = connects } }

abbrev req_desc : HttpReqDesc
req_desc = record {
  be_final = false;
  be_name = [];
  be_server = [];
  be_conn = none;
  pages = [];
  fe_closed = false;
}

abbrev site : Site
site = record {
  url_parse = λ s.
      some (record { scheme = codes "http"; host = codes "h"; path = codes "/a"; raw_path = [] });
  hostname = λ u. u.host;
  buffer_size = 16;
  defaults = defaults;
  routes = route ∷ [];
  party = λ i. answering;
}

abbrev client : Client
client = record {
  le_tls = false;
  first_request = true;
  read_timed_out = false;
  remote_ip = codes "10.0.0.1";
}

abbrev sent : Bytes
sent = codes "GET /a HTTP/1.1\r\nHost: h\r\n\r\n"

serve_bytes-Settled_example : Settled req_desc (serve_bytes site client none sent false req_desc)
serve_bytes-Settled_example =
    serve_bytes-Settled site client none sent false req_desc
      (λ i. record { nodes = λ e x. cc; answers = λ ns key n. n }) refl

abbrev frontend_options : HttpFrontendOptions
frontend_options = record {
  max_conn = pos 100;
  max_idle_conn = pos 10;
  max_keep_alive_reqs = pos 1;
}

abbrev fresh : Connection
fresh = record {
  total_conn_count = pos 3;
  waiting_conn_count = pos 1;
  idle_conn_count = pos 1;
  active_conn_count = pos 1;
  req_idx = 0;
  done = false;
  served = 0;
  pages = 0;
  reading = false;
}

abbrev turns : List Turn
turns = requests false (pos 1) ∷ turn_ends ∷ []

serve-Returned_example : Returned frontend_options fresh (serve frontend_options turns fresh)
unfolding serve loop turn answer serve_request over_limits opened shut
serve-Returned_example =
    serve-Returned frontend_options turns fresh
      (record { first = refl; going = refl; unserved = refl; unanswered = refl; unread = refl })
      refl

split_host_port-print_example :
    (split_host_port (codes "::1" ++ b':' ∷ codes "80") ≡ (codes "::1", codes "80"))
    × (split_host_port ((b'[' ∷ codes "::1" ++ b']' ∷ []) ++ b':' ∷ codes "80")
        ≡ (codes "::1", codes "80"))
split_host_port-print_example = split_host_port-print (codes "::1") (codes "80") refl refl
