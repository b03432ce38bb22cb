-- ===== src/Tests/Backend.antt =====
-- The choice of a server, and the calls of a backend.
use mathlib.Core.List.{Permᴰ, Memᴰ}
use simult.Prelude.{
  ℕ, ◌-◌, ◌≡◌, refl, ◌≢◌, true, false, Option, none, some, List, [], ◌∷◌, length, take, Bytes,
  codes, pos,
}
use simult.BackendServer.{ServerUrl, build}
use simult.HttpCheck.{HttpCheck, new_http_check, zero_options}
use simult.HttpBackend.Select.{
  round_robin, least_conn, affinity_key, remote_ip, AffinityKey, Node, Store, Client, Wrh, picked,
  update_bss_nodes, find_server,
}
use simult.HttpBackend.Select.Nodes.{entries, update_bss_nodes-perm}
use simult.HttpBackend.Select.LeastConn.{
  AtMost, with_checks, least_conn_minimal, least_conn_ignores_health,
}
use simult.HttpBackend.Select.Affinity.{Honest}
use simult.HttpBackend.Select.Healthy.{PickHealthy, find_server-Healthy}
use simult.HttpBackend.Serve.{HttpBackend, HttpReqDesc, World, connects, expires, serve}
use simult.HttpBackend.Serve.Outcomes.{Replied, serve_outcomes}
use simult.HttpBackend.Serve.Released.{servers_after, serve-active}

abbrev url : ServerUrl
url = record { scheme = codes "http"; host = codes "h:80"; port = codes "80" }

-- Server `i` has `3 - i` active connections and the weight `i`.
abbrev store : Store
store i = record (build url (codes "h:80") false) { active_conn_count = pos (3 - i); weight = i }

abbrev bss : Bytes → ℕ
bss name = length name

abbrev names : List Bytes
names = codes "bb" ∷ codes "a" ∷ []

-- A library that answers the first node, and keeps the order.
abbrev wrh : Wrh
wrh = record { responsible_nodes2 = λ ns key k. take 1 ns; sort_nodes = λ ns. ns }

take_mem : (ns : List Node) (n : Node) → Memᴰ n (take 1 ns) → Memᴰ n ns
take_mem [] n m = m
take_mem (x ∷ ns) n (Memᴰ.head e) = Memᴰ.head e
take_mem (x ∷ ns) n (Memᴰ.tail p) = elim p [ ]

wrh-Honest : Honest wrh
wrh-Honest = record { responsible_mem = λ ns key k n m. take_mem ns n m; sort_mem = λ ns n m. m }

abbrev key : AffinityKey
key = record { kind = remote_ip; key = []; max_servers = pos 2; threshold = pos 1 }

abbrev client : Client
client = record {
  fe_remote_ip = codes "10.1.2.3";
  fe_real_ip = codes "10.1.2.3";
  fe_hdr_get = λ name. [];
  fe_cookies = [];
}

abbrev node1 : Node
node1 = record { seed = 0; weight = 1; bs = 1 }

abbrev node2 : Node
node2 = record { seed = 1; weight = 2; bs = 2 }

update_bss_nodes-perm_example :
    update_bss_nodes store (entries bss names)
    ≡ update_bss_nodes store (entries bss (codes "a" ∷ codes "bb" ∷ []))
update_bss_nodes-perm_example =
    update_bss_nodes-perm store bss {names = names} {names' = codes "a" ∷ codes "bb" ∷ []}
      (Permᴰ.swap refl refl)

least_conn_minimal_example :
    (i : ℕ) × (find_server wrh store key (node1 ∷ node2 ∷ []) client [] least_conn
      ≡ picked (some i))
    × AtMost store i (node1 ∷ node2 ∷ [])
least_conn_minimal_example =
    least_conn_minimal wrh store key node1 (node2 ∷ []) client [] (refl, (refl, tt))

-- A check that has not found its server healthy yet.
abbrev failing : ℕ → Option HttpCheck
failing i = some (new_http_check zero_options)

least_conn_ignores_health_example :
    find_server wrh
      (with_checks failing store)
      key
      (update_bss_nodes (with_checks failing store) (entries bss names))
      client
      []
      least_conn
    ≡ find_server wrh store key (update_bss_nodes store (entries bss names)) client [] least_conn
least_conn_ignores_health_example =
    least_conn_ignores_health wrh store store failing failing (entries bss names) key client []

affinity≢least : affinity_key ≢ least_conn
affinity≢least = λ e. cc

find_server-Healthy_example :
    PickHealthy store (
      find_server wrh store key (update_bss_nodes store (entries bss names)) client [] affinity_key)
find_server-Healthy_example =
    find_server-Healthy wrh wrh-Honest store store (entries bss names) key client [] affinity_key
      affinity≢least

abbrev backend : HttpBackend
backend = record {
  name = codes "first";
  max_conn = pos 10;
  server_max_conn = pos 5;
  server_max_idle_conn = pos 2;
  override_errors = codes "sorry";
  mode = round_robin;
  affinity_key = key;
  conn_count = pos 2;
}

abbrev world : World
world = record {
  wrh = wrh;
  nodes = node2 ∷ [];
  client = client;
  bval = [];
  servers = store;
  dial = connects;
  exchange = expires;
  meanwhile = λ s. s;
}

abbrev req_desc : HttpReqDesc
req_desc = record {
  be_final = true;
  be_name = codes "first";
  be_server = [];
  be_conn = none;
  pages = [];
  fe_closed = false;
}

serve_outcomes_example : Replied backend world req_desc (serve backend world req_desc)
serve_outcomes_example = serve_outcomes backend world req_desc

serve-active_example :
    (servers_after world (serve backend world req_desc) 2).active_conn_count
    ≡ (store 2).active_conn_count
serve-active_example = serve-active backend world req_desc (λ t. refl) 2
