-- ===== src/HttpBackend/Select.antt =====
-- pkg/lb/httpbackend.go: the nodes of a backend (`updateBssNodes`) and the choice of a server
-- (`findServer`). A server object is a number under which `store` keeps it. The library wrh, which
-- is not part of the repository, and its order of nodes are parameters.
pub mod Nodes
pub mod LeastConn
pub mod Affinity
pub mod Healthy
use simult.Prelude.{
  ℕ, zero, suc, ◌-◌, ◌*◌, ◌/◌, Bool, true, false, not, ◌&&◌, ◌||◌, Option, none, some, List, [],
  ◌∷◌, map, ltb, ◌==◌, if◌then◌else◌, length, ℤ, leb_ℤ, ltb_ℤ, Bytes, ◌=ᵇ◌, pos, negsuc,
}
use simult.BackendServer.{BackendServer, healthy}

pub data HttpBackendMode : Type 0 where
  round_robin least_conn affinity_key : HttpBackendMode

pub data HttpBackendAffinityKeyKind : Type 0 where
  remote_ip real_ip http_header http_cookie : HttpBackendAffinityKeyKind

pub record AffinityKey : Type 0 where
  pub kind : HttpBackendAffinityKeyKind
  pub key : Bytes
  pub max_servers : ℤ
  pub threshold : ℤ

-- `wrh.Node`; `bs` is its `Data`.
pub record Node : Type 0 where
  pub seed : ℕ
  pub weight : ℕ
  pub bs : ℕ

-- `bss`: the servers by their names.
abbrev pub Servers : Type 0
Servers = List (Bytes × ℕ)

abbrev pub Store : Type 0
Store = ℕ → BackendServer

-- The order of `sort.StringSlice`.
pub leb_bytes : Bytes → Bytes → Bool
leb_bytes [] t = true
leb_bytes (c ∷ s) [] = false
leb_bytes (c ∷ s) (d ∷ t) = let rest = leb_bytes s t in if c == d then rest else ltb c d

pub insert : Bytes × ℕ → Servers → Servers
insert e [] = e ∷ []
insert e (f ∷ fs) = if leb_bytes e.0 f.0 then e ∷ f ∷ fs else f ∷ insert e fs

-- `sort.Sort` over the names, each with the server that the map has for it.
pub sort_servers : Servers → Servers
unfolding insert
sort_servers [] = []
sort_servers (e ∷ es) = insert e (sort_servers es)

pub node_weight : BackendServer → ℕ
node_weight s = if healthy s then s.weight else 0

pub number : ℕ → Store → Servers → List Node
unfolding node_weight
number seed store [] = []
number seed store ((name, i) ∷ es) =
    record { seed = seed; weight = node_weight (store i); bs = i } ∷ number (suc seed) store es

-- `updateBssNodes`, without its metrics; the map's order is that of the list.
pub update_bss_nodes : Store → Servers → List Node
update_bss_nodes store bss = number 0 store (sort_servers bss)

-- What the choice of a server reads of a request.
pub record Client : Type 0 where
  pub fe_remote_ip : Bytes
  pub fe_real_ip : Bytes
  pub fe_hdr_get : Bytes → Bytes
  pub fe_cookies : List (Bytes × Bytes)

pub cookie_value : Bytes → List (Bytes × Bytes) → Bytes
cookie_value key [] = []
cookie_value key ((name, value) ∷ cs) = if name =ᵇ key then value else cookie_value key cs

pub affinity_value : AffinityKey → Client → HttpBackendAffinityKeyKind → Bytes
affinity_value a q remote_ip = q.fe_remote_ip
affinity_value a q real_ip = q.fe_real_ip
affinity_value a q http_header = q.fe_hdr_get a.key
affinity_value a q http_cookie = cookie_value a.key q.fe_cookies

-- A random value stands in for an empty one.
abbrev pub or_random : Bytes → Bytes → Bytes
or_random [] bval = bval
or_random (c ∷ s) bval = c ∷ s

-- The `switch` on `maxServers`.
pub clamp_max_servers : ℤ → ℕ → ℕ
clamp_max_servers (pos zero) n = 1
clamp_max_servers (pos (suc m)) n = if ltb n (suc m) then n else suc m
clamp_max_servers (negsuc m) n = n

-- `none` is a nil server, and `panics` an index out of range.
pub data Pick : Type 0 where
  picked : Option ℕ → Pick
  panics : Pick

-- The branch of `roundrobin`, on `respNodes`.
unfoldable pub first_node : List Node → Pick
first_node [] = panics
first_node (n ∷ ns) = picked (if ltb 0 n.weight then some n.bs else none)

abbrev pub active : Store → ℕ → ℤ
active store i = (store i).active_conn_count

-- `bs == nil || bs.activeConnCount > bsr.activeConnCount`.
pub better : Store → Option ℕ → ℕ → Bool
better store none i = true
better store (some b) i = ltb_ℤ (active store i) (active store b)

-- The loop of `leastconn`, over its variable `bs`.
pub least : Store → Option ℕ → List Node → Option ℕ
unfolding better
least store b [] = b
least store b (n ∷ ns) =
    elim (leb_ℤ (active store n.bs) (pos 0) && leb_ℤ (pos 0) (active store n.bs)) [
      | true ↦ some n.bs
      | false ↦ least store (if better store b n.bs then some n.bs else b) ns
    ]

-- `threshold*newCount`, where a threshold below 0 is 0 and a count below 1 is 1.
pub allowance : ℤ → ℤ → ℕ
allowance (pos t) (pos zero) = t
allowance (pos t) (pos (suc n)) = t * suc n
allowance (pos t) (negsuc n) = t
allowance (negsuc t) count = 0

-- The test of the affinity loop that keeps the server it has.
pub within : Store → ℤ → Option ℕ → ℕ → Bool
within store threshold none i = false
within store threshold (some b) i =
    leb_ℤ (active store b) (pos (allowance threshold (active store i)))

-- The loop of `affinitykey`, over its variable `bs`.
pub spread : Store → ℤ → Option ℕ → List Node → Option ℕ
spread store threshold b [] = b
spread store threshold b (n ∷ ns) = elim (ltb 0 n.weight) [
  | false ↦ b
  | true ↦ elim (within store threshold b n.bs) [
    | true ↦ b
    | false ↦ spread store threshold (if better store b n.bs then some n.bs else b) ns
  ]
]

-- wrh: `ResponsibleNodes2` and the order by which `sort.Sort` puts nodes.
pub record Wrh : Type 0 where
  pub responsible_nodes2 : List Node → Bytes → ℕ → List Node
  pub sort_nodes : List Node → List Node

-- `findServer`; `bval` is what `genRandByteSlice` draws.
unfoldable pub find_server :
    Wrh → Store → AffinityKey → List Node → Client → Bytes → HttpBackendMode → Pick
find_server w store a nodes q bval round_robin = first_node (w.responsible_nodes2 nodes bval 1)
find_server w store a nodes q bval least_conn = picked (least store none nodes)
find_server w store a nodes q bval affinity_key =
    let val = or_random (affinity_value a q a.kind) bval in
    let max_servers = clamp_max_servers a.max_servers (length nodes) in
    let resp = w.responsible_nodes2 nodes val max_servers in
    picked (spread store a.threshold none (if ltb 1 max_servers then w.sort_nodes resp else resp))
