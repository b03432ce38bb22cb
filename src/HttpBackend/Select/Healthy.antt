-- ===== src/HttpBackend/Select/Healthy.antt =====
-- The modes that go by weights, on the nodes that `updateBssNodes` has made.
use mathlib.Core.List.{Memᴰ}
use simult.Prelude.{
  ℕ, suc, ◌<◌, ◌≡◌, sym, ap, ◌∙◌, ◌≢◌, true, Option, none, some, [], ◌∷◌, arith, Bytes,
}
use simult.BackendServer.{healthy}
use simult.HttpBackend.Select.{
  AffinityKey, HttpBackendMode, least_conn, Node, Servers, Store, Client, Wrh, Pick, picked, panics,
  find_server, node_weight, number, update_bss_nodes,
}
use simult.HttpBackend.Select.Affinity.{Honest, PickWeighted, find_server-Weighted}

-- No server, or one that was healthy.
abbrev pub OnlyHealthy : Store → Option ℕ → Type 0
OnlyHealthy made none = Unit {0}
OnlyHealthy made (some i) = healthy (made i) ≡ true

-- The same of a choice, which may panic.
abbrev pub PickHealthy : Store → Pick → Type 0
PickHealthy made (picked r) = OnlyHealthy made r
PickHealthy made panics = Unit {0}

number-weight :
    (seed : ℕ) (made : Store) (es : Servers) (n : Node)
    → Memᴰ n (number seed made es)
    → n.weight ≡ node_weight (made n.bs)
unfolding number
number-weight seed made [] n p = elim p [ ]
number-weight seed made ((name, i) ∷ es) n (Memᴰ.head e) =
    ap (λ (m : Node). m.weight) e ∙ sym (ap (λ (m : Node). node_weight (made m.bs)) e)
number-weight seed made ((name, i) ∷ es) n (Memᴰ.tail p) = number-weight (suc seed) made es n p

node_weight-healthy : (made : Store) (i : ℕ) → 0 < node_weight (made i) → healthy (made i) ≡ true
unfolding node_weight
node_weight-healthy made i h = ground arith

Weighted-healthy :
    (made : Store) (bss : Servers) (p : Pick)
    → PickWeighted (update_bss_nodes made bss) p
    → PickHealthy made p
unfolding update_bss_nodes
Weighted-healthy made bss panics h = tt
Weighted-healthy made bss (picked none) h = tt
Weighted-healthy made bss (picked (some i)) (n, e, l, m) =
    let f = number-weight 0 made _ n m in node_weight-healthy made i (rw (← e, ← f) l)

-- With a library that answers only nodes it was given, `roundrobin` and `affinitykey`, on the nodes
-- that were made of the servers, panic, answer no server, or answer one that was healthy when the
-- nodes were made.
pub find_server-Healthy :
    (w : Wrh)
    → Honest w
    → (made store : Store) (bss : Servers) (a : AffinityKey) (q : Client) (bval : Bytes)
      (m : HttpBackendMode)
    → m ≢ least_conn
    → PickHealthy made (find_server w store a (update_bss_nodes made bss) q bval m)
find_server-Healthy w o made store bss a q bval m ne =
    Weighted-healthy made bss _ (find_server-Weighted w o store a _ q bval m ne)
