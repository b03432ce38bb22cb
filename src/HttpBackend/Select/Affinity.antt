-- ===== src/HttpBackend/Select/Affinity.antt =====
-- The modes `roundrobin` and `affinitykey`, which go by the weights.
use mathlib.Core.List.{Memᴰ}
use simult.Prelude.{
  ℕ, ◌<◌, ◌≡◌, refl, ◌≢◌, inl, inr, true, Option, none, some, List, [], ◌∷◌, ltb, if◌then◌else◌,
  ltb→lt, Bool-cases, if-cases, length, ℤ, Bytes,
}
use simult.HttpBackend.Select.{
  AffinityKey, HttpBackendMode, round_robin, least_conn, affinity_key, Node, Store, Client, Wrh,
  Pick, picked, panics, better, within, spread, first_node, or_random, affinity_value,
  clamp_max_servers, find_server,
}

-- The answered server stands in one of the nodes, with a weight above 0.
abbrev pub Weighted : List Node → Option ℕ → Type 0
Weighted ns none = Unit {0}
Weighted ns (some i) = (n : Node) × (n.bs ≡ i) × (0 < n.weight) × Memᴰ n ns

abbrev pub PickWeighted : List Node → Pick → Type 0
PickWeighted ns (picked r) = Weighted ns r
PickWeighted ns panics = Unit {0}

-- What wrh promises: its answers and its order name nodes that it was given.
pub record Honest (w : Wrh) : Type 0 where
  pub responsible_mem :
      (ns : List Node) (key : Bytes) (k : ℕ) (n : Node)
      → Memᴰ n (w.responsible_nodes2 ns key k)
      → Memᴰ n ns
  pub sort_mem : (ns : List Node) (n : Node) → Memᴰ n (w.sort_nodes ns) → Memᴰ n ns

first_node-Weighted :
    (all_nodes ns : List Node)
    → ((n : Node) → Memᴰ n ns → Memᴰ n all_nodes)
    → PickWeighted all_nodes (first_node ns)
unfolding first_node
first_node-Weighted all_nodes [] sub = tt
first_node-Weighted all_nodes (n ∷ ns) sub =
    if-cases (Weighted all_nodes) (ltb 0 n.weight)
      (λ e. (n, refl, ltb→lt 0 n.weight e, sub n (Memᴰ.head refl))) (λ _. tt)

spread_cases {ℓ} :
    (P : Option ℕ → Type ℓ) (store : Store) (t : ℤ) (b : Option ℕ) (n : Node) (ns : List Node)
    → P b
    → (ltb 0 n.weight ≡ true → P (spread store t (some n.bs) ns))
    → P (spread store t b ns)
    → P (spread store t b (n ∷ ns))
unfolding spread
spread_cases P store t b n ns stop take_case keep = elim (Bool-cases (ltb 0 n.weight)) [
  | inr e ↦ rw (e, spread) stop
  | inl e ↦ elim (Bool-cases (within store t b n.bs)) [
    | inl f ↦ rw (e, spread) (rw (f, spread) stop)
    | inr f ↦
        rw (e, spread)
          (rw (f, spread)
            (if-cases (λ c. P (spread store t c ns)) (better store b n.bs) (λ _. take_case e)
              (λ _. keep)))
  ]
]

spread-Weighted :
    (store : Store) (t : ℤ) (all_nodes : List Node) (b : Option ℕ) (ns : List Node)
    → ((n : Node) → Memᴰ n ns → Memᴰ n all_nodes)
    → Weighted all_nodes b
    → Weighted all_nodes (spread store t b ns)
spread-Weighted store t all_nodes b [] sub h = unfold spread in h
spread-Weighted store t all_nodes b (n ∷ ns) sub h =
    let later = λ (m : Node) (i : Memᴰ m ns). sub m (Memᴰ.tail i) in
    let take = λ (x : Weighted all_nodes (some n.bs)).
      spread-Weighted store t all_nodes (some n.bs) ns later x in
    spread_cases (Weighted all_nodes) store t b n ns h
      (λ e. take (n, refl, ltb→lt 0 n.weight e, sub n (Memᴰ.head refl)))
      (spread-Weighted store t all_nodes b ns later h)

-- What is picked stands in the nodes with a weight above 0.
pub find_server-Weighted :
    (w : Wrh)
    → Honest w
    → (store : Store) (a : AffinityKey) (ns : List Node) (q : Client) (bval : Bytes)
      (m : HttpBackendMode)
    → m ≢ least_conn
    → PickWeighted ns (find_server w store a ns q bval m)
unfolding find_server
find_server-Weighted w o store a ns q bval round_robin ne =
    first_node-Weighted ns _ (λ n i. o.responsible_mem ns bval 1 n i)
find_server-Weighted w o store a ns q bval least_conn ne = absurd (ne refl)
find_server-Weighted w o store a ns q bval affinity_key ne =
    let val = or_random (affinity_value a q a.kind) bval in
    let k = clamp_max_servers a.max_servers (length ns) in
    let resp = w.responsible_nodes2 ns val k in
    spread-Weighted store a.threshold ns none (if ltb 1 k then w.sort_nodes resp else resp)
      (λ n.
        if-cases (λ r. Memᴰ n r → Memᴰ n ns) (ltb 1 k)
          (λ _ i. o.responsible_mem ns val k n (o.sort_mem resp n i))
          (λ _ i. o.responsible_mem ns val k n i))
      tt

-- Where the library answers no node for no nodes, `roundrobin` on a backend without servers indexes
-- an empty slice.
pub round_robin_panics :
    (w : Wrh) (store : Store) (a : AffinityKey) (q : Client) (bval : Bytes)
    → w.responsible_nodes2 [] bval 1 ≡ []
    → find_server w store a [] q bval round_robin ≡ panics
unfolding find_server first_node
round_robin_panics w store a q bval e = rw e
