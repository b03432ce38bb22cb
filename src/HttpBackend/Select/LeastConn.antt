-- ===== src/HttpBackend/Select/LeastConn.antt =====
-- The `leastconn` mode.
use simult.Prelude.{
  ℕ, suc, ◌≡◌, refl, ap, ◌∙◌, inl, inr, Bool, true, false, ◌&&◌, Option, none, some, List, [], ◌∷◌,
  arith, Bool-cases, All, ℤ, leb_ℤ, ltb_ℤ, Bytes, pos, negsuc,
}
use simult.HttpBackend.Select.{
  AffinityKey, Node, Store, Client, Wrh, picked, least_conn, active, better, least, find_server,
  Servers, number, update_bss_nodes, sort_servers,
}
use simult.HttpCheck.{HttpCheck}

-- No server of the nodes has fewer active connections.
abbrev pub AtMost : Store → ℕ → List Node → Type 0
AtMost store i = All (λ n. leb_ℤ (active store i) (active store n.bs) ≡ true)

abbrev NonNegative : Store → List Node → Type 0
NonNegative store = All (λ n. leb_ℤ (pos 0) (active store n.bs) ≡ true)

leb_ℤ-trans : (a b c : ℤ) → leb_ℤ a b ≡ true → leb_ℤ b c ≡ true → leb_ℤ a c ≡ true
leb_ℤ-trans (pos a) (pos b) (pos c) h k = ground arith
leb_ℤ-trans (negsuc a) (pos b) (pos c) h k = refl
leb_ℤ-trans (negsuc a) (negsuc b) (pos c) h k = refl
leb_ℤ-trans (negsuc a) (negsuc b) (negsuc c) h k = ground arith
leb_ℤ-trans _ _ _ h k = ground arith

leb_ℤ_total : (a b : ℤ) → ltb_ℤ a b ≡ false → leb_ℤ b a ≡ true
leb_ℤ_total (pos a) (pos b) h = ground arith
leb_ℤ_total _ _ h = ground arith

leb_ℤ_of_ltb : (a b : ℤ) → ltb_ℤ a b ≡ true → leb_ℤ a b ≡ true
leb_ℤ_of_ltb (pos a) (pos b) h = ground arith
leb_ℤ_of_ltb _ _ h = ground arith

leb_ℤ_refl : (a : ℤ) → leb_ℤ a a ≡ true
leb_ℤ_refl (pos a) = ground arith
leb_ℤ_refl (negsuc a) = ground arith

is_zero : ℤ → Bool
is_zero x = leb_ℤ x (pos 0) && leb_ℤ (pos 0) x

is_zero_sound : (x : ℤ) → is_zero x ≡ true → x ≡ pos 0
unfolding is_zero
is_zero_sound (pos n) h = ground arith
is_zero_sound (negsuc n) h = cc

AtMost-zero :
    (store : Store) (i : ℕ) (ns : List Node)
    → active store i ≡ pos 0
    → NonNegative store ns
    → AtMost store i ns
AtMost-zero store i [] e h = tt
AtMost-zero store i (n ∷ ns) e (p, h) = (cc (e, p), AtMost-zero store i ns e h)

-- A choice among `b` and the nodes.
record Chosen (store : Store) (b : ℕ) (ns : List Node) (r : Option ℕ) : Type 0 where
  which : ℕ
  answers : r ≡ some which
  le_first : leb_ℤ (active store which) (active store b) ≡ true
  le_nodes : AtMost store which ns

least_cases {ℓ} :
    (P : Option ℕ → Type ℓ) (store : Store) (b : Option ℕ) (n : Node) (ns : List Node)
    → (active store n.bs ≡ pos 0 → P (some n.bs))
    → (better store b n.bs ≡ true → P (least store (some n.bs) ns))
    → (better store b n.bs ≡ false → P (least store b ns))
    → P (least store b (n ∷ ns))
unfolding least
least_cases P store b n ns zero_case take_case keep_case =
    elim (Bool-cases (is_zero (active store n.bs))) [
      | inl e ↦ unfold is_zero in rw (e, least) (zero_case (is_zero_sound (active store n.bs) e))
      | inr e ↦ elim (Bool-cases (better store b n.bs)) [
        | inl t ↦ unfold is_zero in rw (e, least) (rw t (take_case t))
        | inr t ↦ unfold is_zero in rw (e, least) (rw t (keep_case t))
      ]
    ]

least-Chosen :
    (store : Store) (b : ℕ) (ns : List Node)
    → leb_ℤ (pos 0) (active store b) ≡ true
    → NonNegative store ns
    → Chosen store b ns (least store (some b) ns)
least-Chosen store b [] p h =
    unfold least in
    record { which = b; answers = refl; le_first = leb_ℤ_refl (active store b); le_nodes = tt }
least-Chosen store b (n ∷ ns) p (q, h) =
    let take = least-Chosen store n.bs ns q h in
    let keep = least-Chosen store b ns p h in
    least_cases (Chosen store b (n ∷ ns)) store (some b) n ns
      (λ e. record {
        which = n.bs;
        answers = refl;
        le_first = cc (e, p);
        le_nodes = (leb_ℤ_refl (active store n.bs), AtMost-zero store n.bs ns e h);
      })
      (λ t. record {
        which = take.which;
        answers = take.answers;
        le_first =
            leb_ℤ-trans (active store take.which) (active store n.bs) (active store b) take.le_first
              (leb_ℤ_of_ltb (active store n.bs) (active store b) (unfold better in t));
        le_nodes = (take.le_first, take.le_nodes);
      })
      (λ t. record {
        which = keep.which;
        answers = keep.answers;
        le_first = keep.le_first;
        le_nodes = (
          leb_ℤ-trans (active store keep.which) (active store b) (active store n.bs) keep.le_first
              (leb_ℤ_total (active store n.bs) (active store b) (unfold better in t)),
          keep.le_nodes,
        );
      })

first-Chosen :
    (store : Store) (n : Node) (ns : List Node)
    → leb_ℤ (pos 0) (active store n.bs) ≡ true
    → NonNegative store ns
    → Chosen store n.bs ns (least store none (n ∷ ns))
first-Chosen store n ns p h =
    least_cases (Chosen store n.bs ns) store none n ns
      (λ e. record {
        which = n.bs;
        answers = refl;
        le_first = leb_ℤ_refl (active store n.bs);
        le_nodes = AtMost-zero store n.bs ns e h;
      })
      (λ _. least-Chosen store n.bs ns p h) (λ t. absurd (unfold better in cc t))

-- Where no server counts below 0, `leastconn` answers a server that no server of the nodes undercuts
-- in active connections, and it answers none only if there are no nodes.
pub least_conn_minimal :
    (w : Wrh) (store : Store) (a : AffinityKey) (n : Node) (ns : List Node) (q : Client)
    (bval : Bytes)
    → NonNegative store (n ∷ ns)
    → (i : ℕ) × (find_server w store a (n ∷ ns) q bval least_conn ≡ picked (some i))
      × AtMost store i (n ∷ ns)
unfolding find_server
least_conn_minimal w store a n ns q bval (p, h) =
    let c = first-Chosen store n ns p h in (c.which, ap picked c.answers, (c.le_first, c.le_nodes))

-- The same servers with other health checks.
abbrev pub with_checks : (ℕ → Option HttpCheck) → Store → Store
with_checks checks store = λ i. record (store i) { health_check = checks i }

least-with_checks :
    (checks : ℕ → Option HttpCheck) (store : Store) (b : Option ℕ) (ns : List Node)
    → least (with_checks checks store) b ns ≡ least store b ns
unfolding least better
least-with_checks checks store b [] = refl
least-with_checks checks store none (n ∷ ns) =
    ground (arith, least-with_checks checks store (some n.bs) ns)
least-with_checks checks store (some b) (n ∷ ns) = ground (
  arith,
  least-with_checks checks store (some b) ns,
  least-with_checks checks store (some n.bs) ns,
)

least-number :
    (checks : ℕ → Option HttpCheck) (past now : Store) (b : Option ℕ) (seed : ℕ) (es : Servers)
    → least now b (number seed (with_checks checks past) es) ≡ least now b (number seed past es)
unfolding least number
least-number checks past now b seed [] = refl
least-number checks past now b seed ((name, i) ∷ es) = ground (
  arith,
  least-number checks past now b (suc seed) es,
  least-number checks past now (some i) (suc seed) es,
)

-- Health has no part in the choice of `leastconn`: whatever health checks the servers have when
-- `updateBssNodes` makes the nodes and when the server is chosen, the choice is the one among the
-- same servers with any other health checks at these two moments.
pub least_conn_ignores_health :
    (w : Wrh) (past now : Store) (old new : ℕ → Option HttpCheck) (bss : Servers) (a : AffinityKey)
    (q : Client) (bval : Bytes)
    → find_server w
        (with_checks new now)
        a
        (update_bss_nodes (with_checks old past) bss)
        q
        bval
        least_conn
      ≡ find_server w now a (update_bss_nodes past bss) q bval least_conn
unfolding find_server update_bss_nodes
least_conn_ignores_health w past now old new bss a q bval =
    let es = sort_servers bss in
    ap picked (
      least-with_checks new now none (number 0 (with_checks old past) es)
      ∙ least-number old past now none 0 es)
