-- ===== src/HttpBackend/Select/Nodes.antt =====
-- The nodes against the order in which Go iterates over the map of the servers.
use simult.Prelude.{
  ℕ, ◌≡◌, refl, sym, ap, ◌∙◌, inl, inr, true, false, List, [], ◌∷◌, map, arith, Bool-cases, Bytes,
}
use mathlib.Core.List.{Permᴰ}
use simult.HttpBackend.Select.{
  Servers, Store, leb_bytes, insert, sort_servers, number, update_bss_nodes,
}

-- The map of the servers, a function on its names, in one order of its names.
abbrev pub entries : (Bytes → ℕ) → List Bytes → Servers
entries bss names = map (λ name. (name, bss name)) names

leb_bytes_total : (s t : Bytes) → leb_bytes s t ≡ false → leb_bytes t s ≡ true
unfolding leb_bytes
leb_bytes_total [] t h = cc
leb_bytes_total (c ∷ s) [] h = refl
leb_bytes_total (c ∷ s) (d ∷ t) h = ground (arith, leb_bytes_total s t)

leb_bytes_antisym : (s t : Bytes) → leb_bytes s t ≡ true → leb_bytes t s ≡ true → s ≡ t
unfolding leb_bytes
leb_bytes_antisym [] [] h k = refl
leb_bytes_antisym [] (d ∷ t) h k = cc
leb_bytes_antisym (c ∷ s) [] h k = cc
leb_bytes_antisym (c ∷ s) (d ∷ t) h k = ground (arith, leb_bytes_antisym s t)

leb_bytes_trans :
    (s t u : Bytes) → leb_bytes s t ≡ true → leb_bytes t u ≡ true → leb_bytes s u ≡ true
unfolding leb_bytes
leb_bytes_trans [] t u h k = refl
leb_bytes_trans (c ∷ s) [] u h k = cc
leb_bytes_trans (c ∷ s) (d ∷ t) [] h k = cc
leb_bytes_trans (c ∷ s) (d ∷ t) (e ∷ u) h k = ground (arith, leb_bytes_trans s t u)

insert-less :
    (s t : Bytes) (i j : ℕ) (es : Servers)
    → leb_bytes s t ≡ true
    → leb_bytes t s ≡ false
    → insert (s, i) (insert (t, j) es) ≡ insert (t, j) (insert (s, i) es)
unfolding insert
insert-less s t i j [] h k = ground arith
insert-less s t i j ((u, m) ∷ es) h k =
    ground (arith, insert-less s t i j es h k, leb_bytes_trans s t u h)

-- The order in which two servers are put in does not matter, when one name has one server.
insert-swap :
    (bss : Bytes → ℕ) (s t : Bytes) (es : Servers)
    → insert (s, bss s) (insert (t, bss t) es) ≡ insert (t, bss t) (insert (s, bss s) es)
insert-swap bss s t es = elim (Bool-cases (leb_bytes s t)) [
  | inr f ↦ sym (insert-less t s (bss t) (bss s) es (leb_bytes_total s t f) f)
  | inl h ↦ elim (Bool-cases (leb_bytes t s)) [
    | inr f ↦ insert-less s t (bss s) (bss t) es h f
    | inl k ↦ rw (leb_bytes_antisym s t h k) refl
  ]
]

sort_servers-perm :
    (bss : Bytes → ℕ) {names names' : List Bytes}
    → Permᴰ names names'
    → sort_servers (entries bss names) ≡ sort_servers (entries bss names')
unfolding sort_servers
sort_servers-perm bss Permᴰ.nil = refl
sort_servers-perm bss (Permᴰ.cons e p) = rw e (ap (insert _) (sort_servers-perm bss p))
sort_servers-perm bss (Permᴰ.swap {l = l} e f) =
    rw (e, f) (insert-swap bss _ _ (sort_servers (entries bss l)))
sort_servers-perm bss (Permᴰ.trans p q) = sort_servers-perm bss p ∙ sort_servers-perm bss q

-- The nodes, with their positions and weights, do not depend on the order in which the map of the
-- servers is iterated.
pub update_bss_nodes-perm :
    (store : Store) (bss : Bytes → ℕ) {names names' : List Bytes}
    → Permᴰ names names'
    → update_bss_nodes store (entries bss names) ≡ update_bss_nodes store (entries bss names')
unfolding update_bss_nodes
update_bss_nodes-perm store bss p = ap (number 0 store) (sort_servers-perm bss p)
