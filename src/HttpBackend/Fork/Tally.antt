-- ===== src/HttpBackend/Fork/Tally.antt =====
-- How many maps of backends hold a server object, against the state of the object.
pub mod Forks
use mathlib.Core.Path.{subst}
use simult.Prelude.{
  ℕ, ◌+◌, ◌-◌, ◌≤◌, ◌<◌, ◌≡◌, refl, sym, ap, ◌∙◌, inl, inr, Bool, true, false, not, Option, none,
  some, [], ◌∷◌, ◌++◌, map, arith, ◌==◌, if◌then◌else◌, ==_iff, Bool-cases, All, Bytes,
}
use simult.BackendServer
use simult.BackendServer.{
  BackendServer, update, ServerUrl, Made, made, refused, build, new_backend_server, set_shared,
}
use simult.BackendServer.Sharing.{close_once_per_owner, set_health_check-flags}
use simult.BackendServer.Opened.{new_backend_server-made}
use simult.HttpCheck.{HttpCheckOptions}
use simult.HttpBackend.Select.{Servers}
use simult.HttpBackend.Fork.{
  Heap, put, alloc, lookup, adopt, ForkError, Forking, add_made, add_server, add_servers, begin,
  check_line, close_all, settled, fork, activate,
}

abbrev pub count : ℕ → Servers → ℕ
count i [] = 0
count i ((name, j) ∷ es) = (if j == i then 1 else 0) + count i es

-- The maps that hold a server: none that is closed, two that is shared.
abbrev pub expected : BackendServer → ℕ
expected s = if s.done then 0 else (if s.shared then 2 else 1)

-- A server that is closed has no health check and no idle connection.
abbrev pub Clean : BackendServer → Type 0
Clean s = s.done ≡ true → (s.health_check ≡ none) × (s.bcs ≡ [])

-- All objects are held by `es` and `base` together as often as their state says.
pub record Tallied (base : ℕ → ℕ) (es : Servers) (h : Heap) : Type 0 where
  pub counts : (i : ℕ) → i < h.fresh → base i + count i es ≡ expected (h.store i)
  pub unmade : (i : ℕ) → h.fresh ≤ i → base i + count i es ≡ 0
  pub clean : (i : ℕ) → i < h.fresh → Clean (h.store i)

close-expected : (s : BackendServer) → expected (BackendServer.close s) ≡ expected s - 1
close-expected s = elim (close_once_per_owner s) [
  | inl (e, x) ↦ let d = x.done in ground arith
  | inr (e, x, y) ↦ ap expected x ∙ ground arith
]

close-Clean : (s : BackendServer) → Clean s → Clean (BackendServer.close s)
close-Clean s c = elim (close_once_per_owner s) [
  | inl (e, x) ↦ (λ d. (x.unwatched, x.empty))
  | inr (e, x, y) ↦ subst Clean (sym x) c
]

put-Clean :
    (h : Heap) (j : ℕ) (s : BackendServer)
    → (j < h.fresh → Clean s)
    → ((i : ℕ) → i < h.fresh → Clean (h.store i))
    → (i : ℕ) → i < h.fresh
    → Clean ((put h j s).store i)
put-Clean h j s c v i l = elim (Bool-cases (j == i)) [
  | inl y ↦ rw y (c (subst (λ k. k < h.fresh) (sym ((==_iff j i).0 y)) l))
  | inr f ↦ rw f (v i l)
]

count-append :
    (es : Servers) (name : Bytes) (j i : ℕ)
    → count i (es ++ (name, j) ∷ []) ≡ (if j == i then 1 else 0) + count i es
count-append [] name j i = refl
count-append ((key, k) ∷ es) name j i = ground (arith, count-append es name j i)

module _ (base : ℕ → ℕ) where
  -- The server is held at the end of the map.
  to_last :
      (es : Servers) (h : Heap) (x y : Bytes) (j : ℕ)
      → Tallied base ((x, j) ∷ es) h
      → Tallied base (es ++ (y, j) ∷ []) h
  to_last es h x y j v = record {
    counts = λ i l. rw (count-append es y j i) (v.counts i l);
    unmade = λ i l. rw (count-append es y j i) (v.unmade i l);
    clean = v.clean;
  }

  -- A server changes in nothing that counts.
  pub still :
      (es : Servers) (h : Heap) (j : ℕ) (s : BackendServer)
      → expected s ≡ expected (h.store j)
      → (Clean (h.store j) → Clean s)
      → Tallied base es h
      → Tallied base es (put h j s)
  still es h j s e c v = record {
    counts = λ i l.
        v.counts i l
        ∙ sym (elim (Bool-cases (j == i)) [
          | inl y ↦ rw y (e ∙ ap (λ k. expected (h.store k)) ((==_iff j i).0 y))
          | inr f ↦ rw f refl
        ]);
    unmade = v.unmade;
    clean = put-Clean h j s (λ l. c (v.clean j l)) v.clean;
  }

  pub close_head :
      (es : Servers) (h : Heap) (x : Bytes) (j : ℕ)
      → Tallied base ((x, j) ∷ es) h
      → Tallied base es (put h j (BackendServer.close (h.store j)))
  close_head es h x j v = record {
    counts = λ i l.
        (let c = v.counts i l in
          let k = close-expected (h.store i) in
          elim (Bool-cases (j == i)) [
            | inl y ↦ (let q = (==_iff j i).0 y in ground arith)
            | inr f ↦ ground arith
          ]);
    unmade = λ i l. (let u = v.unmade i l in omega arith);
    clean = put-Clean h j _ (λ l. close-Clean (h.store j) (v.clean j l)) v.clean;
  }

  pub close_all-Tallied :
      (es : Servers) (h : Heap) → Tallied base es h → Tallied base [] (close_all es h)
  unfolding close_all
  close_all-Tallied [] h v = v
  close_all-Tallied ((name, j) ∷ es) h v =
      close_all-Tallied es (put h j (BackendServer.close (h.store j))) (close_head es h name j v)

  -- A new server, held by nobody but the loop.
  pub alloc-Tallied :
      (es : Servers) (h : Heap) (x : Bytes) (s : BackendServer)
      → expected s ≡ 1
      → Clean s
      → Tallied base es h
      → Tallied base ((x, h.fresh) ∷ es) (alloc h s)
  alloc-Tallied es h x s e n v = record {
    counts = λ i l.
        (let c = v.counts i in
          let u = v.unmade i in
          elim (Bool-cases (h.fresh == i)) [
            | inl y ↦
                (let q = (==_iff h.fresh i).0 y in
                  let k = u (omega (arith, q)) in rw y (omega (arith, k, e)))
            | inr f ↦ (let k = c (ground arith) in rw f (omega (arith, k)))
          ]);
    unmade = λ i l. (let u = v.unmade i (omega arith) in ground arith);
    clean = λ i l. elim (Bool-cases (h.fresh == i)) [
      | inl y ↦ rw y n
      | inr f ↦ rw f (v.clean i (ground arith))
    ];
  }

  -- `SetShared(true)` for a server that is held and not shared.
  mark-Tallied :
      (es : Servers) (h : Heap) (y : Bytes) (i : ℕ)
      → i < h.fresh
      → 1 ≤ base i
      → (h.store i).shared ≡ false
      → Tallied base es h
      → Tallied base ((y, i) ∷ es) (put h i (record (h.store i) { shared = true }))
  mark-Tallied es h y i l b e v = record {
    counts = λ k m.
        (let c = v.counts k m in
          elim (Bool-cases (i == k)) [
            | inl y ↦
                (let q = (==_iff i k).0 y in
                  let c' = v.counts i l in
                  let p = ap base q in let r = ap (λ t. count t es) q in rw y (ground arith))
            | inr f ↦ rw f (omega (arith, c))
          ]);
    unmade = λ k m. (let u = v.unmade k m in ground arith);
    clean = put-Clean h i _ (λ l. v.clean i l) v.clean;
  }

  swap_heads :
      (es : Servers) (h : Heap) (x y : Bytes) (i j : ℕ)
      → Tallied base ((x, i) ∷ (y, j) ∷ es) h
      → Tallied base ((y, j) ∷ (x, i) ∷ es) h
  swap_heads es h x y i j v = record {
    counts = λ k l. (let c = v.counts k l in omega (arith, c));
    unmade = λ k l. (let u = v.unmade k l in omega (arith, u));
    clean = v.clean;
  }

  held_below : (es : Servers) (h : Heap) (i : ℕ) → Tallied base es h → 1 ≤ base i → i < h.fresh
  held_below es h i v b = let u = v.unmade i in ground arith

  -- What one server line makes of the map, where the loop holds the new server `n`.
  pub adopt-Tallied :
      (bss : Servers) (h : Heap) (x : Bytes) (n : ℕ) (o : Option ℕ) (name : ℕ × Heap → Bytes)
      → Tallied base ((x, n) ∷ bss) h
      → ((i : ℕ) → o ≡ some i → 1 ≤ base i)
      → Tallied base (bss ++ (name (adopt o n h), (adopt o n h).0) ∷ []) (adopt o n h).1
  unfolding adopt set_shared
  adopt-Tallied bss h x n none name v b = to_last bss h x _ n v
  adopt-Tallied bss h x n (some i) name v b = elim (Bool-cases (h.store i).shared) [
    | inl e ↦ rw e (
        to_last bss _ x _ n (
          still ((x, n) ∷ bss) h i (record (h.store i) { shared = true }) (ground arith) (λ c. c)
            v))
    | inr e ↦
        let k = b i refl in
        let t = record (h.store i) { shared = true } in
        rw e (
          to_last bss _ x _ i (
            close_head ((x, i) ∷ bss) (put h i t) x n (
              swap_heads bss (put h i t) x x i n
                (mark-Tallied ((x, n) ∷ bss) h x i (held_below ((x, n) ∷ bss) h i v k) k e v))))
  ]

pub lookup-count : (name : Bytes) (es : Servers) (i : ℕ) → lookup name es ≡ some i → 1 ≤ count i es
unfolding lookup
lookup-count name [] i h = cc
lookup-count name ((key, j) ∷ es) i h = ground (arith, lookup-count name es i)

-- The same server counted elsewhere.
pub retally :
    (b b' : ℕ → ℕ) (es es' : Servers) (h : Heap)
    → ((i : ℕ) → b' i + count i es' ≡ b i + count i es)
    → Tallied b es h
    → Tallied b' es' h
retally b b' es es' h e v = record {
  counts = λ i l. e i ∙ v.counts i l;
  unmade = λ i l. e i ∙ v.unmade i l;
  clean = v.clean;
}

pub lookup-none : (name : Bytes) (i : ℕ) → lookup name [] ≡ some i → ⊥
unfolding lookup
lookup-none name i h = cc
