-- ===== src/HttpBackend/Fork/Held.antt =====
-- What a new backend holds while its server lines are read.
use simult.Prelude.{
  ℕ, ◌≤◌, ◌<◌, ◌≡◌, refl, sym, ap, ◌∙◌, ◌⊎◌, inl, inr, Bool, true, false, ◌||◌, some, [], ◌∷◌, ◌++◌,
  arith, ◌==◌, ==_iff, Bool-cases, any, All, Bytes,
}
use simult.BackendServer.{BackendServer}
use simult.HttpBackend.Select.{Servers}
use simult.HttpBackend.Fork.{Heap, lookup}

-- An entry of the map is the object `i`.
abbrev pub holds : Servers → ℕ → Bool
holds bss i = any (λ (e : Bytes × ℕ). e.1 == i) bss

-- No object stands in two entries.
abbrev pub Distinct : Servers → Type 0
Distinct [] = Unit {0}
Distinct ((name, i) ∷ es) = (holds es i ≡ false) × Distinct es

-- All entries are objects that are made.
abbrev pub Below : ℕ → Servers → Type 0
Below n = All (λ (e : Bytes × ℕ). e.1 < n)

-- The new backend's map and the heap, against the heap `h0` and the old backend's map before. The
-- objects that were made before are as they were, but for the mark of those that are held.
pub record Held (h0 : Heap) (old bss : Servers) (h : Heap) : Type 0 where
  pub grown : h0.fresh ≤ h.fresh
  pub below : (i : ℕ) → holds bss i ≡ true → i < h.fresh
  pub distinct : Distinct bss
  pub free : (i : ℕ) → i < h0.fresh → holds bss i ≡ false → h.store i ≡ h0.store i
  pub kept :
      (i : ℕ)
      → i < h0.fresh
      → holds bss i ≡ true
      → (h.store i ≡ record (h0.store i) { shared = true })
        × ((h0.store i).shared ≡ false)
        × (holds old i ≡ true)

pub holds-append :
    (bss : Servers) (name : Bytes) (i j : ℕ)
    → holds (bss ++ (name, i) ∷ []) j ≡ (holds bss j || i == j)
holds-append [] name i j = ground arith
holds-append (e ∷ bss) name i j = ground (arith, holds-append bss name i j)

Distinct-append :
    (bss : Servers) (name : Bytes) (i : ℕ)
    → Distinct bss
    → holds bss i ≡ false
    → Distinct (bss ++ (name, i) ∷ [])
Distinct-append [] name i d h = (refl, tt)
Distinct-append ((key, j) ∷ bss) name i d h =
    (holds-append bss name i j ∙ ground arith, Distinct-append bss name i d.1 (ground arith))

pub lookup-holds :
    (old : Servers) (name : Bytes) (i : ℕ) → lookup name old ≡ some i → holds old i ≡ true
unfolding lookup
lookup-holds [] name i e = cc
lookup-holds ((key, j) ∷ old) name i e = ground (arith, lookup-holds old name i)

pub holds-Below : (n : ℕ) (old : Servers) (i : ℕ) → Below n old → holds old i ≡ true → i < n
holds-Below n [] i b h = cc
holds-Below n ((key, j) ∷ old) i b h = ground (arith, holds-Below n old i b.1)

-- A step that changes only objects that are not held and were not made before.
pub Held-fresh :
    (h0 : Heap) (old bss : Servers) (h h' : Heap)
    → Held h0 old bss h
    → h.fresh ≤ h'.fresh
    → ((i : ℕ) → i < h0.fresh → h'.store i ≡ h.store i)
    → Held h0 old bss h'
Held-fresh h0 old bss h h' v g same = record {
  grown = let l = v.grown in omega arith;
  below = λ i e. let l = v.below i e in omega arith;
  distinct = v.distinct;
  free = λ i l e. same i l ∙ v.free i l e;
  kept = λ i l e. let (a, b, c) = v.kept i l e in (same i l ∙ a, b, c);
}

-- The entry that is added last, found again or not.
append-cases :
    (bss : Servers) (name : Bytes) (i j : ℕ)
    → holds (bss ++ (name, i) ∷ []) j ≡ true
    → (holds bss j ≡ true) ⊎ (i ≡ j)
append-cases bss name i j h = elim (Bool-cases (holds bss j)) [
  | inl y ↦ inl y
  | inr n ↦ let e = holds-append bss name i j in inr (ground arith)
]

append-none :
    (bss : Servers) (name : Bytes) (i j : ℕ)
    → holds (bss ++ (name, i) ∷ []) j ≡ false
    → (holds bss j ≡ false) × (i == j ≡ false)
append-none bss name i j h = let e = holds-append bss name i j in ground arith

-- A new object is held.
pub Held-new :
    (h0 : Heap) (old bss : Servers) (h : Heap) (name : Bytes) (n : ℕ)
    → Held h0 old bss h
    → h0.fresh ≤ n
    → n < h.fresh
    → holds bss n ≡ false
    → Held h0 old (bss ++ (name, n) ∷ []) h
Held-new h0 old bss h name n v l m e = record {
  grown = v.grown;
  below = λ i k. elim (append-cases bss name n i k) [ inl y ↦ v.below i y | inr q ↦ omega arith ];
  distinct = Distinct-append bss name n v.distinct e;
  free = λ i b k. v.free i b (append-none bss name n i k).0;
  kept = λ i b k. elim (append-cases bss name n i k) [
    | inl y ↦ v.kept i b y
    | inr q ↦ absurd (omega arith)
  ];
}

-- An object of the old backend is marked and held.
pub Held-take :
    (h0 : Heap) (old bss : Servers) (h h' : Heap) (name : Bytes) (i : ℕ)
    → Held h0 old bss h
    → i < h0.fresh
    → holds old i ≡ true
    → (h.store i).shared ≡ false
    → h'.fresh ≡ h.fresh
    → h'.store i ≡ record (h.store i) { shared = true }
    → ((j : ℕ) → j < h0.fresh → i == j ≡ false → h'.store j ≡ h.store j)
    → Held h0 old (bss ++ (name, i) ∷ []) h'
Held-take h0 old bss h h' name i v l o s g mark same = elim (Bool-cases (holds bss i)) [
  | inl y ↦ let (a, b, c) = v.kept i l y in let e = ap (λ (t : BackendServer). t.shared) a in cc
  | inr n ↦ record {
    grown = let k = v.grown in omega arith;
    below = λ j k. elim (append-cases bss name i j k) [
      | inl y ↦ let b = v.below j y in omega arith
      | inr q ↦ let b = v.grown in omega arith
    ];
    distinct = Distinct-append bss name i v.distinct n;
    free = λ j b k. let (x, y) = append-none bss name i j k in same j b y ∙ v.free j b x;
    kept = λ j b k. elim (Bool-cases (i == j)) [
      | inl e ↦
          let q : i ≡ j = (==_iff i j).0 e in
          let free = v.free i l n in
          rw (← q) (
            mark ∙ ap (λ (t : BackendServer). record t { shared = true }) free,
            ap (λ (t : BackendServer). t.shared) (sym free) ∙ s,
            o,
          )
      | inr e ↦ elim (append-cases bss name i j k) [
        | inl y ↦ let (a, b', c) = v.kept j b y in (same j b e ∙ a, b', c)
        | inr q ↦ absurd (ground arith)
      ]
    ];
  }
]
