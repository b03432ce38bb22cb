-- ===== src/HttpBackend/Fork/Loop.antt =====
-- The loop over the server lines keeps what `Held` says.
use simult.Prelude.{
  ℕ, ◌≤◌, ◌<◌, ◌≡◌, refl, sym, ap, ◌∙◌, inl, inr, Bool, true, false, Option, none, some, List, [],
  ◌∷◌, ◌++◌, arith, ◌==◌, ==_iff, Bool-cases, Bytes, split_all, Result, ok, err,
}
use simult.BackendServer
use simult.BackendServer.{
  BackendServer, update, ServerUrl, Made, made, refused, new_backend_server, set_shared,
}
use simult.HttpBackend.Select.{Servers}
use simult.HttpBackend.Fork.{
  Heap, put, alloc, lookup, adopt, ForkError, Forking, add_made, add_server, add_servers, begin,
  check_line,
}
use simult.HttpBackend.Fork.Held.{
  holds, Below, Held, Held-fresh, Held-new, Held-take, holds-Below, lookup-holds,
}

update_other :
    (f : ℕ → BackendServer) (i j : ℕ) (s : BackendServer) → i == j ≡ false → update f i s j ≡ f j
update_other f i j s e = rw e refl

update_self : (f : ℕ → BackendServer) (i : ℕ) (s : BackendServer) → update f i s i ≡ s
update_self f i s = let e : i == i ≡ true = ground arith in rw e refl

above : (i n m : ℕ) → i < n → n ≤ m → m == i ≡ false
above i n m l k = ground arith

-- A new object that is about to be held.
abbrev Waits : Heap → Servers → Heap → ℕ → Type 0
Waits h0 bss h n = (h0.fresh ≤ n) × (n < h.fresh) × (holds bss n ≡ false)

mark_shared :
    (f : ℕ → BackendServer) (i j : ℕ)
    → (f i).shared ≡ true
    → update f i (record (f i) { shared = true }) j ≡ f j
mark_shared f i j e = elim (Bool-cases (i == j)) [
  | inl y ↦
      let q : i ≡ j = (==_iff i j).0 y in
      rw (← q) (update_self f i _ ∙ ap (λ b. record (f i) { shared = b }) (sym e))
  | inr n ↦ update_other f i j _ n
]

adopt_found :
    (h0 : Heap) (old bss : Servers) (h : Heap) (n : ℕ) (name : ℕ × Heap → Bytes) (i : ℕ)
    → Held h0 old bss h
    → Waits h0 bss h n
    → i < h0.fresh
    → holds old i ≡ true
    → Held h0 old
        (bss ++ (name (adopt (some i) n h), (adopt (some i) n h).0) ∷ [])
        (adopt (some i) n h).1
unfolding adopt set_shared
adopt_found h0 old bss h n name i v (g, l, e) b o = elim (Bool-cases (h.store i).shared) [
  | inl y ↦ rw y (
      Held-new h0 old bss _ _ n
        (Held-fresh h0 old bss h _ v (omega arith) (λ j _. mark_shared h.store i j y)) g l e)
  | inr y ↦
      let t : BackendServer = record (h.store i) { shared = true } in
      let h1 = put h i t in
      let closed = BackendServer.close (h1.store n) in
      rw y (
        Held-take h0 old bss h (put h1 n closed) _ i v b o y refl
          (update_other h1.store n i closed (above i h0.fresh n b g) ∙ update_self h.store i t)
          (λ j k ne.
            update_other h1.store n j closed (above j h0.fresh n k g)
            ∙ update_other h.store i j t ne))
]

-- What one server line makes of the map, under the name that the object has then.
adopt-Held :
    (h0 : Heap) (old bss : Servers) (h : Heap) (n : ℕ) (o : Option ℕ) (name : ℕ × Heap → Bytes)
    → Below h0.fresh old
    → Held h0 old bss h
    → Waits h0 bss h n
    → ((i : ℕ) → o ≡ some i → holds old i ≡ true)
    → Held h0 old (bss ++ (name (adopt o n h), (adopt o n h).0) ∷ []) (adopt o n h).1
adopt-Held h0 old bss h n (some i) name b v w f =
    adopt_found h0 old bss h n name i v w (holds-Below h0.fresh old i b (f i refl)) (f i refl)
adopt-Held h0 old bss h n none name b v (g, l, e) f =
    unfold adopt in Held-new h0 old bss h _ n v g l e

abbrev pub HeldBy : Heap → Servers → Forking → Type 0
HeldBy h0 old f = Held h0 old f.bss f.heap

add_made-Held :
    (h0 : Heap) (old : Servers) (f : Forking) (n : ℕ) (r : Result ForkError ℕ)
    → Below h0.fresh old
    → HeldBy h0 old f
    → Waits h0 f.bss f.heap n
    → HeldBy h0 old (add_made old f n r)
unfolding add_made
add_made-Held h0 old f n (err e) b v (g, l, x) =
    Held-fresh h0 old f.bss f.heap _ v (omega arith)
      (λ i k. update_other f.heap.store n i _ (above i h0.fresh n k g))
add_made-Held h0 old f n (ok w) b v (g, l, x) =
    let t : BackendServer = record (f.heap.store n) { weight = w } in
    let h = put f.heap n t in
    adopt-Held h0 old f.bss h n (lookup (h.store n).server old)
      (λ (p : ℕ × Heap). (p.1.store p.0).server) b
      (Held-fresh h0 old f.bss f.heap h v (omega arith)
        (λ i k. update_other f.heap.store n i t (above i h0.fresh n k g)))
      (g, l, x) (λ i e. lookup-holds old _ i e)

add_server-Held :
    (h0 : Heap) (old : Servers) (f : Forking) (words : List Bytes) (m : Made BackendServer)
    → Below h0.fresh old
    → HeldBy h0 old f
    → HeldBy h0 old (add_server old f words m)
unfolding add_server
add_server-Held h0 old f words (refused e) b v = v
add_server-Held h0 old f words (made s) b v =
    add_made-Held h0 old (record f { heap = alloc f.heap s }) f.heap.fresh
      (check_line f.bss s words) b
      (Held-fresh h0 old f.bss f.heap _ v (omega arith) (λ i k.
        update_other f.heap.store f.heap.fresh i s (above i h0.fresh f.heap.fresh k v.grown)))
      (v.grown, omega arith, not_held (holds f.bss f.heap.fresh) refl)
  where
    not_held : (b : Bool) → holds f.bss f.heap.fresh ≡ b → holds f.bss f.heap.fresh ≡ false
    not_held true e = absurd (omega (arith, v.below f.heap.fresh e))
    not_held false e = e

stop-Held :
    (h0 : Heap) (old : Servers) (f g : Forking) (o : Option ForkError)
    → HeldBy h0 old f
    → HeldBy h0 old g
    → HeldBy h0 old (elim o [ none ↦ f | some e ↦ g ])
stop-Held h0 old f g none v w = v
stop-Held h0 old f g (some e) v w = w

pub add_servers-Held :
    (url_parse : Bytes → Option ServerUrl) (h0 : Heap) (old : Servers) (lines : List Bytes)
    (f : Forking)
    → Below h0.fresh old
    → HeldBy h0 old f
    → HeldBy h0 old (add_servers url_parse old lines f)
unfolding add_servers
add_servers-Held url_parse h0 old [] f b v = v
add_servers-Held url_parse h0 old (line ∷ lines) f b v =
    let (name, words) = split_all b' ' line in
    let f' = add_server old f words (new_backend_server url_parse name) in
    let v' = add_server-Held h0 old f words (new_backend_server url_parse name) b v in
    stop-Held h0 old (add_servers url_parse old lines f') f' f'.failure
      (add_servers-Held url_parse h0 old lines f' b v') v'

pub begin-Held : (h0 : Heap) (old : Servers) → HeldBy h0 old (begin h0)
begin-Held h0 old = record {
  grown = omega arith;
  below = λ i e. cc;
  distinct = tt;
  free = λ i l e. refl;
  kept = λ i l e. cc;
}
