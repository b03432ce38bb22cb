-- ===== src/HttpBackend/Fork/Tally/Forks.antt =====
-- `Fork` and `Activate` of a backend, against how many maps hold each server.
use simult.Prelude.{
  ℕ, ◌≤◌, ◌≡◌, refl, sym, ◌∙◌, Option, none, some, List, [], ◌∷◌, arith, Bytes, split_all, Result,
  ok, err,
}
use simult.BackendServer.{BackendServer, ServerUrl, Made, made, refused, build, new_backend_server}
use simult.BackendServer.Sharing.{set_health_check-flags, set_health_check-clean}
use simult.BackendServer.Opened.{new_backend_server-made}
use simult.HttpCheck.{HttpCheck, HttpCheckOptions}
use simult.HttpBackend.Select.{Servers}
use simult.HttpBackend.Fork.{
  Heap, put, alloc, lookup, ForkError, Forking, add_made, add_server, add_servers, begin,
  check_line, settled, fork, activate, report,
}
use simult.HttpBackend.Fork.Tally.{
  expected, Clean, Tallied, still, close_head, close_all-Tallied, alloc-Tallied, adopt-Tallied,
}

module _ (base : ℕ → ℕ) where
  -- The old backend's map is among those that `base` counts.
  abbrev pub Counted : Servers → Type 0
  Counted old = (name : Bytes) (i : ℕ) → lookup name old ≡ some i → 1 ≤ base i

  abbrev TalliedBy : Forking → Type 0
  TalliedBy f = Tallied base f.bss f.heap

  add_made-Tallied :
      (old : Servers) (f : Forking) (x : Bytes) (n : ℕ) (r : Result ForkError ℕ)
      → Counted old
      → Tallied base ((x, n) ∷ f.bss) f.heap
      → TalliedBy (add_made old f n r)
  unfolding add_made
  add_made-Tallied old f x n (err e) b v = close_head base f.bss f.heap x n v
  add_made-Tallied old f x n (ok w) b v =
      let s : BackendServer = record (f.heap.store n) { weight = w } in
      adopt-Tallied base f.bss (put f.heap n s) x n (lookup ((put f.heap n s).store n).server old)
        (λ (p : ℕ × Heap). (p.1.store p.0).server)
        (still base ((x, n) ∷ f.bss) f.heap n s refl (λ c. c) v) (λ i e. b _ i e)

  add_server-Tallied :
      (old : Servers) (f : Forking) (words : List Bytes) (m : Made BackendServer)
      → ((s : BackendServer) → m ≡ made s → (expected s ≡ 1) × Clean s)
      → Counted old
      → TalliedBy f
      → TalliedBy (add_server old f words m)
  unfolding add_server
  add_server-Tallied old f words (refused e) n b v = v
  add_server-Tallied old f words (made s) n b v =
      add_made-Tallied old (record f { heap = alloc f.heap s }) [] f.heap.fresh
        (check_line f.bss s words) b
        (alloc-Tallied base f.bss f.heap [] s (n s refl).0 (n s refl).1 v)

  stop-Tallied :
      (f g : Forking) (o : Option ForkError)
      → TalliedBy f
      → TalliedBy g
      → TalliedBy (elim o [ none ↦ f | some e ↦ g ])
  stop-Tallied f g none v w = v
  stop-Tallied f g (some e) v w = w

  add_servers-Tallied :
      (url_parse : Bytes → Option ServerUrl) (old : Servers) (lines : List Bytes) (f : Forking)
      → Counted old
      → TalliedBy f
      → TalliedBy (add_servers url_parse old lines f)
  unfolding add_servers build
  add_servers-Tallied url_parse old [] f b v = v
  add_servers-Tallied url_parse old (line ∷ lines) f b v =
      let (name, words) = split_all b' ' line in
      let f' = add_server old f words (new_backend_server url_parse name) in
      let n =
        new_backend_server-made (λ s. (expected s ≡ 1) × Clean s) (λ u a t. (refl, λ d. cc))
          url_parse name in
      let v' = add_server-Tallied old f words (new_backend_server url_parse name) n b v in
      stop-Tallied (add_servers url_parse old lines f') f' f'.failure
        (add_servers-Tallied url_parse old lines f' b v') v'

  settled-Tallied : (f : Forking) (o : Option ForkError) → TalliedBy f → TalliedBy (settled f o)
  unfolding settled
  settled-Tallied f none v = v
  settled-Tallied f (some e) v = close_all-Tallied base f.bss f.heap v

  -- `Fork`, with and without an error: what the new map holds is held by it once.
  pub fork-Tallied :
      (url_parse : Bytes → Option ServerUrl) (old : Servers) (lines : List Bytes) (h : Heap)
      → Counted old
      → Tallied base [] h
      → TalliedBy (fork url_parse old lines h)
  unfolding fork
  fork-Tallied url_parse old lines h b v =
      let f = add_servers url_parse old lines (begin h) in
      settled-Tallied f f.failure (add_servers-Tallied url_parse old lines (begin h) b v)

  pub activate-Tallied :
      (opts : Option HttpCheckOptions) (es bss : Servers) (h : Heap)
      → Tallied base bss h
      → Tallied base bss (activate opts es h).0
  unfolding activate
  activate-Tallied opts [] bss h v = v
  activate-Tallied none ((name, i) ∷ es) bss h v =
      let (d, s) = set_health_check-flags (h.store i) none in
      activate-Tallied none es bss _
        (still base bss h i _ (ground arith) (set_health_check-clean (h.store i) none) v)
  activate-Tallied (some o) ((name, i) ∷ es) bss h v = activate-Tallied (some o) es bss h v

  pub report-Tallied :
      (bss : Servers) (h : Heap) (r : ℕ × HttpCheck)
      → Tallied base bss h
      → Tallied base bss (report h r)
  unfolding report
  report-Tallied bss h (i, check) v =
      let (d, s) = set_health_check-flags (h.store i) (some check) in
      still base bss h i _ (ground arith) (set_health_check-clean (h.store i) (some check)) v

-- An error leaves no map.
pub fork-empty :
    (url_parse : Bytes → Option ServerUrl) (old : Servers) (lines : List Bytes) (h : Heap)
    (e : ForkError)
    → (fork url_parse old lines h).failure ≡ some e
    → (fork url_parse old lines h).bss ≡ []
unfolding fork settled
fork-empty url_parse old lines h e q = go f.failure refl q
  where
    f : Forking
    f = add_servers url_parse old lines (begin h)

    go :
        (o : Option ForkError)
        → f.failure ≡ o
        → (settled f o).failure ≡ some e
        → (settled f o).bss ≡ []
    go none p q = let x : none ≡ some e = sym p ∙ q in cc
    go (some x) p q = refl
