-- ===== src/HttpBackend/Fork/Reload.antt =====
-- A reload of a backend: the new one is forked, and then the old one is closed.
use simult.Prelude.{
  ℕ, ◌<◌, ◌≡◌, refl, sym, ap, ◌∙◌, Bool, true, false, not, ◌&&◌, ◌||◌, Option, none, some, List, [],
  ◌∷◌, ◌==◌, if◌then◌else◌, ==_iff, Bytes,
}
use simult.BackendServer
use simult.BackendServer.{BackendServer, update, ServerUrl}
use simult.BackendServer.Sharing.{close_shared}
use simult.HttpBackend.Select.{Servers}
use simult.HttpBackend.Fork.{
  Heap, put, ForkError, Forking, add_servers, close_all, settled, begin, fork,
}
use simult.HttpBackend.Fork.Held.{holds, Distinct, Below, Held}
use simult.HttpBackend.Fork.Loop.{add_servers-Held, begin-Held}

-- What closing a map does to one object.
abbrev closed_if : Bool → BackendServer → BackendServer
closed_if b s = if b then BackendServer.close s else s

close_all-store :
    (es : Servers) (h : Heap) (i : ℕ)
    → Distinct es
    → (close_all es h).store i ≡ closed_if (holds es i) (h.store i)
unfolding close_all
close_all-store [] h i d = refl
close_all-store ((name, j) ∷ es) h i d =
    let s = BackendServer.close (h.store j) in
    close_all-store es (put h j s) i d.1 ∙ step (j == i) refl
  where
    step :
        (b : Bool)
        → j == i ≡ b
        → closed_if (holds es i) (if b then BackendServer.close (h.store j) else h.store i)
          ≡ closed_if (b || holds es i) (h.store i)
    step true e =
        let q : j ≡ i = (==_iff j i).0 e in
        let n : holds es i ≡ false = rw (← q) d.0 in rw (n, q) refl
    step false e = refl

unmarked :
    (s : BackendServer) → s.shared ≡ false → BackendServer.close (record s { shared = true }) ≡ s
unmarked s e =
    close_shared (record s { shared = true }) refl ∙ ap (λ b. record s { shared = b }) (sym e)

-- Closing the new map puts the objects back that were made before.
closed-Held :
    (h0 : Heap) (old bss : Servers) (h : Heap) (i : ℕ)
    → Held h0 old bss h
    → i < h0.fresh
    → (close_all bss h).store i ≡ h0.store i
closed-Held h0 old bss h i v l = close_all-store bss h i v.distinct ∙ step (holds bss i) refl
  where
    step : (b : Bool) → holds bss i ≡ b → closed_if b (h.store i) ≡ h0.store i
    step true e = let (a, s, o) = v.kept i l e in ap BackendServer.close a ∙ unmarked (h0.store i) s
    step false e = v.free i l e

-- Closing the old map closes what the new one does not hold.
reloaded-Held :
    (h0 : Heap) (old bss : Servers) (h : Heap) (i : ℕ)
    → Held h0 old bss h
    → Distinct old
    → i < h0.fresh
    → (close_all old h).store i ≡ closed_if (holds old i && not (holds bss i)) (h0.store i)
reloaded-Held h0 old bss h i v d l =
    close_all-store old h i d ∙ step (holds old i) (holds bss i) refl refl
  where
    step :
        (b c : Bool)
        → holds old i ≡ b
        → holds bss i ≡ c
        → closed_if b (h.store i) ≡ closed_if (b && not c) (h0.store i)
    step true true e f =
        let (a, s, o) = v.kept i l f in ap BackendServer.close a ∙ unmarked (h0.store i) s
    step true false e f = ap BackendServer.close (v.free i l f)
    step false true e f = let (a, s, o) = v.kept i l f in cc
    step false false e f = v.free i l f

module _ (url_parse : Bytes → Option ServerUrl) (old : Servers) (lines : List Bytes)
    (h : Heap) where
  abbrev read : Forking
  read = add_servers url_parse old lines (begin h)

  read-Held : Below h.fresh old → Held h old read.bss read.heap
  read-Held b = add_servers-Held url_parse h old lines (begin h) b (begin-Held h old)

  -- A fork that fails leaves no servers in the new backend and every server object that was made
  -- before, those of the old backend among them, exactly as it was.
  pub fork_failed :
      (e : ForkError) (i : ℕ)
      → Below h.fresh old
      → i < h.fresh
      → (fork url_parse old lines h).failure ≡ some e
      → ((fork url_parse old lines h).bss ≡ [])
        × ((fork url_parse old lines h).heap.store i ≡ h.store i)
  unfolding fork settled
  fork_failed e i b l k = go read.failure refl k
    where
      go :
          (o : Option ForkError)
          → read.failure ≡ o
          → (settled read o).failure ≡ some e
          → ((settled read o).bss ≡ []) × ((settled read o).heap.store i ≡ h.store i)
      go none q k = cc
      go (some x) q k = (refl, closed-Held h old read.bss read.heap i (read-Held b) l)

  -- A reload that succeeds, the old backend's closing included, closes exactly those of the old
  -- servers that the new backend does not hold, and leaves every other server object that was made
  -- before exactly as it was, with its connections, its counters and its weight.
  pub fork_reloads :
      (i : ℕ)
      → Below h.fresh old
      → Distinct old
      → i < h.fresh
      → (fork url_parse old lines h).failure ≡ none
      → (close_all old (fork url_parse old lines h).heap).store i ≡ (
          if holds old i && not (holds (fork url_parse old lines h).bss i)
          then BackendServer.close (h.store i)
          else h.store i)
  unfolding fork settled
  fork_reloads i b d l k = go read.failure refl k
    where
      go :
          (o : Option ForkError)
          → read.failure ≡ o
          → (settled read o).failure ≡ none
          → (close_all old (settled read o).heap).store i ≡ (
              if holds old i && not (holds (settled read o).bss i)
              then BackendServer.close (h.store i)
              else h.store i)
      go none q k = reloaded-Held h old read.bss read.heap i (read-Held b) d l
      go (some x) q k = cc
