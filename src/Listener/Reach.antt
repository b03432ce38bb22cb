-- ===== src/Listener/Reach.antt =====
-- Listeners and accepters under any order of calls.
use simult.Prelude.{
  ℕ, ◌+◌, ◌≤◌, ◌<◌, ◌≡◌, refl, Bool, true, false, Option, none, some, List, [], ◌∷◌, ◌++◌, arith,
  ltb, ◌==◌, if◌then◌else◌, =ᵇ-refl, ok, err,
}
use simult.BackendServer.{update}
use simult.AccepterHandler.{set_shared, set}
use simult.Listener.{
  ListenerOptions, Net, Listener, already_forked, mark, close, settle, share, take_over, fork,
  activate,
}
use simult.Listener.Holders.{
  World, joined, holds_it, holders, expected, Counted, creates-Counted, made, holders_at,
  closes-Counted,
}

-- `Fork` in the world: what it returns without an error is one more listener.
abbrev pub after : Bool → Option Listener → ListenerOptions → World → World
after listens l opts v = record {
  listeners = joined (fork listens l opts v.net).0 v.listeners;
  net = (fork listens l opts v.net).1;
}

-- `Close` of the listener between `xs` and `ys`.
abbrev pub closed_at : List Listener → Listener → List Listener → World → World
closed_at xs l ys v = record { listeners = xs ++ (close l v.net).0 ∷ ys; net = (close l v.net).1 }

pub data Step (v w : World) : Type 0 where
  -- `NewListener`.
  creates : (listens : Bool) (opts : ListenerOptions) → w ≡ after listens none opts v → Step v w
  -- `Fork` of a listener for the same network and address.
  forks :
      (listens : Bool) (opts : ListenerOptions) (xs ys : List Listener) (l : Listener)
      → v.listeners ≡ xs ++ l ∷ ys
      → opts.network ≡ l.opts.network
      → opts.address ≡ l.opts.address
      → w ≡ after listens (some l) opts v
      → Step v w
  closes :
      (xs ys : List Listener) (l : Listener)
      → v.listeners ≡ xs ++ l ∷ ys
      → w ≡ closed_at xs l ys v
      → Step v w
  activates :
      (self : ℕ) (xs ys : List Listener) (l : Listener)
      → v.listeners ≡ xs ++ l ∷ ys
      → w ≡ record v { net = activate self l v.net }
      → Step v w

pub data Reachable (v : World) : World → Type 0 where
  start : Reachable v v
  next : (u w : World) → Reachable v u → Step u w → Reachable v w

-- The network in which an accepter is marked as shared.
abbrev pub shared_net : ℕ → Net → Net
shared_net b w = record w {
  accepters =
      update w.accepters b
        (record (w.accepters b) { handler = record ((w.accepters b).handler) { shared = true } });
}

-- `Fork` for the same network and address, as a step.
pub net_forked :
    (listens : Bool) (l : Listener) (opts : ListenerOptions) (w : Net) (b : ℕ) (s : Bool)
    → opts.network ≡ l.opts.network
    → opts.address ≡ l.opts.address
    → l.accr ≡ some b
    → (w.accepters b).handler.shared ≡ s
    → fork listens (some l) opts w ≡ (
      if s then err already_forked else ok (record { opts = opts; accr = some b }),
      shared_net b w,
    )
unfolding fork share mark set_shared take_over settle close
net_forked listens l opts w b true n a e h = rw (e, h) refl
net_forked listens l opts w b false n a e h =
    rw (e, h, n, a, =ᵇ-refl l.opts.network, =ᵇ-refl l.opts.address) refl

fork_closed :
    (listens : Bool) (l : Listener) (opts : ListenerOptions) (w : Net)
    → opts.network ≡ l.opts.network
    → opts.address ≡ l.opts.address
    → l.accr ≡ none
    → fork listens (some l) opts w ≡ (ok (record { opts = opts; accr = none }), w)
unfolding fork share take_over settle
fork_closed listens l opts w n a e =
    rw (e, n, a, =ᵇ-refl l.opts.network, =ᵇ-refl l.opts.address) refl

-- The step for a listener that holds the accepter `b`.
marks-Counted :
    (opts : ListenerOptions) (xs ys : List Listener) (l : Listener) (v : World) (b : ℕ) (s : Bool)
    → Counted v
    → v.listeners ≡ xs ++ l ∷ ys
    → l.accr ≡ some b
    → (v.net.accepters b).handler.shared ≡ s
    → Counted (record {
      listeners =
          joined
            (if s then err already_forked else ok (record { opts = opts; accr = some b }))
            v.listeners;
      net = shared_net b v.net;
    })
marks-Counted opts xs ys l v b s c p e h = record {
  counts = λ d q. (let k = c.counts d q in let j = at d in let cl = c.clear d q in go s h d q);
  unmade = λ d q. (none_more s d q);
  clear = λ d q o. (let k = c.counts d q in let j = at d in let cl = c.clear d q in ground arith);
}
  where
    none_more :
        (s : Bool) (d : ℕ)
        → v.net.fresh ≤ d
        → holders d (
            joined
              (if s then err already_forked else ok (record { opts = opts; accr = some b }))
              v.listeners)
          ≡ 0
    none_more true d q = c.unmade d q
    none_more false d q = let k = c.unmade d q in let m = made xs ys l v b c p e in ground arith

    m : b < v.net.fresh
    m = made xs ys l v b c p e

    at : (d : ℕ) → holders d v.listeners ≡ holders d xs + (holds_it d (some b) + holders d ys)
    at d = holders_at d xs ys l v (some b) p e

    go :
        (s : Bool)
        → (v.net.accepters b).handler.shared ≡ s
        → (d : ℕ) → d < v.net.fresh
        → holders d (
            joined
              (if s then err already_forked else ok (record { opts = opts; accr = some b }))
              v.listeners)
          ≡ expected ((shared_net b v.net).accepters d)
    go true h d q = let k = c.counts d q in let j = at d in let cl = c.clear d q in ground arith
    go false h d q = let k = c.counts d q in let j = at d in let cl = c.clear d q in ground arith

forks-Counted :
    (listens : Bool) (opts : ListenerOptions) (xs ys : List Listener) (l : Listener) (v : World)
    → Counted v
    → v.listeners ≡ xs ++ l ∷ ys
    → opts.network ≡ l.opts.network
    → opts.address ≡ l.opts.address
    → Counted (after listens (some l) opts v)
forks-Counted listens opts xs ys l v c p n a = go l.accr refl
  where
    go : (o : Option ℕ) → l.accr ≡ o → Counted (after listens (some l) opts v)
    go none e = rw (fork_closed listens l opts v.net n a e) (record {
      counts = λ d q. (let k = c.counts d q in ground arith);
      unmade = λ d q. (let k = c.unmade d q in ground arith);
      clear = c.clear;
    })
    go (some b) e =
        rw (net_forked listens l opts v.net b (v.net.accepters b).handler.shared n a e refl)
          (marks-Counted opts xs ys l v b (v.net.accepters b).handler.shared c p e refl)

activates-Counted :
    (self : ℕ) (l : Listener) (v : World)
    → Counted v
    → Counted (record v { net = activate self l v.net })
unfolding activate set
activates-Counted self l v c = go l.accr refl
  where
    go : (o : Option ℕ) → l.accr ≡ o → Counted (record v { net = activate self l v.net })
    go none e = rw e c
    go (some b) e = rw e (record {
      counts = λ d q. (let k = c.counts d q in ground arith);
      unmade = c.unmade;
      clear = λ d q o. (let k = c.clear d q in ground arith);
    })

Step-Counted : (v w : World) → Step v w → Counted v → Counted w
Step-Counted v w (creates listens opts e) c = rw e (creates-Counted listens opts v c)
Step-Counted v w (forks listens opts xs ys l p n a e) c =
    rw e (forks-Counted listens opts xs ys l v c p n a)
Step-Counted v w (closes xs ys l p e) c = rw e (closes-Counted xs ys l v c p)
Step-Counted v w (activates self xs ys l p e) c = rw e (activates-Counted self l v c)

Reachable-Counted : (v w : World) → Reachable v w → Counted v → Counted w
Reachable-Counted v _ start c = c
Reachable-Counted v w (next u _ r s) c = Step-Counted u w s (Reachable-Counted v u r c)

-- From a state without listeners, in any order of `NewListener`, of `Fork` for the same network and
-- address, and of `Close` and `Activate` of any listener: an accepter is open just when a listener
-- holds it, and its mark is set just when two listeners do.
pub Reachable-opened :
    (v w : World) (a : ℕ)
    → v.listeners ≡ []
    → v.net.fresh ≡ 0
    → Reachable v w
    → a < w.net.fresh
    → ((w.net.accepters a).opened ≡ ltb 0 (holders a w.listeners))
      × ((w.net.accepters a).handler.shared ≡ holders a w.listeners == 2)
Reachable-opened v w a n z r q =
    let c = Reachable-Counted v w r (record {
      counts = λ d p. omega arith;
      unmade = λ d p. rw n refl;
      clear = λ d p _. absurd (omega arith);
    }) in
    let k = c.counts a q in let cl = c.clear a q in (ground arith, ground arith)
