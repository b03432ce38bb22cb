-- ===== src/Listener/Holders.antt =====
-- The listeners that hold an accepter, against the state of the accepter.
use simult.Prelude.{
  ℕ, ◌+◌, ◌≤◌, ◌<◌, ◌≡◌, refl, sym, ap, ◌∙◌, inl, inr, Bool, true, false, Option, none, some, List,
  [], ◌∷◌, ◌++◌, arith, ltb, ◌==◌, if◌then◌else◌, Bool-cases, if-cases, Result, ok, err,
}
use simult.AccepterHandler.{set_shared, set}
use simult.Listener.{
  ListenerOptions, Accepter, Net, Listener, ListenError, mark, close_accepter, close, activate,
  settle, fork,
}

-- The listeners of all applications, old and new, and the network.
pub record World : Type 0 where
  pub listeners : List Listener
  pub net : Net

abbrev pub joined : Result ListenError Listener → List Listener → List Listener
joined (ok ln) ls = ln ∷ ls
joined (err e) ls = ls

abbrev pub holds_it : ℕ → Option ℕ → ℕ
holds_it a none = 0
holds_it a (some b) = if b == a then 1 else 0

abbrev pub holders : ℕ → List Listener → ℕ
holders a [] = 0
holders a (l ∷ ls) = holds_it a l.accr + holders a ls

holders-append :
    (a : ℕ) (xs ys : List Listener) → holders a (xs ++ ys) ≡ holders a xs + holders a ys
holders-append a [] ys = omega arith
holders-append a (l ∷ xs) ys = ground (arith, holders-append a xs ys)

-- What the state of an accepter says of its holders.
abbrev pub expected : Accepter → ℕ
expected p = if p.opened then (if p.handler.shared then 2 else 1) else 0

pub record Counted (v : World) : Type 0 where
  pub counts : (a : ℕ) → a < v.net.fresh → holders a v.listeners ≡ expected (v.net.accepters a)
  pub unmade : (a : ℕ) → v.net.fresh ≤ a → holders a v.listeners ≡ 0
  pub clear :
      (a : ℕ)
      → a < v.net.fresh
      → (v.net.accepters a).opened ≡ false
      → (v.net.accepters a).handler.shared ≡ false

pub creates-Counted :
    (listens : Bool) (opts : ListenerOptions) (v : World)
    → Counted v
    → Counted (record {
      listeners = joined (fork listens none opts v.net).0 v.listeners;
      net = (fork listens none opts v.net).1;
    })
unfolding fork settle close
creates-Counted false opts v c = record { counts = c.counts; unmade = c.unmade; clear = c.clear }
creates-Counted true opts v c = record {
  counts = λ a p. (let q = c.counts a in let u = c.unmade a in ground arith);
  unmade = λ a p. (let u = c.unmade a (omega arith) in ground arith);
  clear = λ a p. (let q = c.clear a in ground arith);
}

-- The holders of an accepter around one of them.
pub holders_at :
    (a : ℕ) (xs ys : List Listener) (l : Listener) (v : World) (o : Option ℕ)
    → v.listeners ≡ xs ++ l ∷ ys
    → l.accr ≡ o
    → holders a v.listeners ≡ holders a xs + (holds_it a o + holders a ys)
holders_at a xs ys l v o p e = rw (p, holders-append a xs (l ∷ ys), e) refl

-- A listener's accepter is made.
pub made :
    (xs ys : List Listener) (l : Listener) (v : World) (b : ℕ)
    → Counted v
    → v.listeners ≡ xs ++ l ∷ ys
    → l.accr ≡ some b
    → b < v.net.fresh
made xs ys l v b c p e =
    let n = holders_at b xs ys l v (some b) p e in
    elim (Bool-cases (ltb b v.net.fresh)) [
      | inl q ↦ ground arith
      | inr q ↦ absurd (let u = c.unmade b (ground arith) in ground arith)
    ]

pub close-none : (l : Listener) (w : Net) → l.accr ≡ none → close l w ≡ (l, w)
unfolding close
close-none l w e = rw e refl

-- `Close` of a listener that is open, on its accepter.
abbrev pub released : Accepter → Accepter
released p = record {
  handler = record (p.handler) { shared = false };
  opened = if p.handler.shared then p.opened else false;
}

pub close-some :
    (l : Listener) (w : Net) (b : ℕ) → l.accr ≡ some b → (close l w).0 ≡ record l { accr = none }
unfolding close
close-some l w b e = rw e refl

pub net_some :
    (l : Listener) (w : Net) (b : ℕ)
    → l.accr ≡ some b
    → ((close l w).1.fresh ≡ w.fresh)
      × ((a : ℕ)
          → (close l w).1.accepters a
            ≡ (if b == a then released (w.accepters b) else w.accepters a))
unfolding close mark close_accepter set_shared
net_some l w b e = rw e (
    if-cases
      (λ (r : Net).
        (r.fresh ≡ w.fresh)
        × ((a : ℕ) → r.accepters a ≡ (if b == a then released (w.accepters b) else w.accepters a)))
      (w.accepters b).handler.shared (λ y. (refl, λ a. rw y refl))
      (λ n. (refl, λ a. rw n (ground arith))))

pub closes-Counted :
    (xs ys : List Listener) (l : Listener) (v : World)
    → Counted v
    → v.listeners ≡ xs ++ l ∷ ys
    → Counted (record { listeners = xs ++ (close l v.net).0 ∷ ys; net = (close l v.net).1 })
closes-Counted xs ys l v c p = go l.accr refl
  where
    go :
        (o : Option ℕ)
        → l.accr ≡ o
        → Counted (record { listeners = xs ++ (close l v.net).0 ∷ ys; net = (close l v.net).1 })
    go none e = rw (close-none l v.net e, sym p) c
    go (some b) e =
        let m = made xs ys l v b c p e in
        let (f, n) = net_some l v.net b e in
        rw (close-some l v.net b e) (record {
          counts = λ a q.
              rw (n a, holders-append a xs (record l { accr = none } ∷ ys))
                (let k = c.counts a (omega arith) in
                  let m = holders_at a xs ys l v (some b) p e in
                  let cl = c.clear a (omega arith) in ground arith);
          unmade = λ a q.
              let k = c.unmade a (omega arith) in
              let m = holders_at a xs ys l v (some b) p e in
              rw (holders-append a xs (record l { accr = none } ∷ ys)) (ground arith);
          clear = λ a q o.
              (let cl = c.clear a (omega arith) in
                let o' : (if b == a then released (v.net.accepters b) else v.net.accepters a).opened
                    ≡ false =
                  sym (ap (λ (r : Accepter). r.opened) (n a)) ∙ o in
                rw (n a) (ground arith));
        })

-- `Activate` changes neither marks nor what is open.
pub activate_quiet :
    (self : ℕ) (l : Listener) (w : Net)
    → ((activate self l w).fresh ≡ w.fresh)
      × ((a : ℕ)
          → (((activate self l w).accepters a).opened ≡ (w.accepters a).opened)
            × (((activate self l w).accepters a).handler.shared ≡ (w.accepters a).handler.shared))
unfolding activate set
activate_quiet self l w = go l.accr refl
  where
    go :
        (o : Option ℕ)
        → l.accr ≡ o
        → ((activate self l w).fresh ≡ w.fresh)
          × ((a : ℕ)
              → (((activate self l w).accepters a).opened ≡ (w.accepters a).opened)
                × (((activate self l w).accepters a).handler.shared
                    ≡ (w.accepters a).handler.shared))
    go none e = rw e (refl, λ a. (refl, refl))
    go (some b) e = rw e (refl, λ a. (ground arith, ground arith))
