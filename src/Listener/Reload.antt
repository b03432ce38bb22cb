-- ===== src/Listener/Reload.antt =====
-- A reload of one listener: the old and the new one by themselves.
use simult.Prelude.{
  ℕ, ◌≡◌, refl, ◌≢◌, ◌⊎◌, inl, inr, Bool, true, false, ◌&&◌, Option, none, some, arith, ==_iff,
  ◌=ᵇ◌, Result, ok, err,
}
use simult.AccepterHandler.{Served, set_shared, set, serve}
use simult.Listener.{
  ListenerOptions, Net, Listener, ListenError, network_differs, address_differs, already_forked,
  mark, close, settle, share, take_over, fork, activate,
}
use simult.Listener.Reach.{net_forked, shared_net}
use simult.Listener.Holders.{net_some}

-- What the options ask the handler to do with a connection.
abbrev pub served_by : ℕ → ListenerOptions → Option Served
served_by self opts = elim opts.fe [
  | none ↦ none
  | some fe ↦ some (record { fe = fe; le = some self; wrapped = opts.tls_config })
]

-- Where an open listener's accepter is not shared and the network and the address stay, `Fork` takes
-- the accepter over; behind `Activate` of the new and `Close` of the old listener it is open, calls
-- the new frontend with the new configuration, and no other accepter has changed.
pub hands_over :
    (listens : Bool) (self : ℕ) (l : Listener) (opts : ListenerOptions) (w : Net) (b : ℕ)
    → l.accr ≡ some b
    → (w.accepters b).opened ≡ true
    → (w.accepters b).handler.shared ≡ false
    → opts.network ≡ l.opts.network
    → opts.address ≡ l.opts.address
    → (let ln : Listener = record { opts = opts; accr = some b } in
        let (r, w') = fork listens (some l) opts w in
        let w'' = (close l (activate self ln w')).1 in
        (r ≡ ok ln)
        × ((w''.accepters b).opened ≡ true)
        × (serve (w''.accepters b).handler ≡ served_by self opts)
        × ((a : ℕ) → b ≢ a → w''.accepters a ≡ w.accepters a))
unfolding activate set serve
hands_over listens self l opts w b e o h n a =
    let n' =
      (net_some l (activate self (record { opts = opts; accr = some b }) (shared_net b w)) b e).1 in
    rw (net_forked listens l opts w b false n a e h) (
      refl,
      rw (n' b) (ground arith),
      rw (n' b, (==_iff b b).1 refl) refl,
      λ a ne. rw (n' a) (ground arith),
    )

fork_marked :
    (listens : Bool) (l : Listener) (opts : ListenerOptions) (w : Net) (b : ℕ)
    → l.accr ≡ some b
    → (w.accepters b).handler.shared ≡ true
    → (fork listens (some l) opts w).0 ≡ err already_forked
unfolding fork share mark set_shared take_over settle close
fork_marked listens l opts w b e h = rw (e, h) refl

-- The error for whether the networks are equal.
abbrev refusal : Bool → Result ListenError Listener
refusal true = err address_differs
refusal false = err network_differs

fork_refused :
    (listens : Bool) (l : Listener) (opts : ListenerOptions) (w : Net) (b : ℕ)
    → l.accr ≡ some b
    → (w.accepters b).handler.shared ≡ false
    → (s t : Bool) → opts.network =ᵇ l.opts.network ≡ s
    → opts.address =ᵇ l.opts.address ≡ t
    → (s && t) ≡ false
    → fork listens (some l) opts w ≡ (refusal s, shared_net b w)
unfolding fork share mark set_shared take_over settle close
fork_refused listens l opts w b e h true true p q d = absurd (ground arith)
fork_refused listens l opts w b e h true false p q d = rw (e, h, p, q) refl
fork_refused listens l opts w b e h false t p q d = rw (e, h, p) refl

-- Where an open listener's accepter is not shared, and the network or the address differ, `Fork`
-- fails; but behind that every other `Fork` of the old listener fails, too, and the accepter stays
-- open when the old listener is closed.
pub refused_opened :
    (listens : Bool) (l : Listener) (opts : ListenerOptions) (w : Net) (b : ℕ)
    → l.accr ≡ some b
    → (w.accepters b).opened ≡ true
    → (w.accepters b).handler.shared ≡ false
    → (opts.network =ᵇ l.opts.network && opts.address =ᵇ l.opts.address) ≡ false
    → (let (r, w') = fork listens (some l) opts w in
        ((r ≡ err network_differs) ⊎ (r ≡ err address_differs))
        × (((close l w').1.accepters b).opened ≡ true)
        × ((o : ListenerOptions) → (fork listens (some l) o w').0 ≡ err already_forked))
refused_opened listens l opts w b e o h d =
    let n = (net_some l (shared_net b w) b e).1 in
    rw (fork_refused listens l opts w b e h _ _ refl refl d) (
      by_network (opts.network =ᵇ l.opts.network),
      rw (n b) (ground arith),
      λ o. fork_marked listens l o (shared_net b w) b e (ground arith),
    )
  where
    by_network : (s : Bool) → (refusal s ≡ err network_differs) ⊎ (refusal s ≡ err address_differs)
    by_network true = inr refl
    by_network false = inl refl
