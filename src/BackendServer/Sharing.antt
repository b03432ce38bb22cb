-- ===== src/BackendServer/Sharing.antt =====
-- Closing and sharing: which close really ends a server, and what becomes of health checks.
use simult.Prelude.{
  ℕ, ◌≡◌, refl, ◌⊎◌, inl, inr, true, false, Option, none, some, List, [], ◌∷◌, append-nil, arith,
  Bool-cases, if-cases, All,
}
use simult.BufConn
use simult.BufConn.{BufConn}
use simult.HttpCheck.{HttpCheck}
use simult.BackendServer.{
  BackendServer, evict, drain, close, set_health_check, closed, conn_release, settle, close_conn,
  leave,
}

-- All connections of a list are closed and fail the check.
abbrev pub AllClosed : (ℕ → BufConn) → List ℕ → Type 0
AllClosed conns = All (λ c. BufConn.check (conns c) ≡ false)

evict_closes :
    (s : BackendServer) (c : ℕ) (rest : List ℕ) → BufConn.check ((evict s c rest).conns c) ≡ false
unfolding evict BufConn.check BufConn.close
evict_closes s c rest = ground arith

evict_keeps :
    (s : BackendServer) (c d : ℕ) (rest : List ℕ)
    → BufConn.check (s.conns d) ≡ false
    → BufConn.check ((evict s c rest).conns d) ≡ false
unfolding evict BufConn.check BufConn.close
evict_keeps s c d rest h = ground arith

drain_keeps :
    (s : BackendServer) (xs : List ℕ) (d : ℕ)
    → BufConn.check (s.conns d) ≡ false
    → BufConn.check ((drain s xs).conns d) ≡ false
unfolding drain
drain_keeps s [] d h = h
drain_keeps s (c ∷ rest) d h = drain_keeps (evict s c rest) rest d (evict_keeps s c d rest h)

drain_closes : (s : BackendServer) (xs : List ℕ) → AllClosed (drain s xs).conns xs
unfolding drain
drain_closes s [] = tt
drain_closes s (c ∷ rest) = (
  drain_keeps (evict s c rest) rest c (evict_closes s c rest),
  drain_closes (evict s c rest) rest,
)

drain_same :
    (s : BackendServer) (xs : List ℕ)
    → ((drain s xs).bcs ≡ []) × ((drain s xs).done ≡ s.done) × ((drain s xs).shared ≡ s.shared)
unfolding drain evict
drain_same s [] = (refl, refl, refl)
drain_same s (c ∷ rest) = drain_same (evict s c rest) rest

-- The server has ended: no idle connection, those it had closed, no health check.
pub record Ended (idle : List ℕ) (t : BackendServer) : Type 0 where
  pub done : t.done ≡ true
  pub unshared : t.shared ≡ false
  pub empty : t.bcs ≡ []
  pub closed_all : AllClosed t.conns idle
  pub unwatched : t.health_check ≡ none

-- What `close` does to a server that is not shared.
shut_down : BackendServer → BackendServer
shut_down s = record (drain (record s { shared = false; done = true }) s.bcs) {
  health_check = none;
}

shut_down-Ended : (s : BackendServer) → Ended s.bcs (shut_down s)
unfolding shut_down
shut_down-Ended s =
    let (e, d, u) = drain_same (record s { shared = false; done = true }) s.bcs in
    record {
      done = d;
      unshared = u;
      empty = e;
      closed_all = drain_closes (record s { shared = false; done = true }) s.bcs;
      unwatched = refl;
    }

close_unshared : (s : BackendServer) → s.shared ≡ false → close s ≡ shut_down s
unfolding close shut_down
close_unshared s e = if-cases (λ t. t ≡ shut_down s) s.shared (λ y. cc (y, e)) (λ _. refl)

pub close_shared : (s : BackendServer) → s.shared ≡ true → close s ≡ record s { shared = false }
unfolding close
close_shared s e =
    if-cases (λ t. t ≡ record s { shared = false }) s.shared (λ _. refl) (λ n. cc (n, e))

close-Ended : (s : BackendServer) → s.shared ≡ false → Ended s.bcs (close s)
close-Ended s e = rw (close_unshared s e) (shut_down-Ended s)

-- Closing an unshared server ends it. Closing a shared one only takes the mark away, so it is the
-- close after that which ends it, and each mark saves the server from exactly one close.
pub close_once_per_owner :
    (s : BackendServer)
    → ((s.shared ≡ false) × Ended s.bcs (close s))
      ⊎ ((s.shared ≡ true)
          × (close s ≡ record s { shared = false })
          × Ended s.bcs (close (close s)))
close_once_per_owner s = elim (Bool-cases s.shared) [
  | inr e ↦ inl (e, close-Ended s e)
  | inl e ↦
      inr (
        e,
        close_shared s e,
        rw (close_shared s e) (close-Ended (record s { shared = false }) refl),
      )
]

late :
    (t : BackendServer) (idle : List ℕ) (c : ℕ) (h : Option HttpCheck)
    → Ended idle t
    → ((conn_release t (some c)).bcs ≡ [])
      × (BufConn.check ((conn_release t (some c)).conns c) ≡ false)
      × ((set_health_check t h).0.health_check ≡ none)
      × ((set_health_check t h).1 ≡ closed h)
unfolding conn_release settle close_conn leave set_health_check BufConn.check BufConn.close closed
late t idle c h e = (
  ground (arith, e.done, e.empty),
  ground (arith, e.done),
  ground (arith, e.done),
  ground (arith, e.done, e.unwatched, append-nil (closed h)),
)

-- After an unshared server is closed, a connection that is given back is closed and not pooled, and
-- a health check that is set, as a late `Activate` does, is closed and not stored.
pub late_arrivals :
    (s : BackendServer) (c : ℕ) (h : Option HttpCheck)
    → s.shared ≡ false
    → ((conn_release (close s) (some c)).bcs ≡ [])
      × (BufConn.check ((conn_release (close s) (some c)).conns c) ≡ false)
      × ((set_health_check (close s) h).0.health_check ≡ none)
      × ((set_health_check (close s) h).1 ≡ closed h)
late_arrivals s c h e = late (close s) s.bcs c h (close-Ended s e)

-- A health check that is set changes neither what is closed nor what is shared.
pub set_health_check-flags :
    (s : BackendServer) (h : Option HttpCheck)
    → ((set_health_check s h).0.done ≡ s.done) × ((set_health_check s h).0.shared ≡ s.shared)
unfolding set_health_check
set_health_check-flags s h =
    if-cases (λ (t : BackendServer × List HttpCheck). (t.0.done ≡ s.done) × (t.0.shared ≡ s.shared))
      s.done (λ _. (refl, refl)) (λ _. (refl, refl))

-- A server that is closed keeps no health check that is set later.
pub set_health_check-clean :
    (s : BackendServer) (h : Option HttpCheck)
    → (s.done ≡ true → (s.health_check ≡ none) × (s.bcs ≡ []))
    → (set_health_check s h).0.done ≡ true
    → ((set_health_check s h).0.health_check ≡ none) × ((set_health_check s h).0.bcs ≡ [])
unfolding set_health_check
set_health_check-clean s h c =
    if-cases
      (λ (t : BackendServer × List HttpCheck).
        t.0.done ≡ true → (t.0.health_check ≡ none) × (t.0.bcs ≡ []))
      s.done (λ y d. (refl, (c y).1)) (λ n d. absurd cc)
