-- ===== src/BackendServer/Life/Tally.antt =====
-- The three counters against the numbers of idle and busy connections.
use simult.Prelude.{
  ℕ, suc, ◌+◌, ◌≡◌, refl, ◌∙◌, inl, inr, some, List, [], ◌∷◌, arith, Bool-cases, if-cases, length,
  pos,
}
use mathlib.Core.Path.{subst}
use simult.BufConn
use simult.BufConn.{BufConn}
use simult.BackendServer.{
  BackendServer, forget, evict, close_conn, inspect_conn, usable, pull, take_idle, enter, leave,
  dial_failed, dial_done, acquire_idle, pool_conn, settle, conn_release, sweep, work, drain, close,
  contains,
}
use simult.BackendServer.Claim.{take_idle_cases}

pub record Tally (s : BackendServer) (idle busy : ℕ) : Type 0 where
  pub idles : s.idle_conn_count ≡ pos idle
  pub actives : s.active_conn_count ≡ pos busy
  pub totals : s.total_conn_count ≡ pos (idle + busy)

-- Whatever else changes, the counters that are the same tally the same.
pub Tally-same :
    {s t : BackendServer} {idle busy : ℕ}
    → t.idle_conn_count ≡ s.idle_conn_count
    → t.active_conn_count ≡ s.active_conn_count
    → t.total_conn_count ≡ s.total_conn_count
    → Tally s idle busy
    → Tally t idle busy
Tally-same a b c h = record { idles = a ∙ h.idles; actives = b ∙ h.actives; totals = c ∙ h.totals }

forget-Tally :
    (s : BackendServer) (rest : List ℕ) (idle busy : ℕ)
    → Tally s (suc idle) busy
    → Tally (forget s rest) idle busy
unfolding forget
forget-Tally s rest idle busy h = ground arith

pub enter-Tally :
    (s : BackendServer) (idle busy : ℕ) → Tally s idle busy → Tally (enter s) idle (suc busy)
unfolding enter
enter-Tally s idle busy h = ground arith

pub leave-Tally :
    (s : BackendServer) (idle busy : ℕ) → Tally s idle (suc busy) → Tally (leave s) idle busy
unfolding leave
leave-Tally s idle busy h = ground arith

pub dial_failed-Tally :
    (s : BackendServer) (idle busy : ℕ) → Tally s idle (suc busy) → Tally (dial_failed s) idle busy
unfolding dial_failed
dial_failed-Tally s idle busy h = ground arith

pub dial_done-Tally :
    (s : BackendServer) (idle busy : ℕ) → Tally s idle busy → Tally (dial_done s).1 idle busy
unfolding dial_done
dial_done-Tally s idle busy h = Tally-same refl refl refl h

-- A server whose idle counter agrees with its map.
abbrev pub Tallied : BackendServer → ℕ → Type 0
Tallied s busy = Tally s (length s.bcs) busy

pull-Tally :
    (s : BackendServer) (c : ℕ) (rest : List ℕ) (busy : ℕ)
    → Tally s (suc (length rest)) busy
    → Tallied (pull s c rest) busy
unfolding pull
pull-Tally s c rest busy h = Tally-same refl refl refl (forget-Tally s rest (length rest) busy h)

take_idle-Tallied :
    (s : BackendServer) (xs : List ℕ) (busy : ℕ)
    → Tally s (length xs) busy
    → Tallied (take_idle s xs).1 busy
take_idle-Tallied s [] busy h = unfold take_idle in Tally-same refl refl refl h
take_idle-Tallied s (c ∷ rest) busy h =
    let p = pull-Tally s c rest busy h in
    let q : Tally (pull s c rest) (length rest) busy = unfold pull in p in
    take_idle_cases (λ r. Tallied r.1 busy) s c rest (λ _. p)
      (take_idle-Tallied (pull s c rest) rest busy q)

pub dial_failed-Tallied :
    (s : BackendServer) (busy : ℕ) → Tallied s (suc busy) → Tallied (dial_failed s) busy
unfolding dial_failed
dial_failed-Tallied s busy h = dial_failed-Tally s _ busy h

pub dial_done-Tallied :
    (s : BackendServer) (busy : ℕ) → Tallied s busy → Tallied (dial_done s).1 busy
unfolding dial_done
dial_done-Tallied s busy h = dial_done-Tally s _ busy h

-- The number of busy connections, written another way.
pub Tallied-cast : {s : BackendServer} {i j : ℕ} → i ≡ j → Tallied s i → Tallied s j
Tallied-cast {s} e = subst (λ n. Tallied s n) e

pub acquire_idle-Tallied :
    (s : BackendServer) (busy : ℕ) → Tallied s busy → Tallied (acquire_idle s).1 (suc busy)
unfolding acquire_idle
acquire_idle-Tallied s busy h = enter-Tally _ _ busy (take_idle-Tallied s s.bcs busy h)

pool_conn-Tallied : (s : BackendServer) (c busy : ℕ) → Tallied s busy → Tallied (pool_conn s c) busy
unfolding pool_conn
pool_conn-Tallied s c busy h = elim (Bool-cases (contains s.bcs c)) [
  | inl u ↦ rw (u, pool_conn) h
  | inr u ↦ rw (u, pool_conn) (ground arith)
]

pub settle_cases {ℓ} :
    (P : BackendServer → Type ℓ) (s : BackendServer) (c : ℕ)
    → P (close_conn s c)
    → P (pool_conn (inspect_conn s c) c)
    → P (inspect_conn s c)
    → P (settle s c)
unfolding settle
settle_cases P s c a b d =
    if-cases P s.done (λ _. a) (λ _. if-cases P (usable (s.conns c)) (λ _. b) (λ _. d))

settle-Tallied : (s : BackendServer) (c busy : ℕ) → Tallied s busy → Tallied (settle s c) busy
unfolding close_conn inspect_conn
settle-Tallied s c busy h =
    let opened : Tallied (inspect_conn s c) busy = Tally-same refl refl refl h in
    settle_cases (λ t. Tallied t busy) s c (Tally-same refl refl refl h)
      (pool_conn-Tallied (inspect_conn s c) c busy opened) opened

pub conn_release-Tallied :
    (s : BackendServer) (c busy : ℕ) → Tallied s (suc busy) → Tallied (conn_release s (some c)) busy
unfolding conn_release leave
conn_release-Tallied s c busy h = settle-Tallied (leave s) c busy (leave-Tally s _ busy h)

evict-Tally :
    (s : BackendServer) (c : ℕ) (rest : List ℕ) (idle busy : ℕ)
    → Tally s (suc idle) busy
    → Tally (evict s c rest) idle busy
unfolding evict
evict-Tally s c rest idle busy h = Tally-same refl refl refl (forget-Tally s rest idle busy h)

evict-bcs : (s : BackendServer) (c : ℕ) (rest : List ℕ) → (evict s c rest).bcs ≡ rest
unfolding evict
evict-bcs s c rest = refl

pub sweep_cases {ℓ} :
    (P : BackendServer → Type ℓ) (s : BackendServer) (c : ℕ) (rest : List ℕ)
    → P (record (sweep s rest) { bcs = c ∷ (sweep s rest).bcs })
    → P (evict (sweep s rest) c (sweep s rest).bcs)
    → P (sweep s (c ∷ rest))
unfolding sweep
sweep_cases P s c rest kept gone = if-cases P (BufConn.check (s.conns c)) (λ _. kept) (λ _. gone)

pub Tally-cast : {s : BackendServer} {i j busy : ℕ} → i ≡ j → Tally s i busy → Tally s j busy
Tally-cast {s} {busy = busy} e = subst (λ n. Tally s n busy) e

-- The part of the idle counter that stands for the swept connections.
sweep-Tally :
    (s : BackendServer) (xs : List ℕ) (more busy : ℕ)
    → Tally s (length xs + more) busy
    → Tally (sweep s xs) (length (sweep s xs).bcs + more) busy
sweep-Tally s [] more busy h = unfold sweep in Tally-same refl refl refl h
sweep-Tally s (c ∷ rest) more busy h =
    let ih = sweep-Tally s rest (suc more) busy (Tally-cast (omega arith) h) in
    sweep_cases (λ t. Tally t (length t.bcs + more) busy) s c rest
      (Tally-same refl refl refl (Tally-cast (omega arith) ih))
      (Tally-cast (rw (evict-bcs (sweep s rest) c (sweep s rest).bcs)) (
        evict-Tally (sweep s rest) c _ (length (sweep s rest).bcs + more) busy
          (Tally-cast (omega arith) ih)))

pub work-Tallied : (s : BackendServer) (busy : ℕ) → Tallied s busy → Tallied (work s) busy
unfolding work
work-Tallied s busy h =
    Tally-cast (omega arith) (sweep-Tally s s.bcs 0 busy (Tally-cast (omega arith) h))

drain-Tallied :
    (s : BackendServer) (xs : List ℕ) (busy : ℕ)
    → Tally s (length xs) busy
    → Tallied (drain s xs) busy
unfolding drain
drain-Tallied s [] busy h = Tally-same refl refl refl h
drain-Tallied s (c ∷ rest) busy h =
    drain-Tallied (evict s c rest) rest busy (evict-Tally s c rest (length rest) busy h)

pub close-Tallied : (s : BackendServer) (busy : ℕ) → Tallied s busy → Tallied (close s) busy
unfolding close
close-Tallied s busy h =
    if-cases (λ t. Tallied t busy) s.shared (λ _. Tally-same refl refl refl h)
      (λ _. Tally-same refl refl refl (drain-Tallied _ s.bcs busy (Tally-same refl refl refl h)))
