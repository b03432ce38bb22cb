-- ===== src/BackendServer/Claim.antt =====
-- What one acquisition and one release do.
use simult.Prelude.{
  ℕ, ◌≡◌, refl, sym, ◌∙◌, inl, inr, Bool, true, false, Option, none, some, List, [], ◌∷◌, arith,
  Bool-cases,
}
use simult.BufConn
use simult.BufConn.{BufConn}
use simult.BackendServer.{
  BackendServer, update, usable, inspect, pull, take_idle, acquire_idle, or_dial, conn_acquire,
  contains,
}

-- The first usable connection of a list, and the connections behind it.
abbrev pub first_usable : (ℕ → BufConn) → List ℕ → Option (ℕ × List ℕ)
first_usable conns [] = none
first_usable conns (c ∷ rest) = elim (usable (conns c)) [
  | true ↦ some (c, rest)
  | false ↦ first_usable conns rest
]

-- The map has each key once.
abbrev pub Distinct : List ℕ → Type 0
Distinct [] = Unit {0}
Distinct (c ∷ cs) = (contains cs c ≡ false) × Distinct cs

first_usable-update :
    (conns : ℕ → BufConn) (c : ℕ) (bc : BufConn) (xs : List ℕ)
    → contains xs c ≡ false
    → first_usable (update conns c bc) xs ≡ first_usable conns xs
first_usable-update conns c bc [] h = refl
first_usable-update conns c bc (x ∷ xs) h = ground (arith, first_usable-update conns c bc xs)

-- Open, and with nothing read or written on the counters.
abbrev pub IsClean : BufConn → Type 0
IsClean bc = (BufConn.check bc ≡ true) × (bc.sr_n ≡ 0) × (bc.sw_n ≡ 0)

inspect-IsClean : (bc : BufConn) → usable bc ≡ true → IsClean (inspect bc)
unfolding inspect usable BufConn.check BufConn.stats
inspect-IsClean bc h = ground arith

abbrev pub found : Option (ℕ × List ℕ) → Option ℕ
found none = none
found (some (c, rest)) = some c

abbrev pub left : Option (ℕ × List ℕ) → List ℕ
left none = []
left (some (c, rest)) = rest

-- The handed out connection, if any, is clean.
abbrev pub Handed : Option ℕ → (ℕ → BufConn) → Type 0
Handed none conns = Unit {0}
Handed (some c) conns = IsClean (conns c)

record Takes (s : BackendServer) (xs : List ℕ) (r : Option ℕ × BackendServer) : Type 0 where
  which : r.0 ≡ found (first_usable s.conns xs)
  remaining : r.1.bcs ≡ left (first_usable s.conns xs)
  next_same : r.1.next ≡ s.next
  handed : Handed r.0 r.1.conns

-- The two cases of a round.
pub take_idle_cases {ℓ} :
    (P : Option ℕ × BackendServer → Type ℓ) (s : BackendServer) (c : ℕ) (rest : List ℕ)
    → (usable (s.conns c) ≡ true → P (some c, pull s c rest))
    → P (take_idle (pull s c rest) rest)
    → P (take_idle s (c ∷ rest))
unfolding take_idle
take_idle_cases P s c rest hit miss = elim (Bool-cases (usable (s.conns c))) [
  | inl u ↦ rw (u, take_idle) (hit u)
  | inr u ↦ rw (u, take_idle) miss
]

first_usable_hit :
    (conns : ℕ → BufConn) (c : ℕ) (rest : List ℕ)
    → usable (conns c) ≡ true
    → first_usable conns (c ∷ rest) ≡ some (c, rest)
first_usable_hit conns c rest u = rw (u, first_usable)

first_usable_miss :
    (conns : ℕ → BufConn) (c : ℕ) (rest : List ℕ)
    → usable (conns c) ≡ false
    → first_usable conns (c ∷ rest) ≡ first_usable conns rest
first_usable_miss conns c rest u = rw (u, first_usable)

pull-IsClean :
    (s : BackendServer) (c : ℕ) (rest : List ℕ)
    → usable (s.conns c) ≡ true
    → IsClean ((pull s c rest).conns c)
unfolding pull
pull-IsClean s c rest u = ground (arith, inspect-IsClean (s.conns c) u)

pull-first :
    (s : BackendServer) (c : ℕ) (rest : List ℕ)
    → contains rest c ≡ false
    → first_usable (pull s c rest).conns rest ≡ first_usable s.conns rest
unfolding pull
pull-first s c rest n = first_usable-update s.conns c (inspect (s.conns c)) rest n

pull-next :
    (s : BackendServer) (c : ℕ) (rest : List ℕ)
    → ((pull s c rest).next ≡ s.next) × ((pull s c rest).bcs ≡ rest)
unfolding pull
pull-next s c rest = (refl, refl)

take_idle-Takes : (s : BackendServer) (xs : List ℕ) → Distinct xs → Takes s xs (take_idle s xs)
unfolding take_idle
take_idle-Takes s [] d = record { which = refl; remaining = refl; next_same = refl; handed = tt }
take_idle-Takes s (c ∷ rest) (n, d) =
    let (kept, gone) = pull-next s c rest in
    let ih = take_idle-Takes (pull s c rest) rest d in
    elim (Bool-cases (usable (s.conns c))) [
      | inl u ↦
          let f = first_usable_hit s.conns c rest u in
          rw (u, take_idle)
            (record {
              which = cc f;
              remaining = cc (f, gone);
              next_same = kept;
              handed = pull-IsClean s c rest u;
            })
      | inr u ↦
          let f = first_usable_miss s.conns c rest u ∙ sym (pull-first s c rest n) in
          rw (u, take_idle)
            (record {
              which = cc (ih.which, f);
              remaining = cc (ih.remaining, f);
              next_same = ih.next_same ∙ kept;
              handed = ih.handed;
            })
    ]

-- The connection that the acquisition answers, in words: the first usable idle one, or else a new
-- one if the dial succeeds.
abbrev pub answer : Option ℕ → ℕ → Bool → Option ℕ
answer (some c) fresh dials = some c
answer none fresh true = some fresh
answer none fresh false = none

or_dial_answers :
    (dials : Bool) (c : Option ℕ) (s : BackendServer)
    → Handed c s.conns
    → ((or_dial dials c s).0 ≡ answer c s.next dials)
      × ((or_dial dials c s).1.bcs ≡ s.bcs)
      × Handed (or_dial dials c s).0 (or_dial dials c s).1.conns
unfolding or_dial BufConn.check BufConn.new_buf_conn
or_dial_answers dials (some c) s h = (refl, refl, h)
or_dial_answers true none s h = (refl, refl, ground arith)
or_dial_answers false none s h = (refl, refl, tt)

-- Over a map of distinct connections `ConnAcquire` hands out the first usable idle connection, else
-- a new one if the dial succeeds, else none; only the connections behind the one found are left in
-- the pool; and what is handed out is open, with no byte counted on it.
pub conn_acquire_answers :
    (s : BackendServer) (dials : Bool)
    → Distinct s.bcs
    → let first = first_usable s.conns s.bcs in
      ((conn_acquire s dials).0 ≡ answer (found first) s.next dials)
      × ((conn_acquire s dials).1.bcs ≡ left first)
      × Handed (conn_acquire s dials).0 (conn_acquire s dials).1.conns
unfolding conn_acquire acquire_idle
conn_acquire_answers s dials d =
    let t = take_idle-Takes s s.bcs d in
    let o = or_dial_answers dials (acquire_idle s).0 (acquire_idle s).1 t.handed in
    (cc (o.0, t.which, t.next_same), cc (o.1, t.remaining), o.2)
