-- ===== src/BackendServer/Life/Owned.antt =====
-- Which connections are idle and which are lent out: no connection is both, or either one twice.
use mathlib.Core.List.{Mem, Nodup, Perm, Sublist, Nodup-cons, perm_middle, mem-cons}
use mathlib.Core.List.Perm
use mathlib.Core.List.Sublist
use mathlib.Core.List.Nodup
use mathlib.Core.Logic.Or
use native.Mathlib.Bridge.{le_prop}
use simult.Prelude.{
  ℕ, suc, ◌<◌, ◌≡◌, refl, true, false, Option, none, some, List, [], ◌∷◌, ◌++◌, arith, if-cases,
}
use simult.BackendServer.{
  BackendServer, evict, close_conn, inspect_conn, pull, take_idle, dial_done, acquire_idle,
  pool_conn, leave, conn_release, sweep, work, drain, close, contains,
}
use simult.BackendServer.Claim.{take_idle_cases}
use simult.BackendServer.Life.Tally.{settle_cases, sweep_cases}

-- Distinct connections, all of them made before `next`.
pub record Owned (next : ℕ) (cs : List ℕ) : Type 0 where
  pub distinct : Nodup cs
  pub made : (c : ℕ) → Mem c cs → c < next

pub Owned-sublist : {n : ℕ} {xs ys : List ℕ} → Sublist ys xs → Owned n xs → Owned n ys
Owned-sublist s o = record {
  distinct = Nodup.sublist s o.distinct;
  made = λ c m. o.made c (Sublist.subset s c m);
}

pub Owned-perm : {n : ℕ} {xs ys : List ℕ} → Perm xs ys → Owned n xs → Owned n ys
Owned-perm p o = record {
  distinct = Perm.nodup p o.distinct;
  made = λ c m. o.made c (Perm.subset (Perm.symm p) c m);
}

-- A new connection takes the next number.
pub Owned-new : (n : ℕ) (xs : List ℕ) → Owned n xs → Owned (suc n) (n ∷ xs)
Owned-new n xs o = record {
  distinct = Nodup-cons.1 ((λ m. absurd (omega (arith, o.made n m))), o.distinct);
  made = λ c m.
      Or.elim le_prop (mem-cons.0 m) (λ e. omega (arith, e)) (λ k. omega (arith, o.made c k));
}

Owned-tail : {n : ℕ} (c : ℕ) (xs : List ℕ) → Owned n (c ∷ xs) → Owned n xs
Owned-tail c xs o = record {
  distinct = (Nodup-cons.0 o.distinct).1;
  made = λ d m. o.made d (mem-cons.1 (Or.inr m));
}

-- The lent connections with one more, if it is one.
abbrev pub lend : Option ℕ → List ℕ → List ℕ
lend none lent = lent
lend (some c) lent = c ∷ lent

-- The pool of `s` and the lent connections.
abbrev pub Holds : BackendServer → List ℕ → Type 0
Holds s lent = Owned s.next (s.bcs ++ lent)

take_idle-Owned :
    (s : BackendServer) (xs lent : List ℕ)
    → Owned s.next (xs ++ lent)
    → Holds (take_idle s xs).1 (lend (take_idle s xs).0 lent)
take_idle-Owned s [] lent o = unfold take_idle in o
take_idle-Owned s (c ∷ rest) lent o =
    take_idle_cases (λ r. Holds r.1 (lend r.0 lent)) s c rest
      (λ _. unfold pull in Owned-perm (Perm.symm (perm_middle rest lent)) o)
      (take_idle-Owned (pull s c rest) rest lent (unfold pull in Owned-tail c (rest ++ lent) o))

pub acquire_idle-Owned :
    (s : BackendServer) (lent : List ℕ)
    → Holds s lent
    → Holds (acquire_idle s).1 (lend (acquire_idle s).0 lent)
unfolding acquire_idle
acquire_idle-Owned s lent o = take_idle-Owned s s.bcs lent o

pub dial_done-Owned :
    (s : BackendServer) (lent : List ℕ)
    → Holds s lent
    → Holds (dial_done s).1 ((dial_done s).0 ∷ lent)
unfolding dial_done
dial_done-Owned s lent o =
    Owned-perm (Perm.symm (perm_middle s.bcs lent)) (Owned-new s.next (s.bcs ++ lent) o)

-- The connection given back is pooled, or is no longer held at all.
pool_conn-Owned :
    (s : BackendServer) (c : ℕ) (lent : List ℕ) → Holds s (c ∷ lent) → Holds (pool_conn s c) lent
unfolding pool_conn
pool_conn-Owned s c lent o =
    let moved = Owned-perm (perm_middle s.bcs lent) o in
    if-cases (λ t. Holds t lent) (contains s.bcs c) (λ _. Owned-tail c _ moved) (λ _. moved)

pub conn_release-Owned :
    (s : BackendServer) (c : ℕ) (lent : List ℕ)
    → Holds s (c ∷ lent)
    → Holds (conn_release s (some c)) lent
unfolding conn_release close_conn inspect_conn leave
conn_release-Owned s c lent o =
    let moved = Owned-perm (perm_middle s.bcs lent) o in
    settle_cases (λ t. Holds t lent) (leave s) c (Owned-tail c _ moved)
      (pool_conn-Owned (inspect_conn (leave s) c) c lent o) (Owned-tail c _ moved)

sweep-sublist :
    (s : BackendServer) (xs : List ℕ) → Sublist (sweep s xs).bcs xs × ((sweep s xs).next ≡ s.next)
unfolding evict
sweep-sublist s [] = unfold sweep in (Sublist.refl [], refl)
sweep-sublist s (c ∷ rest) =
    let (sub, same) = sweep-sublist s rest in
    sweep_cases (λ t. Sublist t.bcs (c ∷ rest) × (t.next ≡ s.next)) s c rest
      (Sublist.cons-cons c sub, same) (Sublist.cons c sub, same)

Owned-shrink :
    {n m : ℕ} (xs ys lent : List ℕ)
    → Sublist ys xs × (m ≡ n)
    → Owned n (xs ++ lent)
    → Owned m (ys ++ lent)
Owned-shrink xs ys lent (sub, same) o =
    rw same (Owned-sublist (Sublist.append sub (Sublist.refl lent)) o)

pub work-Owned : (s : BackendServer) (lent : List ℕ) → Holds s lent → Holds (work s) lent
unfolding work
work-Owned s lent o = Owned-shrink s.bcs (sweep s s.bcs).bcs lent (sweep-sublist s s.bcs) o

drain-sublist :
    (s : BackendServer) (xs : List ℕ) → Sublist (drain s xs).bcs xs × ((drain s xs).next ≡ s.next)
unfolding drain evict
drain-sublist s [] = (Sublist.refl [], refl)
drain-sublist s (c ∷ rest) =
    let (sub, same) = drain-sublist (evict s c rest) rest in (Sublist.cons c sub, same)

pub close-Owned : (s : BackendServer) (lent : List ℕ) → Holds s lent → Holds (close s) lent
unfolding close
close-Owned s lent o =
    if-cases (λ t. Holds t lent) s.shared (λ _. o)
      (λ _.
        Owned-shrink s.bcs _ lent (drain-sublist (record s { shared = false; done = true }) s.bcs)
          o)
