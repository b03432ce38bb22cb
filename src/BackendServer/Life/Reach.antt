-- ===== src/BackendServer/Life/Reach.antt =====
-- The steps of requests, worker, reloads and traffic in any order. What `bcsMu` guards is one step;
-- a dial lies between two of them, as does the time for which a connection is lent out.
use mathlib.Core.List.{Perm, Permᴰ, Nodup, Nodup-nil, not-mem-nil}
use mathlib.Core.Path.{subst}
use mathlib.Core.Logic.{∥∥₁_elim}
use native.Mathlib.Nat.{ℕ_set}
use mathlib.Core.List.Perm
use simult.Prelude.{
  ℕ, suc, ◌+◌, ◌≡◌, refl, sym, ap, ◌∙◌, Bool, Option, none, some, List, [], ◌∷◌, ◌++◌, arith,
  if-cases, length, Bytes, pos,
}
use simult.BufConn.{BufConn}
use simult.HttpCheck.{HttpCheck}
use simult.BackendServer.Opened.{new_backend_server-made}
use simult.BackendServer.{
  BackendServer, ServerUrl, made, build, new_backend_server, acquire_idle, dial_failed, dial_done,
  conn_release, work, close, set_shared, set_health_check,
}
use simult.BackendServer.Life.Tally.{
  Tallied, Tally-same, acquire_idle-Tallied, dial_failed-Tallied, Tallied-cast, dial_done-Tallied,
  conn_release-Tallied, work-Tallied, close-Tallied,
}
use simult.BackendServer.Life.Owned.{
  Owned-perm, Holds, lend, acquire_idle-Owned, dial_done-Owned, conn_release-Owned, work-Owned,
  close-Owned,
}

-- A server, the connections that requests hold, and the number of dials under way.
pub record World : Type 0 where
  pub srv : BackendServer
  pub lent : List ℕ
  pub dialing : ℕ

pub data Step (v w : World) : Type 0 where
  -- An iteration over the map may meet its keys in any order.
  reorder :
      (bcs lent : List ℕ)
      → Perm v.srv.bcs bcs
      → Perm v.lent lent
      → w ≡ record v { srv = record (v.srv) { bcs = bcs }; lent = lent }
      → Step v w
  reuse :
      (c : ℕ)
      → (acquire_idle v.srv).0 ≡ some c
      → w ≡ record v { srv = (acquire_idle v.srv).1; lent = c ∷ v.lent }
      → Step v w
  dial :
      (acquire_idle v.srv).0 ≡ none
      → w ≡ record v { srv = (acquire_idle v.srv).1; dialing = suc v.dialing }
      → Step v w
  connect :
      (n : ℕ)
      → v.dialing ≡ suc n
      → w ≡ record { srv = (dial_done v.srv).1; lent = (dial_done v.srv).0 ∷ v.lent; dialing = n }
      → Step v w
  give_up :
      (n : ℕ) → v.dialing ≡ suc n → w ≡ record v { srv = dial_failed v.srv; dialing = n } → Step v w
  release :
      (c : ℕ) (lent : List ℕ)
      → v.lent ≡ c ∷ lent
      → w ≡ record v { srv = conn_release v.srv (some c); lent = lent }
      → Step v w
  tick : w ≡ record v { srv = work v.srv } → Step v w
  shut : w ≡ record v { srv = close v.srv } → Step v w
  share : (b : Bool) → w ≡ record v { srv = (set_shared v.srv b).1 } → Step v w
  watch : (h : Option HttpCheck) → w ≡ record v { srv = (set_health_check v.srv h).0 } → Step v w
  -- Bytes move and connections break.
  traffic : (f : ℕ → BufConn) → w ≡ record v { srv = record (v.srv) { conns = f } } → Step v w

pub data Reach (v : World) : World → Type 0 where
  here : Reach v v
  next : {u w : World} → Reach v u → Step u w → Reach v w

-- The counters count the idle connections and the busy ones, dials included; and the connections in
-- the pool and in use are distinct.
pub record Inv (w : World) : Type 0 where
  pub tallied : Tallied w.srv (length w.lent + w.dialing)
  pub owned : Holds w.srv w.lent

length-permᴰ : {xs ys : List ℕ} → Permᴰ xs ys → length xs ≡ length ys
length-permᴰ Permᴰ.nil = refl
length-permᴰ (Permᴰ.cons e p) = ap suc (length-permᴰ p)
length-permᴰ (Permᴰ.swap d e) = refl
length-permᴰ (Permᴰ.trans p q) = length-permᴰ p ∙ length-permᴰ q

length-perm : {xs ys : List ℕ} → Perm xs ys → length xs ≡ length ys
length-perm p = ∥∥₁_elim p (ℕ_set _ _) length-permᴰ

reorder-Inv :
    (v : World) (bcs lent : List ℕ)
    → Perm v.srv.bcs bcs
    → Perm v.lent lent
    → Inv v
    → Inv (record v { srv = record (v.srv) { bcs = bcs }; lent = lent })
reorder-Inv v bcs lent p q i = record {
  tallied =
      rw (← length-perm p, ← length-perm q)
        (record {
          idles = i.tallied.idles;
          actives = i.tallied.actives;
          totals = i.tallied.totals;
        });
  owned = Owned-perm (Perm.append p q) i.owned;
}

acquire-Inv :
    (v : World) (o : Option ℕ)
    → (acquire_idle v.srv).0 ≡ o
    → Inv v
    → Tallied (acquire_idle v.srv).1 (suc (length v.lent + v.dialing))
      × Holds (acquire_idle v.srv).1 (lend o v.lent)
acquire-Inv v o e i = (
  acquire_idle-Tallied v.srv _ i.tallied,
  subst (λ c. Holds (acquire_idle v.srv).1 (lend c v.lent)) e
      (acquire_idle-Owned v.srv v.lent i.owned),
)

connect-Inv :
    (v : World) (n : ℕ)
    → v.dialing ≡ suc n
    → Inv v
    → Inv (record { srv = (dial_done v.srv).1; lent = (dial_done v.srv).0 ∷ v.lent; dialing = n })
connect-Inv v n e i = record {
  tallied = dial_done-Tallied v.srv _ (Tallied-cast (omega arith) i.tallied);
  owned = dial_done-Owned v.srv v.lent i.owned;
}

give_up-Inv :
    (v : World) (n : ℕ)
    → v.dialing ≡ suc n
    → Inv v
    → Inv (record v { srv = dial_failed v.srv; dialing = n })
give_up-Inv v n e i = record {
  tallied = dial_failed-Tallied v.srv _ (Tallied-cast (omega arith) i.tallied);
  owned = unfold dial_failed in i.owned;
}

release-Inv :
    (v : World) (c : ℕ) (lent : List ℕ)
    → v.lent ≡ c ∷ lent
    → Inv v
    → Inv (record v { srv = conn_release v.srv (some c); lent = lent })
release-Inv v c lent e i = record {
  tallied =
      conn_release-Tallied v.srv c (length lent + v.dialing)
        (Tallied-cast (ground (arith, ap length e)) i.tallied);
  owned = conn_release-Owned v.srv c lent (rw e at (i.owned));
}

Inv-same :
    (v : World) (s : BackendServer)
    → s.bcs ≡ v.srv.bcs
    → s.next ≡ v.srv.next
    → s.idle_conn_count ≡ v.srv.idle_conn_count
    → s.active_conn_count ≡ v.srv.active_conn_count
    → s.total_conn_count ≡ v.srv.total_conn_count
    → Inv v
    → Inv (record v { srv = s })
Inv-same v s b n x y z i = record {
  tallied = rw b (Tally-same x y z i.tallied);
  owned = rw (b, n) i.owned;
}

watch-Inv :
    (v : World) (h : Option HttpCheck)
    → Inv v
    → Inv (record v { srv = (set_health_check v.srv h).0 })
unfolding set_health_check
watch-Inv v h i =
    if-cases {A = BackendServer × List HttpCheck} (λ r. Inv (record v { srv = r.0 })) v.srv.done
      (λ _. Inv-same v _ refl refl refl refl refl i) (λ _. Inv-same v _ refl refl refl refl refl i)

share-Inv : (v : World) (b : Bool) → Inv v → Inv (record v { srv = (set_shared v.srv b).1 })
unfolding set_shared
share-Inv v b i = Inv-same v _ refl refl refl refl refl i

traffic-Inv :
    (v : World) (f : ℕ → BufConn) → Inv v → Inv (record v { srv = record (v.srv) { conns = f } })
traffic-Inv v f i = Inv-same v _ refl refl refl refl refl i

-- Every step keeps the invariant.
Step-Inv : {v w : World} → Step v w → Inv v → Inv w
Step-Inv {v} (reorder bcs lent p q e) i = subst Inv (sym e) (reorder-Inv v bcs lent p q i)
Step-Inv {v} (reuse c a e) i =
    let (t, o) = acquire-Inv v (some c) a i in
    subst Inv (sym e) (record { tallied = Tallied-cast (omega arith) t; owned = o })
Step-Inv {v} (dial a e) i =
    let (t, o) = acquire-Inv v none a i in
    subst Inv (sym e) (record { tallied = Tallied-cast (omega arith) t; owned = o })
Step-Inv {v} (connect n a e) i = subst Inv (sym e) (connect-Inv v n a i)
Step-Inv {v} (give_up n a e) i = subst Inv (sym e) (give_up-Inv v n a i)
Step-Inv {v} (release c lent a e) i = subst Inv (sym e) (release-Inv v c lent a i)
Step-Inv {v} (tick e) i =
    subst Inv (sym e)
      (record { tallied = work-Tallied v.srv _ i.tallied; owned = work-Owned v.srv v.lent i.owned })
Step-Inv {v} (shut e) i =
    subst Inv (sym e) (record {
      tallied = close-Tallied v.srv _ i.tallied;
      owned = close-Owned v.srv v.lent i.owned;
    })
Step-Inv {v} (share b e) i = subst Inv (sym e) (share-Inv v b i)
Step-Inv {v} (watch h e) i = subst Inv (sym e) (watch-Inv v h i)
Step-Inv {v} (traffic f e) i = subst Inv (sym e) (traffic-Inv v f i)

Reach-Inv : {v w : World} → Inv v → Reach v w → Inv w
Reach-Inv i here = i
Reach-Inv i (next r s) = Step-Inv s (Reach-Inv i r)

-- A server as it is made, with no request.
abbrev pub initial : BackendServer → World
initial s = record { srv = s; lent = []; dialing = 0 }

build-Inv :
    (u : ServerUrl) (address : Bytes) (use_tls : Bool) → Inv (initial (build u address use_tls))
unfolding build
build-Inv u address use_tls = record {
  tallied = record { idles = refl; actives = refl; totals = refl };
  owned = record { distinct = Nodup-nil; made = λ c m. absurd (not-mem-nil m) };
}

made-Inv :
    (url_parse : Bytes → Option ServerUrl) (server : Bytes) (s : BackendServer)
    → new_backend_server url_parse server ≡ made s
    → Inv (initial s)
made-Inv = new_backend_server-made (λ t. Inv (initial t)) build-Inv

-- In every state that a newly made server reaches by acquisitions, dials, releases, ticks of its
-- worker, closing, sharing, health checks and traffic in any order, the idle counter is the number
-- of pooled connections, the active counter the number of connections lent out or being dialled,
-- the total counter their sum, and no connection is pooled or lent twice, or both.
pub server_accounts :
    (url_parse : Bytes → Option ServerUrl) (server : Bytes) (s : BackendServer) (w : World)
    → new_backend_server url_parse server ≡ made s
    → Reach (initial s) w
    → (w.srv.idle_conn_count ≡ pos (length w.srv.bcs))
      × (w.srv.active_conn_count ≡ pos (length w.lent + w.dialing))
      × (w.srv.total_conn_count ≡ pos (length w.srv.bcs + (length w.lent + w.dialing)))
      × Nodup (w.srv.bcs ++ w.lent)
server_accounts url_parse server s w e r =
    let i = Reach-Inv (made-Inv url_parse server s e) r in
    (i.tallied.idles, i.tallied.actives, i.tallied.totals, i.owned.distinct)
