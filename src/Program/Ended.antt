-- ===== src/Program/Ended.antt =====
-- The servers and frontends over all reloads.
use mathlib.Core.Path.{subst}
use simult.Prelude.{
  ℕ, ◌≡◌, refl, inl, inr, Option, none, some, List, [], ◌∷◌, ◌==◌, if◌then◌else◌, ==_iff,
  Bool-cases, Bytes, ◌=ᵇ◌,
}
use simult.BackendServer.{update}
use simult.HttpCheck.{HttpCheck}
use simult.Config.{Config}
use simult.Config.Options.{AppError, find}
use simult.Config.App.{empty_app, App, each, activate_all, close, finish, gather, fork}
use simult.Config.App.Kept.{gather-Keeps}
use simult.Program.{
  reported, received, Event, reloads, reports, take_at, report_pending, Host, System,
  activate_backend, close_backend, close_frontend, close_port, activate_port, members, or_empty,
  close_old, take_over, config_reload, serve_signals,
}
use simult.Program.Owned.{reported-Owned, Owned, close_backend-Owned, activate_backend-Owned}
use simult.HttpFrontend.Fork.{Ended, close_found-Ended}
use simult.Program.Backed.{
  Within, Within-over, Backed, Backed-swap, ports-Backed, BackedBy, members-Stable,
}

each-keeps :
    (Q : Host → Type 0) (f : ℕ → Host → Host)
    → ((i : ℕ) (h : Host) → Q h → Q (f i h))
    → (es : List (Bytes × ℕ)) (h : Host) → Q h
    → Q (each f es h)
each-keeps Q f k [] h q = q
each-keeps Q f k ((name, i) ∷ es) h q = each-keeps Q f k es (f i h) (k i h q)

-- Once it is over it stays so, and the call ends what it is for.
each-over :
    (Q : Host → ℕ → Type 0) (f : ℕ → Host → Host)
    → ((i : ℕ) (h : Host) (k : ℕ) → Q h k → Q (f i h) k)
    → ((i : ℕ) (h : Host) → Q (f i h) i)
    → (es : List (Bytes × ℕ)) (h : Host) (k : ℕ) (name : Bytes) → find name es ≡ some k
    → Q (each f es h) k
unfolding find
each-over Q f stay hit [] h k name m = cc
each-over Q f stay hit ((key, i) ∷ es) h k name m = elim (Bool-cases (key =ᵇ name)) [
  | inl y ↦
      each-keeps (λ h. Q h k) f (λ j h q. stay j h k q) es (f i h)
        (let q : some i ≡ some k = subst (λ t. (if t then some i else find name es) ≡ some k) y m in
          let q' : i ≡ k = cc in subst (Q (f i h)) q' (hit i h))
  | inr x ↦
      each-over Q f stay hit es (f i h) k name
        (subst (λ t. (if t then some i else find name es) ≡ some k) x m)
]

over_at :
    {A : Type 0} (P : A → Type 0) (f : ℕ → A) (i k : ℕ) (x : A) → P x → P (f k) → P (update f i x k)
over_at P f i k x p q = elim (Bool-cases (i == k)) [ inl y ↦ rw y p | inr n ↦ rw n q ]

close_backends-Backed :
    (o n nf : List (Bytes × ℕ)) (h : Host)
    → Backed o n [] nf h
    → Backed [] n [] nf (each close_backend o h)
unfolding close_backend
close_backends-Backed o n nf h v = record {
  owned = each-keeps Owned close_backend (λ i h q. close_backend-Owned i h q) o h v.owned;
  live =
      Within-over (λ k. h.servers k ≡ []) (λ k. (each close_backend o h).servers k ≡ []) o n
        (λ k q.
          each-keeps (λ h. h.servers k ≡ []) close_backend
            (λ i h q. over_at (λ es. es ≡ []) h.servers i k [] refl q) o h q)
        (each-over (λ h k. h.servers k ≡ []) close_backend
          (λ i h k q. over_at (λ es. es ≡ []) h.servers i k [] refl q)
          (λ i h. rw ((==_iff i i).1 refl) refl) o h)
        v.live;
  running =
      each-keeps (λ h. Within (λ k. Ended (h.frontends k)) [] nf) close_backend (λ i h q. q) o h
        v.running;
}

close_frontends-Backed :
    (o n of nf : List (Bytes × ℕ)) (h : Host)
    → Backed o n of nf h
    → Backed o n [] nf (each close_frontend of h)
unfolding close_frontend
close_frontends-Backed o n of nf h v = record {
  owned =
      each-keeps Owned close_frontend (λ i h q. record { tallied = q.tallied; unmade = q.unmade })
        of h v.owned;
  live =
      each-keeps (λ h. Within (λ k. h.servers k ≡ []) o n) close_frontend (λ i h q. q) of h v.live;
  running =
      Within-over (λ k. Ended (h.frontends k)) (λ k. Ended ((each close_frontend of h).frontends k))
        of nf
        (λ k q.
          each-keeps (λ h. Ended (h.frontends k)) close_frontend
            (λ i h q. over_at Ended h.frontends i k _ (close_found-Ended (h.frontends i)) q) of h q)
        (each-over (λ h k. Ended (h.frontends k)) close_frontend
          (λ i h k q. over_at Ended h.frontends i k _ (close_found-Ended (h.frontends i)) q)
          (λ i h. rw ((==_iff i i).1 refl) (close_found-Ended (h.frontends i))) of h)
        v.running;
}

close-Backed :
    (sys : System) (a : App) (n nf : List (Bytes × ℕ)) (h : Host)
    → Backed a.backends n a.frontends nf h
    → Backed [] n [] nf (close (members sys) a h)
unfolding close
close-Backed sys a n nf h v = close_backends-Backed a.backends n nf _ (
    close_frontends-Backed a.backends n a.frontends nf _ (
      each-keeps (Backed a.backends n a.frontends nf)
        (λ i (h : Host). record h { ports = close_port i h.ports })
        (λ i h q. ports-Backed a.backends n a.frontends nf h (close_port i h.ports) q) a.listeners h
        v))

activate_all-Backed :
    (sys : System) (an : App) (o n of nf : List (Bytes × ℕ)) (h : Host)
    → Backed o n of nf h
    → Backed o n of nf (activate_all (members sys) an h)
unfolding activate_all activate_backend
activate_all-Backed sys an o n of nf h v =
    each-keeps (Backed o n of nf) (λ i (h : Host). record h { ports = activate_port i h.ports })
      (λ i h q. ports-Backed o n of nf h (activate_port i h.ports) q) an.listeners _
      (each-keeps (Backed o n of nf) activate_backend
        (λ i h q. record {
          owned = activate_backend-Owned i h q.owned;
          live = q.live;
          running = q.running;
        })
        an.backends h v)

pub close_old-Backed :
    (sys : System) (app : Option App) (n nf : List (Bytes × ℕ)) (h : Host)
    → Backed (or_empty app).backends n (or_empty app).frontends nf h
    → Backed [] n [] nf (close_old sys app h)
unfolding close_old
close_old-Backed sys none n nf h v = v
close_old-Backed sys (some a) n nf h v = close-Backed sys a n nf h v

take_over-Backed :
    (sys : System) (app : Option App) (e : Option AppError) (an : App) (h : Host)
    → BackedBy (or_empty app) an h
    → (let r = take_over sys app (finish (members sys) e an h) in
        BackedBy (or_empty r.1) empty_app r.2)
unfolding take_over finish
take_over-Backed sys app none an h v =
    let a = or_empty app in
    Backed-swap [] an.backends [] an.frontends _ (
      close_old-Backed sys app an.backends an.frontends (activate_all (members sys) an h)
        (activate_all-Backed sys an a.backends an.backends a.frontends an.frontends h v))
take_over-Backed sys app (some e) an h v =
    let a = or_empty app in
    Backed-swap [] a.backends [] a.frontends _ (
      close-Backed sys an a.backends a.frontends h
        (Backed-swap a.backends an.backends a.frontends an.frontends h v))

-- A reload, with the file read or not and with `Fork` returning an error or not, keeps this: only
-- backends of the application that runs have servers, and only its frontends are not closed; a server
-- that is open stands in one map of a backend, or in two if it is marked as shared; one that is closed
-- stands in none, and has no idle connection and no health check.
pub config_reload-Backed :
    (sys : System) (file : Option Config) (app : Option App) (h : Host)
    → BackedBy (or_empty app) empty_app h
    → (let r = config_reload sys file app h in BackedBy (or_empty r.1) empty_app r.2)
unfolding config_reload fork
config_reload-Backed sys none app h v = v
config_reload-Backed sys (some cfg) app h v =
    let a = or_empty app in
    let m = gather (members sys) a cfg h in
    take_over-Backed sys app m.failure m.app m.state
      (gather-Keeps (members sys) a (BackedBy a) (members-Stable sys a) cfg h v)

reported-Backed :
    {o n of nf : List (Bytes × ℕ)} (r : Option ((ℕ × HttpCheck) × List (ℕ × HttpCheck))) (h : Host)
    → Backed o n of nf h
    → Backed o n of nf (reported r h)
unfolding reported
reported-Backed none h v = v
reported-Backed (some (r, rest)) h v = record {
  owned = reported-Owned (some (r, rest)) h v.owned;
  live = v.live;
  running = v.running;
}

pub serve_signals-Backed :
    (signals : List Event) (app : Option App) (h : Host)
    → BackedBy (or_empty app) empty_app h
    → (let r = serve_signals signals app h in BackedBy (or_empty r.0) empty_app r.1)
unfolding serve_signals report_pending
serve_signals-Backed [] app h v = v
serve_signals-Backed (reloads sys file ∷ signals) app h v =
    let r = config_reload sys file app h in
    serve_signals-Backed signals r.1 r.2 (config_reload-Backed sys file app h v)
serve_signals-Backed (reports n past ∷ signals) app h v =
    serve_signals-Backed signals app (report_pending n past h)
      (reported-Backed (received past (take_at n h.pending)) h v)
