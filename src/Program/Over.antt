-- ===== src/Program/Over.antt =====
-- The servers and frontends at the end of the program.
use mathlib.Core.Path.{subst}
use simult.Prelude.{
  ℕ, zero, suc, ◌<◌, ◌≡◌, refl, sym, ap, inl, inr, Bool, true, false, Option, none, List, [], arith,
  if◌then◌else◌, Bool-cases,
}
use simult.BackendServer.{BackendServer}
use simult.HttpBackend.Select.{Servers}
use simult.HttpBackend.Fork.Tally.{count, expected}
use simult.Config.{Config}
use simult.Config.Options.{find}
use simult.Config.App.{empty_app, App}
use simult.Program.{
  Event, Host, System, or_empty, close_old, config_reload, serve_signals, terminate, run,
}
use simult.Program.Owned.{total}
use simult.HttpFrontend.Fork.{Ended}
use simult.Program.Backed.{Within, BackedBy}
use simult.Program.Run.{config_reload-Complete}
use simult.Program.Ended.{close_old-Backed, config_reload-Backed, serve_signals-Backed}

total-empty : (i n : ℕ) (servers : ℕ → Servers) → ((k : ℕ) → servers k ≡ []) → total i n servers ≡ 0
total-empty i zero servers e = refl
total-empty i (suc n) servers e =
    let ih = total-empty i n servers e in let c = ap (count i) (e n) in omega (arith, ih, c)

-- A program that has made nothing.
pub record Nothing (h : Host) : Type 0 where
  pub fresh : h.heap.fresh ≡ 0
  pub servers : (k : ℕ) → h.servers k ≡ []
  pub frontends : (k : ℕ) → h.frontends k ≡ none

pub at_start-Backed : (h : Host) → Nothing h → BackedBy empty_app empty_app h
at_start-Backed h e = record {
  owned = record {
    tallied = record {
      counts = λ i l. (let f = e.fresh in absurd (omega (arith, f, l)));
      unmade = λ i l. (let t = total-empty i h.objects h.servers e.servers in omega (arith, t));
      clean = λ i l. (let f = e.fresh in absurd (omega (arith, f, l)));
    };
    unmade = λ k l. e.servers k;
  };
  live = λ k. inl (e.servers k);
  running = λ k. inl (subst Ended (sym (e.frontends k)) tt);
}

expected-done : (s : BackendServer) → expected s ≡ 0 → s.done ≡ true
expected-done s e = elim (Bool-cases s.done) [ inl y ↦ y | inr n ↦ absurd (ground arith) ]

-- All servers and frontends are closed, and no server has an idle connection or a health check.
pub record Over (h : Host) : Type 0 where
  pub servers :
      (i : ℕ)
      → i < h.heap.fresh
      → ((h.heap.store i).done ≡ true)
        × ((h.heap.store i).health_check ≡ none)
        × ((h.heap.store i).bcs ≡ [])
  pub frontends : (k : ℕ) → Ended (h.frontends k)

within_none : (Q : ℕ → Type 0) → Within Q [] [] → (k : ℕ) → Q k
unfolding find
within_none Q v k = elim (v k) [
  | inl e ↦ e
  | inr x ↦ elim x [ inl (name, m) ↦ cc | inr (name, m) ↦ cc ]
]

Backed-Over : (h : Host) → BackedBy empty_app empty_app h → Over h
Backed-Over h v = record {
  servers = λ i l.
      (let c = v.owned.tallied.counts i l in
        let t = total-empty i h.objects h.servers (within_none (λ k. h.servers k ≡ []) v.live) in
        let d = expected-done (h.heap.store i) (omega (arith, c, t)) in
        let (a, b) = v.owned.tallied.clean i l d in (d, a, b));
  frontends = within_none (λ k. Ended (h.frontends k)) v.running;
}

terminate-Over :
    (sys : System) (app : Option App) (h : Host)
    → BackedBy (or_empty app) empty_app h
    → Over (terminate sys (app, h))
unfolding terminate
terminate-Over sys app h v = Backed-Over (close_old sys app h) (close_old-Backed sys app [] [] h v)

-- Where the program starts without servers and frontends, every server and every frontend that it has
-- made is closed when it ends, with the first configuration refused or behind any reloads, with errors
-- and without, and any first reports of health checks between them; and no server has an idle
-- connection or a health check left.
pub run-Over :
    (sys : System) (file : Option Config) (signals : List Event) (h : Host)
    → Nothing h
    → Over (run sys file signals h).1
unfolding run
run-Over sys file signals h e = go r.0 refl
  where
    r : Bool × Option App × Host
    r = config_reload sys file none h

    v : BackedBy (or_empty r.1) empty_app r.2
    v = config_reload-Backed sys file none h (at_start-Backed h e)

    fin : Bool → Bool × Host
    fin t = if t then (true, terminate sys (serve_signals signals r.1 r.2)) else (false, r.2)

    go : (t : Bool) → r.0 ≡ t → Over (fin t).1
    go true q =
        let u = serve_signals signals r.1 r.2 in
        terminate-Over sys u.0 u.1 (serve_signals-Backed signals r.1 r.2 v)
    go false q =
        let n = (config_reload-Complete sys file none h).0 q in
        Backed-Over r.2 (subst (λ a. BackedBy (or_empty a) empty_app r.2) n v)
