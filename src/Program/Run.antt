-- ===== src/Program/Run.antt =====
-- The program from its start over all signals to its end.
use mathlib.Core.Path.{subst}
use simult.Prelude.{
  ℕ, ◌<◌, ◌≡◌, refl, sym, inl, inr, Bool, true, false, Option, none, some, List, [], ◌∷◌, arith,
  if◌then◌else◌, Bool-cases, Bytes, Result, ok, err,
}
use simult.HttpCheck.{HttpCheck}
use simult.Config.{Config}
use simult.Config.Options.{AppError, find}
use simult.Config.App.{App, empty_app, fork}
use simult.Config.App.Complete.{Complete, fork-Complete}
use simult.Program.{
  reported, received, Event, reloads, reports, take_at, report_pending, Ports, Host, System,
  members, or_empty, close_old, take_over, config_reload, serve_signals, terminate, run,
}
use simult.Program.Invariant.{In, Inv}
use simult.Program.Serving.{Serving, Serving-Inv, close_old-Closed}
use simult.Program.Reload.{config_reload-Reloaded}

pub no_listeners : (p : Ports) → p.net.fresh ≡ 0 → Serving empty_app p
unfolding find
no_listeners p e = record {
  distinct = tt;
  port = λ a i m. cc;
  apart = λ a a' i i' m. cc;
  unmarked = λ a i b m. cc;
  active = λ a i b m. cc;
  owned = λ b l h. absurd (omega (arith, e, l));
}

reported-ports :
    (o : Option ((ℕ × HttpCheck) × List (ℕ × HttpCheck))) (h : Host)
    → (reported o h).ports ≡ h.ports
unfolding reported
reported-ports none h = refl
reported-ports (some (r, rest)) h = refl

-- Over any number of reloads, each of a file of its own that may be missing or wrong and with
-- answers of the system of its own, an application that alone is served stays so or gives way to
-- another that is.
pub serve_signals-Serving :
    (signals : List Event) (app : Option App) (h : Host)
    → Serving (or_empty app) h.ports
    → (let r = serve_signals signals app h in Serving (or_empty r.0) r.1.ports)
unfolding serve_signals report_pending
serve_signals-Serving [] app h s = s
serve_signals-Serving (reloads sys file ∷ signals) app h s =
    let r = config_reload sys file app h in
    serve_signals-Serving signals r.1 r.2 (config_reload-Reloaded sys file app h s).serving
serve_signals-Serving (reports n past ∷ signals) app h s =
    serve_signals-Serving signals app (report_pending n past h) (
      subst (Serving (or_empty app)) (sym (reported-ports (received past (take_at n h.pending)) h))
        s)

take_over-refused :
    (sys : System) (app : Option App) (r : Result AppError App × Host)
    → (take_over sys app r).0 ≡ false
    → (take_over sys app r).1 ≡ app
unfolding take_over
take_over-refused sys app (err e, h) q = refl
take_over-refused sys app (ok an, h) q = cc

take_over-ok :
    (sys : System) (app : Option App) (r : Result AppError App × Host)
    → (take_over sys app r).0 ≡ true
    → (an : App) × (r ≡ (ok an, r.1)) × ((take_over sys app r).1 ≡ some an)
unfolding take_over
take_over-ok sys app (err e, h) q = cc
take_over-ok sys app (ok an, h) q = (an, refl, refl)

-- What `configReload` returns is whether there is a new application. Where it returns false the old
-- one stays; where it returns true the file was read, and the application that runs from then on
-- has what its configuration names.
pub config_reload-Complete :
    (sys : System) (file : Option Config) (app : Option App) (h : Host)
    → (let r = config_reload sys file app h in
        (r.0 ≡ false → r.1 ≡ app)
        × (r.0 ≡ true
            → (cfg : Config) × (an : App) × (file ≡ some cfg) × (r.1 ≡ some an) × Complete cfg an))
unfolding config_reload
config_reload-Complete sys none app h = (λ q. refl, λ q. cc)
config_reload-Complete sys (some cfg) app h =
    let m = fork (members sys) (or_empty app) cfg h in
    (
      take_over-refused sys app m,
      λ q.
          (let (an, e, r) = take_over-ok sys app m q in
            (cfg, an, refl, r, (fork-Complete (members sys) (or_empty app) cfg h an m.1 e).0)),
    )

-- No listeners, no open accepter.
none_open :
    (p : Ports) → Inv [] [] p → (b : ℕ) → b < p.net.fresh → (p.net.accepters b).opened ≡ false
unfolding find
none_open p v b l = elim (Bool-cases (p.net.accepters b).opened) [
  | inr f ↦ f
  | inl y ↦ let (a, i, m, h) = v.owned b l y in go a i m
]
  where
    go : (a : Bytes) (i : ℕ) → In [] [] a i → (p.net.accepters b).opened ≡ false
    go a i (inl x) = cc
    go a i (inr x) = cc

terminate-closed :
    (sys : System) (app : Option App) (h : Host)
    → Serving (or_empty app) h.ports
    → (b : ℕ) → b < (terminate sys (app, h)).ports.net.fresh
    → ((terminate sys (app, h)).ports.net.accepters b).opened ≡ false
unfolding terminate
terminate-closed sys app h s =
    none_open (close_old sys app h).ports
      (close_old-Closed sys app [] h s.distinct (Serving-Inv (or_empty app) h.ports s)).inv

-- Where the program starts without an accepter, every accepter that it has opened is closed when it
-- ends, with the first configuration refused or behind any reloads, with errors and without, and any
-- first reports of health checks between them.
pub run_closes :
    (sys : System) (file : Option Config) (signals : List Event) (h : Host)
    → h.ports.net.fresh ≡ 0
    → (b : ℕ) → b < (run sys file signals h).1.ports.net.fresh
    → ((run sys file signals h).1.ports.net.accepters b).opened ≡ false
unfolding run
run_closes sys file signals h e = go r.0 refl
  where
    r : Bool × Option App × Host
    r = config_reload sys file none h

    s : Serving (or_empty r.1) r.2.ports
    s = (config_reload-Reloaded sys file none h (no_listeners h.ports e)).serving

    fin : Bool → Bool × Host
    fin t = if t then (true, terminate sys (serve_signals signals r.1 r.2)) else (false, r.2)

    go :
        (t : Bool)
        → r.0 ≡ t
        → (b : ℕ) → b < (fin t).1.ports.net.fresh
        → ((fin t).1.ports.net.accepters b).opened ≡ false
    go true q =
        let u = serve_signals signals r.1 r.2 in
        terminate-closed sys u.0 u.1 (serve_signals-Serving signals r.1 r.2 s)
    go false q =
        let n = (config_reload-Complete sys file none h).0 q in
        none_open r.2.ports
          (Serving-Inv empty_app r.2.ports (subst (λ a. Serving (or_empty a) r.2.ports) n s))
