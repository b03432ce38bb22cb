-- ===== src/Program/Reload.antt =====
-- The listeners over a reload of the configuration.
use mathlib.Core.Path.{subst}
use simult.Prelude.{ℕ, ◌<◌, ◌≡◌, sym, ap, ◌∙◌, Option, none, some, [], Bytes}
use simult.Listener.{Listener}
use simult.Config.{Config}
use simult.Config.Options.{AppError, find}
use simult.Config.App.{App, activate_all, close, finish, gather, fork}
use simult.Program.{Ports, Host, System, members, or_empty, close_old, take_over, config_reload}
use simult.Program.Invariant.{Inv-swap}
use simult.Program.Handing.{Handed, gather-Handed}
use simult.Program.Serving.{
  Serving, Serving-Inv, Inv-Serving, close-Closed, close_old-Closed, activate_all-Inv,
  activate_all-Calls, still_calls,
}

-- What a reload leaves: the application that runs is served, and an address of both applications
-- keeps its accepter.
pub record Reloaded (app app' : App) (p p' : Ports) : Type 0 where
  pub serving : Serving app' p'
  pub kept :
      (a : Bytes) (i j : ℕ)
      → find a app.listeners ≡ some i
      → find a app'.listeners ≡ some j
      → (p'.listener j).accr ≡ (p.listener i).accr

-- The end of `Fork` and what `configReload` makes of it.
take_over-Reloaded :
    (sys : System) (app : Option App) (q : Ports) (e : Option AppError) (an : App) (h : Host)
    → Serving (or_empty app) q
    → Handed (or_empty app) q an.listeners h
    → (let r = take_over sys app (finish (members sys) e an h) in
        Reloaded (or_empty app) (or_empty r.1) q r.2.ports)
unfolding take_over finish
take_over-Reloaded sys app q none an h s k =
    let h1 = activate_all (members sys) an h in
    let (v, l) = activate_all-Inv sys an (or_empty app).listeners an.listeners h k.inv in
    let c = close_old-Closed sys app an.listeners h1 s.distinct v in
    let p = (close_old sys app h1).ports in
    let to_h : (a : Bytes) (j : ℕ)
        → find a an.listeners ≡ some j
        → p.listener j ≡ h.ports.listener j =
      λ a j m. c.new a j m ∙ ap (λ (f : ℕ → Listener). f j) l in
    record {
      serving = Inv-Serving an p k.distinct (Inv-swap [] an.listeners p c.inv) (λ a i b m e.
          c.calls b
          ∙ activate_all-Calls sys an (or_empty app).listeners h k.distinct k.inv a i b m
              (sym (ap (λ (l : Listener). l.accr) (to_h a i m)) ∙ e)
          ∙ sym (ap (λ (l : Listener). (some i, l.opts.fe, l.opts.tls_config)) (to_h a i m)));
      kept = λ a i j m m'.
          ap (λ (l : Listener). l.accr) (to_h a j m')
          ∙ sym (k.inv.same a i j m m')
          ∙ ap (λ (l : Listener). l.accr) (k.old a i m);
    }
take_over-Reloaded sys app q (some e) an h s k =
    let c =
      close-Closed sys an (or_empty app).listeners h k.distinct
        (Inv-swap (or_empty app).listeners an.listeners h.ports k.inv) in
    let p = (close (members sys) an h).ports in
    let to_q : (a : Bytes) (j : ℕ)
        → find a (or_empty app).listeners ≡ some j
        → p.listener j ≡ q.listener j =
      λ a j m. c.new a j m ∙ k.old a j m in
    record {
      serving =
          Inv-Serving (or_empty app) p s.distinct (Inv-swap [] (or_empty app).listeners p c.inv)
            (λ a i b m e.
              (let u = s.port a i m in
                let x : some u.b ≡ some b =
                  sym u.holds ∙ sym (ap (λ (l : Listener). l.accr) (to_q a i m)) ∙ e in
                let x' : u.b ≡ b = cc in
                still_calls q p b i (to_q a i m)
                  (c.calls b ∙ k.calls b (subst (λ t. t < q.net.fresh) x' u.known))
                  (s.active a i b m (u.holds ∙ x))));
      kept = λ a i j m m'.
          (let x : some i ≡ some j = sym m ∙ m' in
            let x' : j ≡ i = cc in
            ap (λ (l : Listener). l.accr) (to_q a j m') ∙ ap (λ t. (q.listener t).accr) x');
    }

-- A reload, with the file read or not and with `Fork` returning an error or not, of an application
-- that alone is served leaves one that alone is served: each address of the application that runs
-- behind the call has an open accepter of its own that is not marked as shared and that calls the
-- frontend of the address's listener with its configuration of TLS, and no other accepter is open. A listener for an address of both applications has the accepter that the old listener had.
pub config_reload-Reloaded :
    (sys : System) (file : Option Config) (app : Option App) (h : Host)
    → Serving (or_empty app) h.ports
    → (let r = config_reload sys file app h in
        Reloaded (or_empty app) (or_empty r.1) h.ports r.2.ports)
unfolding config_reload fork
config_reload-Reloaded sys none app h s = record {
  serving = s;
  kept = λ a i j m m'.
      (let x : some i ≡ some j = sym m ∙ m' in
        let x' : j ≡ i = cc in ap (λ t. (h.ports.listener t).accr) x');
}
config_reload-Reloaded sys (some cfg) app h s =
    let m = gather (members sys) (or_empty app) cfg h in
    take_over-Reloaded sys app h.ports m.failure m.app m.state s
      (gather-Handed sys (or_empty app) cfg h (Serving-Inv (or_empty app) h.ports s))
