-- ===== src/Program/Handing.antt =====
-- `Fork` of an application over the listeners of an old one.
use mathlib.Core.Path.{subst}
use simult.Prelude.{
  ℕ, ◌≤◌, ◌<◌, ◌≡◌, refl, sym, ap, ◌∙◌, false, Option, none, some, List, [], arith, is_some, Bytes,
  codes,
}
use simult.HttpBackend.Fork.{Forking, ForkError, fork as fork_servers}
use simult.Listener.{ListenerOptions}
use simult.Config.{Config}
use simult.Config.Options.{HttpBackendOptions, find}
use simult.Config.App.{with_backend, with_listener, App, gather}
use simult.Config.App.Loops.{Distinct, Distinct-append}
use simult.Config.App.Kept.{Behind, Stable, gather-Keeps}
use simult.Program.{
  Ports, Host, System, fork_port, fork_listener, servers_of, add_backend, fork_backend,
  fork_frontend, members,
}
use simult.Program.Invariant.{Inv}
use simult.Program.Lookup.{not_found}
use simult.Program.Settings.{settings}
use simult.Program.Grown.{Grows, fork_port-Grows}

add_backend-ports :
    (opts : HttpBackendOptions) (f : Forking) (e : Option ForkError) (h : Host)
    → (add_backend opts f e h).1.ports ≡ h.ports
unfolding add_backend
add_backend-ports opts f none h = refl
add_backend-ports opts f (some e) h = refl

-- What `Fork` keeps of the application `a` from the ports `q` on.
pub record Handed (a : App) (q : Ports) (made : List (Bytes × ℕ)) (h : Host) : Type 0 where
  pub distinct : Distinct made
  pub inv : Inv a.listeners made h.ports
  pub old : (s : Bytes) (i : ℕ) → find s a.listeners ≡ some i → h.ports.listener i ≡ q.listener i
  pub more : q.net.fresh ≤ h.ports.net.fresh
  pub calls : (b : ℕ) → b < q.net.fresh → settings h.ports.net b ≡ settings q.net b

-- `Handed` reads the ports only.
same_ports :
    (a : App) (q : Ports) (made : List (Bytes × ℕ)) (h h' : Host)
    → h'.ports ≡ h.ports
    → Handed a q made h
    → Handed a q made h'
same_ports a q made h h' e k = record {
  distinct = k.distinct;
  inv = subst (Inv a.listeners made) (sym e) k.inv;
  old = λ s i m. ap (λ (p : Ports). p.listener i) e ∙ k.old s i m;
  more = subst (λ (p : Ports). q.net.fresh ≤ p.net.fresh) (sym e) k.more;
  calls = λ b l. ap (λ (p : Ports). settings p.net b) e ∙ k.calls b l;
}

abbrev Kept : App → Ports → App → Host → Type 0
Kept a q an h = Handed a q an.listeners h

module _ (sys : System) (a : App) (q : Ports) where
  same_fork :
      (an : App) (f : ℕ → App) (h : Host) (r : Option ℕ × Host)
      → ((i : ℕ) → (f i).listeners ≡ an.listeners)
      → r.1.ports ≡ h.ports
      → Handed a q an.listeners h
      → Behind (members sys) a (Kept a q) f an r
  same_fork an f h (none, h') e p k = same_ports a q an.listeners h h' p k
  same_fork an f h (some i, h') e p k =
      subst (λ made. Handed a q made h') (sym (e i)) (same_ports a q an.listeners h h' p k)

  listener-Behind :
      (opts : ListenerOptions) (an : App) (h : Host)
      → Handed a q an.listeners h
      → is_some (find opts.address an.listeners) ≡ false
      → opts.network ≡ codes "tcp"
      → Behind
          (members sys)
          a
          (Kept a q)
          (with_listener an opts.address)
          an
          (fork_listener sys.listens (find opts.address a.listeners) opts h)
  unfolding fork_listener
  listener-Behind opts an h k n tcp =
      go (fork_port sys.listens (find opts.address a.listeners) opts h.ports) (
        fork_port-Grows a.listeners an.listeners h.ports opts k.inv
          (not_found (find opts.address an.listeners) n) tcp sys.listens)
    where
      go :
          (r : Option ℕ × Ports)
          → Grows a.listeners an.listeners h.ports opts.address r
          → Behind
              (members sys)
              a
              (Kept a q)
              (with_listener an opts.address)
              an
              (r.0, record h { ports = r.1 })
      go (none, p') g = record {
        distinct = k.distinct;
        inv = g.inv;
        old = λ s i m. g.old s i m ∙ k.old s i m;
        more = (let x = g.more in let y = k.more in omega arith);
        calls = λ b l. g.calls b (let y = k.more in omega arith) ∙ k.calls b l;
      }
      go (some i, p') g = record {
        distinct = Distinct-append opts.address an.listeners i n k.distinct;
        inv = g.inv;
        old = λ s i m. g.old s i m ∙ k.old s i m;
        more = (let x = g.more in let y = k.more in omega arith);
        calls = λ b l. g.calls b (let y = k.more in omega arith) ∙ k.calls b l;
      }

  members-Stable : Stable (members sys) a (Kept a q)
  unfolding fork_backend fork_frontend
  members-Stable = record {
    health_check = λ name o an h k. k;
    backend = λ name opts an h k n.
        (let es = servers_of h.servers (find name a.backends) in
          let f = fork_servers sys.url_parse es opts.servers h.heap in
          same_fork an (with_backend an name) h (add_backend opts f f.failure h) (λ i. refl)
            (add_backend-ports opts f f.failure h) k);
    frontend = λ name opts an h k n.
        same_ports a q an.listeners h (fork_frontend (find name a.frontends) opts h).1 refl k;
    listener = listener-Behind;
  }

-- All that `Fork` has made, where it stops too.
pub gather-Handed :
    (sys : System) (a : App) (cfg : Config) (h : Host)
    → Inv a.listeners [] h.ports
    → (let m = gather (members sys) a cfg h in Handed a h.ports m.app.listeners m.state)
gather-Handed sys a cfg h v =
    gather-Keeps (members sys) a (Kept a h.ports) (members-Stable sys a h.ports) cfg h (record {
      distinct = tt;
      inv = v;
      old = λ s i m. refl;
      more = omega arith;
      calls = λ b l. refl;
    })
