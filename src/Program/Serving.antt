-- ===== src/Program/Serving.antt =====
-- An application that alone is served, and what the end of another leaves of its listeners.
use mathlib.Core.Path.{subst}
use simult.Prelude.{
  ℕ, ◌<◌, ◌≡◌, refl, sym, ap, ◌∙◌, inl, inr, Bool, true, false, ◌&&◌, Option, none, some, List, [],
  ◌∷◌, is_some, Bytes,
}
use simult.Listener.{Listener}
use simult.Config.Options.{find}
use simult.Config.App.{App, each, activate_all, close}
use simult.Config.App.Loops.{Distinct}
use simult.Program.{
  Ports, Host, System, close_port, activate_port, activate_backend, close_backend, close_frontend,
  members, or_empty, close_old,
}
use simult.Program.Invariant.{Port, In, Inv, activate_port-Inv}
use simult.Program.Closing.{close_port-Inv, close_port-new}
use simult.Program.Lookup.{not_found}
use simult.Program.Settings.{settings, Calls, close_port-settings, activated-Calls}

-- The application alone is served: each of its addresses has an open accepter of its own that is not
-- marked as shared and that calls the frontend of its listener, and no other accepter is open.
pub record Serving (app : App) (p : Ports) : Type 0 where
  pub distinct : Distinct app.listeners
  pub port : (a : Bytes) (i : ℕ) → find a app.listeners ≡ some i → Port p a i
  pub apart :
      (a a' : Bytes) (i i' : ℕ)
      → find a app.listeners ≡ some i
      → find a' app.listeners ≡ some i'
      → (p.listener i).accr ≡ (p.listener i').accr
      → a ≡ a'
  pub unmarked :
      (a : Bytes) (i b : ℕ)
      → find a app.listeners ≡ some i
      → (p.listener i).accr ≡ some b
      → (p.net.accepters b).handler.shared ≡ false
  pub active :
      (a : Bytes) (i b : ℕ)
      → find a app.listeners ≡ some i
      → (p.listener i).accr ≡ some b
      → Calls p b i
  pub owned :
      (b : ℕ)
      → b < p.net.fresh
      → (p.net.accepters b).opened ≡ true
      → (a : Bytes) × (i : ℕ) × (find a app.listeners ≡ some i) × ((p.listener i).accr ≡ some b)

found-In : (o : List (Bytes × ℕ)) (a : Bytes) (i : ℕ) → In o [] a i → find a o ≡ some i
unfolding find
found-In o a i (inl h) = h
found-In o a i (inr h) = cc

with_false : (t : Bool) → (t && false) ≡ false
with_false true = refl
with_false false = refl

pub Serving-Inv : (app : App) (p : Ports) → Serving app p → Inv app.listeners [] p
unfolding find
Serving-Inv app p s = record {
  port = λ a i m. s.port a i (found-In app.listeners a i m);
  apart = λ a a' i i' m m'.
      s.apart a a' i i' (found-In app.listeners a i m) (found-In app.listeners a' i' m');
  ids = λ a a' i j h k. cc;
  same = λ a i j h k. cc;
  shared = λ a i b m h.
      s.unmarked a i b (found-In app.listeners a i m) h
      ∙ sym (with_false (is_some (find a app.listeners)));
  owned = λ b l h. (let (a, i, m, k) = s.owned b l h in (a, i, inl m, k));
}

pub Inv-Serving :
    (app : App) (p : Ports)
    → Distinct app.listeners
    → Inv app.listeners [] p
    → ((a : Bytes) (i b : ℕ)
        → find a app.listeners ≡ some i
        → (p.listener i).accr ≡ some b
        → Calls p b i)
    → Serving app p
unfolding find
Inv-Serving app p d v active = record {
  active = active;
  distinct = d;
  port = λ a i m. v.port a i (inl m);
  apart = λ a a' i i' m m'. v.apart a a' i i' (inl m) (inl m');
  unmarked = λ a i b m h. v.shared a i b (inl m) h ∙ with_false (is_some (find a app.listeners));
  owned = λ b l h. (let (a, i, m, k) = v.owned b l h in (a, i, found-In app.listeners a i m, k));
}

-- What the end of one application leaves of the other one's listeners.
pub record Closed (n : List (Bytes × ℕ)) (p p' : Ports) : Type 0 where
  pub inv : Inv [] n p'
  pub new : (a : Bytes) (j : ℕ) → find a n ≡ some j → p'.listener j ≡ p.listener j
  pub calls : (b : ℕ) → settings p'.net b ≡ settings p.net b

close_listeners :
    (sys : System) (o n : List (Bytes × ℕ)) (h : Host)
    → Distinct o
    → Inv o n h.ports
    → Closed n h.ports (each (λ i (h : Host). record h { ports = close_port i h.ports }) o h).ports
close_listeners sys [] n h d v = record { inv = v; new = λ a j m. refl; calls = λ b. refl }
close_listeners sys ((a, i) ∷ o) n h d v =
    let once = not_found (find a o) d.0 in
    let c =
      close_listeners sys o n (record h { ports = close_port i h.ports }) d.1
        (close_port-Inv a i o n h.ports once v) in
    record {
      inv = c.inv;
      new = λ a' j m. c.new a' j m ∙ close_port-new a i o n h.ports once v a' j m;
      calls = λ b. c.calls b ∙ close_port-settings i h.ports b;
    }

each-ports :
    (f : ℕ → Host → Host)
    → ((i : ℕ) (h : Host) → (f i h).ports ≡ h.ports)
    → (es : List (Bytes × ℕ)) (h : Host) → (each f es h).ports ≡ h.ports
each-ports f e [] h = refl
each-ports f e ((name, i) ∷ es) h = each-ports f e es (f i h) ∙ e i h

pub close-Closed :
    (sys : System) (a : App) (n : List (Bytes × ℕ)) (h : Host)
    → Distinct a.listeners
    → Inv a.listeners n h.ports
    → Closed n h.ports (close (members sys) a h).ports
unfolding close close_backend close_frontend
close-Closed sys a n h d v =
    let h1 : Host =
      each (λ i (h : Host). record h { ports = close_port i h.ports }) a.listeners h in
    let h2 : Host = each close_frontend a.frontends h1 in
    subst (Closed n h.ports)
      (sym (
        each-ports close_backend (λ i h. refl) a.backends h2
        ∙ each-ports close_frontend (λ i h. refl) a.frontends h1))
      (close_listeners sys a.listeners n h d v)

-- `Activate` moves no listener.
activate_listeners :
    (o n es : List (Bytes × ℕ)) (h : Host)
    → Inv o n h.ports
    → (let p' = (each (λ i (h : Host). record h { ports = activate_port i h.ports }) es h).ports in
        Inv o n p' × (p'.listener ≡ h.ports.listener))
unfolding activate_port
activate_listeners o n [] h v = (v, refl)
activate_listeners o n ((name, i) ∷ es) h v =
    activate_listeners o n es (record h { ports = activate_port i h.ports })
      (activate_port-Inv o n h.ports i v)

pub activate_all-Inv :
    (sys : System) (an : App) (o n : List (Bytes × ℕ)) (h : Host)
    → Inv o n h.ports
    → (let p' = (activate_all (members sys) an h).ports in
        Inv o n p' × (p'.listener ≡ h.ports.listener))
unfolding activate_all activate_backend
activate_all-Inv sys an o n h v =
    let h1 : Host = each activate_backend an.backends h in
    let e : h1.ports ≡ h.ports = each-ports activate_backend (λ i h. refl) an.backends h in
    let (w, q) = activate_listeners o n an.listeners h1 (subst (Inv o n) (sym e) v) in
    (w, q ∙ ap (λ (p : Ports). p.listener) e)

pub activate_all-Calls :
    (sys : System) (an : App) (o : List (Bytes × ℕ)) (h : Host)
    → Distinct an.listeners
    → Inv o an.listeners h.ports
    → (a : Bytes) (i b : ℕ) → find a an.listeners ≡ some i
    → (h.ports.listener i).accr ≡ some b
    → settings (activate_all (members sys) an h).ports.net b
      ≡ (some i, (h.ports.listener i).opts.fe, (h.ports.listener i).opts.tls_config)
unfolding activate_all activate_backend
activate_all-Calls sys an o h d v a i b m e =
    let h1 : Host = each activate_backend an.backends h in
    let q : h1.ports ≡ h.ports = each-ports activate_backend (λ i h. refl) an.backends h in
    let w = subst (Inv o an.listeners) (sym q) v in
    activated-Calls an.listeners h1 d (λ a a' j j' m m'. w.apart a a' j j' (inr m) (inr m')) a i b m
      (ap (λ (p : Ports). (p.listener i).accr) q ∙ e)
    ∙ ap (λ (p : Ports). (some i, (p.listener i).opts.fe, (p.listener i).opts.tls_config)) q

-- The same listener and the same settings.
pub still_calls :
    (p p' : Ports) (b i : ℕ)
    → p'.listener i ≡ p.listener i
    → settings p'.net b ≡ settings p.net b
    → Calls p b i
    → Calls p' b i
still_calls p p' b i l q k =
    q ∙ k ∙ sym (ap (λ (l : Listener). (some i, l.opts.fe, l.opts.tls_config)) l)

pub close_old-Closed :
    (sys : System) (app : Option App) (n : List (Bytes × ℕ)) (h : Host)
    → Distinct (or_empty app).listeners
    → Inv (or_empty app).listeners n h.ports
    → Closed n h.ports (close_old sys app h).ports
unfolding close_old
close_old-Closed sys none n h d v = record { inv = v; new = λ a j m. refl; calls = λ b. refl }
close_old-Closed sys (some a) n h d v = close-Closed sys a n h d v
