-- ===== src/Program/Backed.antt =====
-- Which backends have servers and which frontends go on over a reload.
use simult.Prelude.{
  ℕ, ◌≡◌, ap, ◌∙◌, ◌⊎◌, inl, inr, false, Option, none, some, List, [], ◌∷◌, ◌++◌, ◌==◌, ==_iff,
  Bool-cases, is_some, Bytes, =ᵇ-refl,
}
use simult.BackendServer.{update}
use simult.HttpBackend.Fork.{Forking, ForkError, fork as fork_servers}
use simult.HttpBackend.Fork.Tally.{Tallied}
use simult.HttpBackend.Fork.Tally.Forks.{fork-Tallied, fork-empty}
use simult.HttpFrontend.Fork.{Ended, fork as fork_front}
use simult.Config.Options.{HttpBackendOptions, HttpFrontendOptions, find}
use simult.Config.App.{App, with_backend, with_frontend, with_listener}
use simult.Config.App.Kept.{Behind, Stable}
use simult.Program.{
  Ports, Host, System, servers_of, add_backend, fork_backend, fork_frontend, fork_listener,
  fork_port, members,
}
use simult.Program.Lookup.{not_found, find_append_old, find_append_new}
use simult.Program.Owned.{total, Owned, add_backend-Owned, old-Counted, frontend-Owned, ports-Owned}

-- What is not over is named in one of two lists.
abbrev pub Within : (ℕ → Type 0) → List (Bytes × ℕ) → List (Bytes × ℕ) → Type 0
Within Q o n =
    (k : ℕ)
    → Q k ⊎ ((name : Bytes) × (find name o ≡ some k)) ⊎ ((name : Bytes) × (find name n ≡ some k))

pub Within-swap : (Q : ℕ → Type 0) (o n : List (Bytes × ℕ)) → Within Q o n → Within Q n o
Within-swap Q o n v k = elim (v k) [
  | inl q ↦ inl q
  | inr x ↦ elim x [ inl y ↦ inr (inr y) | inr y ↦ inr (inl y) ]
]

-- One more in the second list.
Within-append :
    (Q Q' : ℕ → Type 0) (o n : List (Bytes × ℕ)) (name : Bytes) (j : ℕ)
    → find name n ≡ none
    → ((k : ℕ) → j == k ≡ false → Q k → Q' k)
    → Within Q o n
    → Within Q' o (n ++ (name, j) ∷ [])
Within-append Q Q' o n name j once f v k = elim (Bool-cases (j == k)) [
  | inl y ↦ inr (
      inr
        (name, find_append_new name name j n once ∙ rw (=ᵇ-refl name) (ap some ((==_iff j k).0 y))))
  | inr e ↦ elim (v k) [
    | inl q ↦ inl (f k e q)
    | inr x ↦ elim x [
      | inl y ↦ inr (inl y)
      | inr (s, m) ↦ inr (inr (s, find_append_old s name j k n m))
    ]
  ]
]

-- The first list is over.
pub Within-over :
    (Q Q' : ℕ → Type 0) (o n : List (Bytes × ℕ))
    → ((k : ℕ) → Q k → Q' k)
    → ((k : ℕ) (name : Bytes) → find name o ≡ some k → Q' k)
    → Within Q o n
    → Within Q' [] n
Within-over Q Q' o n f g v k = elim (v k) [
  | inl q ↦ inl (f k q)
  | inr x ↦ elim x [ inl (name, m) ↦ inl (g k name m) | inr y ↦ inr (inr y) ]
]

-- Servers are held as their state says, by backends of the two lists `o` and `n` only, and only
-- frontends of the lists `of` and `nf` are not closed.
pub record Backed (o n of nf : List (Bytes × ℕ)) (h : Host) : Type 0 where
  pub owned : Owned h
  pub live : Within (λ k. h.servers k ≡ []) o n
  pub running : Within (λ k. Ended (h.frontends k)) of nf

pub Backed-swap :
    (o n of nf : List (Bytes × ℕ)) (h : Host) → Backed o n of nf h → Backed n o nf of h
Backed-swap o n of nf h v = record {
  owned = v.owned;
  live = Within-swap (λ k. h.servers k ≡ []) o n v.live;
  running = Within-swap (λ k. Ended (h.frontends k)) of nf v.running;
}

pub ports-Backed :
    (o n of nf : List (Bytes × ℕ)) (h : Host) (p : Ports)
    → Backed o n of nf h
    → Backed o n of nf (record h { ports = p })
ports-Backed o n of nf h p v = record {
  owned = ports-Owned h p v.owned;
  live = v.live;
  running = v.running;
}

abbrev pub BackedBy : App → App → Host → Type 0
BackedBy a an h = Backed a.backends an.backends a.frontends an.frontends h

module _ (sys : System) (a : App) where
  add_backend-Behind :
      (name : Bytes) (opts : HttpBackendOptions) (f : Forking) (x : Option ForkError) (an : App)
      (h : Host)
      → BackedBy a an h
      → find name an.backends ≡ none
      → ((e : ForkError) → x ≡ some e → f.bss ≡ [])
      → Tallied (λ i. total i h.objects h.servers) f.bss f.heap
      → Behind (members sys) a (BackedBy a) (with_backend an name) an (add_backend opts f x h)
  unfolding add_backend
  add_backend-Behind name opts f (some e) an h v once n t = record {
    owned = add_backend-Owned opts f (some e) h v.owned n t;
    live = v.live;
    running = v.running;
  }
  add_backend-Behind name opts f none an h v once n t = record {
    owned = add_backend-Owned opts f none h v.owned n t;
    live =
        Within-append (λ k. h.servers k ≡ []) (λ k. update h.servers h.objects f.bss k ≡ [])
          a.backends an.backends name h.objects once (λ k e q. rw e q) v.live;
    running = v.running;
  }

  backend-Behind :
      (name : Bytes) (opts : HttpBackendOptions) (an : App) (h : Host)
      → BackedBy a an h
      → is_some (find name an.backends) ≡ false
      → Behind
          (members sys)
          a
          (BackedBy a)
          (with_backend an name)
          an
          (fork_backend sys.url_parse (find name a.backends) opts h)
  unfolding fork_backend
  backend-Behind name opts an h v n =
      let es = servers_of h.servers (find name a.backends) in
      let f = fork_servers sys.url_parse es opts.servers h.heap in
      add_backend-Behind name opts f f.failure an h v (not_found (find name an.backends) n)
        (fork-empty sys.url_parse es opts.servers h.heap)
        (fork-Tallied (λ i. total i h.objects h.servers) sys.url_parse es opts.servers h.heap
          (old-Counted h (find name a.backends) v.owned) v.owned.tallied)

  frontend-Behind :
      (name : Bytes) (opts : HttpFrontendOptions) (an : App) (h : Host)
      → BackedBy a an h
      → is_some (find name an.frontends) ≡ false
      → Behind
          (members sys)
          a
          (BackedBy a)
          (with_frontend an name)
          an
          (fork_frontend (find name a.frontends) opts h)
  unfolding fork_frontend
  frontend-Behind name opts an h v n = record {
    owned = frontend-Owned (find name a.frontends) opts h v.owned;
    live = v.live;
    running =
        Within-append (λ k. Ended (h.frontends k))
          (λ k. Ended (update h.frontends h.objects (some (fork_front opts)) k)) a.frontends
          an.frontends name h.objects (not_found (find name an.frontends) n) (λ k e q. rw e q)
          v.running;
  }

  listener-Behind :
      (an : App) (addr : Bytes) (h : Host) (r : Option ℕ × Ports)
      → BackedBy a an h
      → Behind
          (members sys)
          a
          (BackedBy a)
          (with_listener an addr)
          an
          (r.0, record h { ports = r.1 })
  listener-Behind an addr h (none, p) v =
      ports-Backed a.backends an.backends a.frontends an.frontends h p v
  listener-Behind an addr h (some i, p) v = record {
    owned = ports-Owned h p v.owned;
    live = v.live;
    running = v.running;
  }

  pub members-Stable : Stable (members sys) a (BackedBy a)
  unfolding fork_listener
  members-Stable = record {
    health_check = λ name o an h v. record { owned = v.owned; live = v.live; running = v.running };
    backend = backend-Behind;
    frontend = frontend-Behind;
    listener = λ opts an h v n t.
        listener-Behind an opts.address h
          (fork_port sys.listens (find opts.address a.listeners) opts h.ports) v;
  }
