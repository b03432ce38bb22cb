-- ===== src/Program/Owned.antt =====
-- The servers of all backends over reloads: who holds them, against their state.
use mathlib.Core.Path.{subst}
use simult.Prelude.{
  ℕ, zero, suc, ◌+◌, ◌≤◌, ◌<◌, ◌≡◌, refl, sym, ap, ◌∙◌, inl, inr, false, Option, none, some, List,
  [], arith, ltb, ◌==◌, ==_iff, Bool-cases, Bytes,
}
use simult.BackendServer.{update, ServerUrl}
use simult.HttpCheck.{HttpCheck}
use simult.HttpBackend.Select.{Servers}
use simult.HttpBackend.Fork.{Forking, ForkError, lookup, fork as fork_servers}
use simult.HttpBackend.Fork.Tally.{
  count, Tallied, close_all-Tallied, lookup-count, lookup-none, retally,
}
use simult.HttpBackend.Fork.Tally.Forks.{
  Counted, fork-Tallied, activate-Tallied, report-Tallied, fork-empty,
}
use simult.Config.Options.{HttpBackendOptions, HttpFrontendOptions}
use simult.Program.{
  Ports, Host, servers_of, add_backend, fork_backend, fork_frontend, activate_backend,
  close_backend, reported,
}

-- The entries of the first `n` backends that are the server `i`.
abbrev pub total : ℕ → ℕ → (ℕ → Servers) → ℕ
total i zero servers = 0
total i (suc n) servers = total i n servers + count i (servers n)

-- Every server is held as its state says, and no backend that is not made holds one.
pub record Owned (h : Host) : Type 0 where
  pub tallied : Tallied (λ i. total i h.objects h.servers) [] h.heap
  pub unmade : (k : ℕ) → h.objects ≤ k → h.servers k ≡ []

total-above :
    (i n k : ℕ) (f : ℕ → Servers) (es : Servers) → n ≤ k → total i n (update f k es) ≡ total i n f
total-above i zero k f es l = refl
total-above i (suc n) k f es l =
    let ih = total-above i n k f es (omega arith) in
    let e : k == n ≡ false = ground arith in rw e (ap (λ t. t + count i (f n)) ih)

total-at :
    (i n k : ℕ) (f : ℕ → Servers) → k < n → total i n (update f k []) + count i (f k) ≡ total i n f
total-at i zero k f l = absurd (omega arith)
total-at i (suc n) k f l = elim (Bool-cases (k == n)) [
  | inl y ↦
      let q = (==_iff k n).0 y in
      let a = total-above i n k f [] (omega (arith, q)) in
      let c = ap (λ t. count i (f t)) q in rw y (omega (arith, a, c))
  | inr e ↦ let ih = total-at i n k f (ground arith) in rw e (omega (arith, ih))
]

-- A backend's servers are among all.
total-has :
    (k : ℕ) (h : Host) (name : Bytes) (i : ℕ)
    → Owned h
    → lookup name (h.servers k) ≡ some i
    → 1 ≤ total i h.objects h.servers
total-has k h name i v e = elim (Bool-cases (ltb k h.objects)) [
  | inl y ↦
      let c = lookup-count name (h.servers k) i e in
      let t = total-at i h.objects k h.servers (ground arith) in omega (arith, c, t)
  | inr f ↦
      absurd
        (let u = v.unmade k (ground arith) in lookup-none name i (sym (ap (lookup name) u) ∙ e))
]

pub old-Counted :
    (h : Host) (old : Option ℕ)
    → Owned h
    → Counted (λ i. total i h.objects h.servers) (servers_of h.servers old)
unfolding servers_of
old-Counted h none v name i e = absurd (lookup-none name i e)
old-Counted h (some k) v name i e = total-has k h name i v e

pub add_backend-Owned :
    (opts : HttpBackendOptions) (f : Forking) (o : Option ForkError) (h : Host)
    → Owned h
    → ((e : ForkError) → o ≡ some e → f.bss ≡ [])
    → Tallied (λ i. total i h.objects h.servers) f.bss f.heap
    → Owned (add_backend opts f o h).1
unfolding add_backend
add_backend-Owned opts f (some e) h v n t = record {
  tallied = subst (λ es. Tallied (λ i. total i h.objects h.servers) es f.heap) (n e refl) t;
  unmade = v.unmade;
}
add_backend-Owned opts f none h v n t = record {
  tallied =
      retally (λ i. total i h.objects h.servers)
        (λ i. total i (suc h.objects) (update h.servers h.objects f.bss)) f.bss [] f.heap
        (λ i.
          (let a = total-above i h.objects h.objects h.servers f.bss (omega arith) in
            rw ((==_iff h.objects h.objects).1 refl) (omega (arith, a))))
        t;
  unmade =
      λ k l. (let e : h.objects == k ≡ false = ground arith in rw e (v.unmade k (omega arith)));
}

fork_backend-Owned :
    (url_parse : Bytes → Option ServerUrl) (old : Option ℕ) (opts : HttpBackendOptions) (h : Host)
    → Owned h
    → Owned (fork_backend url_parse old opts h).1
unfolding fork_backend
fork_backend-Owned url_parse old opts h v =
    let es = servers_of h.servers old in
    let f = fork_servers url_parse es opts.servers h.heap in
    add_backend-Owned opts f f.failure h v (fork-empty url_parse es opts.servers h.heap) (
      fork-Tallied (λ i. total i h.objects h.servers) url_parse es opts.servers h.heap
        (old-Counted h old v) v.tallied)

pub close_backend-Owned : (k : ℕ) (h : Host) → Owned h → Owned (close_backend k h)
unfolding close_backend
close_backend-Owned k h v = record {
  tallied =
      close_all-Tallied (λ i. total i h.objects (update h.servers k [])) (h.servers k) h.heap
        (retally (λ i. total i h.objects h.servers) (λ i. total i h.objects (update h.servers k []))
          [] (h.servers k) h.heap same v.tallied);
  unmade = λ j l. elim (Bool-cases (k == j)) [ inl y ↦ rw y refl | inr e ↦ rw e (v.unmade j l) ];
}
  where
    same :
        (i : ℕ)
        → total i h.objects (update h.servers k []) + count i (h.servers k)
          ≡ total i h.objects h.servers + 0
    same i = elim (Bool-cases (ltb k h.objects)) [
      | inl y ↦ (let a = total-at i h.objects k h.servers (ground arith) in omega (arith, a))
      | inr e ↦
          (let a = total-above i h.objects k h.servers [] (ground arith) in
            let c = ap (count i) (v.unmade k (ground arith)) in omega (arith, a, c))
    ]

pub activate_backend-Owned : (k : ℕ) (h : Host) → Owned h → Owned (activate_backend k h)
unfolding activate_backend
activate_backend-Owned k h v = record {
  tallied =
      activate-Tallied (λ i. total i h.objects h.servers) (h.checks k) (h.servers k) [] h.heap
        v.tallied;
  unmade = v.unmade;
}

pub frontend-Owned :
    (old : Option ℕ) (opts : HttpFrontendOptions) (h : Host)
    → Owned h
    → Owned (fork_frontend old opts h).1
unfolding fork_frontend
frontend-Owned old opts h v = record {
  tallied =
      retally (λ i. total i h.objects h.servers) (λ i. total i (suc h.objects) h.servers) [] []
        h.heap (λ i. (let c = ap (count i) (v.unmade h.objects (omega arith)) in omega (arith, c)))
        v.tallied;
  unmade = λ k l. v.unmade k (omega arith);
}

-- The ports are not read.
pub ports-Owned : (h : Host) (p : Ports) → Owned h → Owned (record h { ports = p })
ports-Owned h p v = record { tallied = v.tallied; unmade = v.unmade }

pub reported-Owned :
    (o : Option ((ℕ × HttpCheck) × List (ℕ × HttpCheck))) (h : Host)
    → Owned h
    → Owned (reported o h)
unfolding reported
reported-Owned none h v = v
reported-Owned (some (r, rest)) h v = record {
  tallied = report-Tallied (λ i. total i h.objects h.servers) [] h.heap r v.tallied;
  unmade = v.unmade;
}
