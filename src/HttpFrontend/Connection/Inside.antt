-- ===== src/HttpFrontend/Connection/Inside.antt =====
-- A connection in the loop of `Serve`, turn by turn.
use simult.Prelude.{
  ℕ, suc, ◌≤◌, ◌≡◌, refl, ap, ◌∙◌, Bool, true, false, ◌&&◌, ◌||◌, arith, ◌==◌, if-cases, ℤ, inc,
  dec, leb_ℤ, to_ℕ, dec-inc, pos, negsuc,
}
use simult.HttpFrontend.Connection.{
  HttpFrontendOptions, Turn, requests, ends, times_out, breaks, waits_out, Connection, opened, shut,
  open_wait, close_wait, over_limits, serve_request, answer,
}

-- A connection in the loop, with the counters that the frontend had before it.
pub record Inside (o : HttpFrontendOptions) (c0 c : Connection) : Type 0 where
  pub total : c.total_conn_count ≡ c0.total_conn_count
  pub active : c.active_conn_count ≡ c0.active_conn_count
  pub idle : c.reading ≡ false → c.idle_conn_count ≡ c0.idle_conn_count
  pub waiting : c.reading ≡ false → c.waiting_conn_count ≡ c0.waiting_conn_count
  pub quiet : c.done ≡ false → c.reading ≡ false
  pub counted : c.done ≡ false → c.served ≡ c.req_idx
  pub silent : c.done ≡ false → c.pages ≡ 0
  pub one_page : c.pages ≤ 1
  pub kept : c.done ≡ false → (k : ℕ) → o.max_keep_alive_reqs ≡ pos k → c.req_idx ≤ k
  pub bounded : (k : ℕ) → o.max_keep_alive_reqs ≡ pos k → c.served ≤ suc k

shut-opened : (b : Bool) (c : Connection) → (c.req_idx == 0) ≡ b → close_wait (opened b c) ≡ c
unfolding opened shut
shut-opened true c e =
    ap (λ b. shut b (opened true c)) e
    ∙ ap (λ n. record c { waiting_conn_count = n }) (dec-inc c.waiting_conn_count)
shut-opened false c e =
    ap (λ b. shut b (opened false c)) e
    ∙ ap (λ n. record c { idle_conn_count = n }) (dec-inc c.idle_conn_count)

close-open : (c : Connection) → close_wait (open_wait c) ≡ c
close-open c = shut-opened (c.req_idx == 0) c refl

-- The loop counts the turn.
abbrev pub next : Connection → Connection
next c = record c { req_idx = suc c.req_idx }

-- A connection whose loop ends.
stopped-Inside :
    (o : HttpFrontendOptions) (c0 c : Connection) (n : ℕ)
    → n ≤ 1
    → Inside o c0 c
    → Inside o c0 (next (record c { done = true; pages = n }))
stopped-Inside o c0 c n k h = record {
  total = h.total;
  active = h.active;
  idle = h.idle;
  waiting = h.waiting;
  quiet = λ e. cc;
  counted = λ e. cc;
  silent = λ e. cc;
  one_page = k;
  kept = λ e. cc;
  bounded = h.bounded;
}

-- The connection whose read is left behind.
left-Inside :
    (o : HttpFrontendOptions) (b : Bool) (c0 c : Connection)
    → Inside o c0 c
    → Inside o c0 (next (record (opened b c) { done = true; reading = true }))
unfolding opened
left-Inside o true c0 c h = record {
  total = h.total;
  active = h.active;
  idle = λ e. cc;
  waiting = λ e. cc;
  quiet = λ e. cc;
  counted = λ e. cc;
  silent = λ e. cc;
  one_page = h.one_page;
  kept = λ e. cc;
  bounded = h.bounded;
}
left-Inside o false c0 c h = record {
  total = h.total;
  active = h.active;
  idle = λ e. cc;
  waiting = λ e. cc;
  quiet = λ e. cc;
  counted = λ e. cc;
  silent = λ e. cc;
  one_page = h.one_page;
  kept = λ e. cc;
  bounded = h.bounded;
}

below :
    (m : ℤ) (b : Bool) (i k : ℕ)
    → (b || (leb_ℤ (pos 0) m && leb_ℤ m (pos i))) ≡ false
    → m ≡ pos k
    → suc i ≤ k
below (pos j) true i k h e = cc
below (pos j) false i k h e = let f : j ≡ k = ap to_ℕ e in ground arith
below (negsuc j) b i k h e = cc

within_limits :
    (o : HttpFrontendOptions) (idle : ℤ) (i k : ℕ)
    → over_limits o idle i ≡ false
    → o.max_keep_alive_reqs ≡ pos k
    → suc i ≤ k
unfolding over_limits
within_limits o idle i k h e = below o.max_keep_alive_reqs _ i k h e

-- A connection that has served one more request.
served-Inside :
    (o : HttpFrontendOptions) (c0 c : Connection) (d : Bool)
    → c.done ≡ false
    → Inside o c0 c
    → (d ≡ false → (k : ℕ) → o.max_keep_alive_reqs ≡ pos k → suc c.req_idx ≤ k)
    → Inside o c0 (
        next (record c {
          active_conn_count = dec (inc c.active_conn_count);
          done = d;
          served = suc c.served;
        }))
served-Inside o c0 c d e h k = record {
  total = h.total;
  active = dec-inc c.active_conn_count ∙ h.active;
  idle = h.idle;
  waiting = h.waiting;
  quiet = λ _. h.quiet e;
  counted = λ _. ap suc (h.counted e);
  silent = λ _. h.silent e;
  one_page = h.one_page;
  kept = k;
  bounded = λ m f. let g = h.counted e in let l = h.kept e m f in omega arith;
}

serve_request-Inside :
    (o : HttpFrontendOptions) (failed : Bool) (idle : ℤ) (c0 c : Connection)
    → c.done ≡ false
    → Inside o c0 c
    → Inside o c0 (next (serve_request o failed idle c))
unfolding serve_request
serve_request-Inside o failed idle c0 c d h =
    if-cases (λ c'. Inside o c0 (next c')) (over_limits o idle c.req_idx)
      (λ e. served-Inside o c0 c true d h (λ f. cc))
      (λ e. served-Inside o c0 c failed d h (λ f k m. within_limits o idle c.req_idx k e m))

pub answer-Inside :
    (o : HttpFrontendOptions) (t : Turn) (c0 c : Connection)
    → c.done ≡ false
    → Inside o c0 c
    → Inside o c0 (next (answer o t (open_wait c)))
unfolding answer
answer-Inside o (requests failed idle) c0 c d h =
    rw (close-open c) (serve_request-Inside o failed idle c0 c d h)
answer-Inside o ends c0 c d h = rw (close-open c) (stopped-Inside o c0 c _ h.one_page h)
answer-Inside o times_out c0 c d h = rw (close-open c) (
    stopped-Inside o c0 c _
      (if-cases (λ n. n ≤ 1) (c.req_idx == 0) (λ _. let e = h.silent d in omega arith)
        (λ _. h.one_page))
      h)
answer-Inside o breaks c0 c d h = rw (close-open c) (stopped-Inside o c0 c _ h.one_page h)
answer-Inside o waits_out c0 c d h = left-Inside o (c.req_idx == 0) c0 c h
