-- ===== src/HttpFrontend/Connection/Bounds.antt =====
-- The bounds of a client connection: its requests, its pages, and its share of the counters.
use simult.Prelude.{
  ℕ, suc, ◌≤◌, ◌≡◌, refl, sym, ap, ◌∙◌, ◌⊎◌, inl, inr, true, false, List, [], ◌∷◌, arith,
  Bool-cases, if-cases, ℤ, inc, dec, leb_ℤ, ltb_ℤ, dec-inc, pos, negsuc,
}
use simult.HttpBackend.Serve.{exceeds}
use simult.HttpFrontend.Connection.{HttpFrontendOptions, Turn, Connection, turn, loop, serve}
use simult.HttpFrontend.Connection.Inside.{Inside, answer-Inside}

turn-Inside :
    (o : HttpFrontendOptions) (t : Turn) (c0 c : Connection)
    → Inside o c0 c
    → Inside o c0 (turn o t c)
unfolding turn
turn-Inside o t c0 c h = if-cases (Inside o c0) c.done (λ _. h) (λ e. answer-Inside o t c0 c e h)

loop-Inside :
    (o : HttpFrontendOptions) (ts : List Turn) (c0 c : Connection)
    → Inside o c0 c
    → Inside o c0 (loop o ts c)
unfolding loop
loop-Inside o [] c0 c h = h
loop-Inside o (t ∷ ts) c0 c h = loop-Inside o ts c0 (turn o t c) (turn-Inside o t c0 c h)

-- A connection as the frontend takes it, with the counters that the frontend has then.
pub record Fresh (c : Connection) : Type 0 where
  pub first : c.req_idx ≡ 0
  pub going : c.done ≡ false
  pub unserved : c.served ≡ 0
  pub unanswered : c.pages ≡ 0
  pub unread : c.reading ≡ false

-- What a returned connection leaves behind.
pub record Returned (o : HttpFrontendOptions) (c0 c : Connection) : Type 0 where
  pub total : c.total_conn_count ≡ c0.total_conn_count
  pub active : c.active_conn_count ≡ c0.active_conn_count
  pub read_counts :
      (c.reading ≡ true)
      ⊎ ((c.idle_conn_count ≡ c0.idle_conn_count) × (c.waiting_conn_count ≡ c0.waiting_conn_count))
  pub one_page : c.pages ≤ 1
  pub bounded :
      (ltb_ℤ o.max_keep_alive_reqs (pos 0) ≡ true)
      ⊎ (leb_ℤ (pos c.served) (inc o.max_keep_alive_reqs) ≡ true)

limited :
    (m : ℤ) (n : ℕ)
    → ((k : ℕ) → m ≡ pos k → n ≤ suc k)
    → (ltb_ℤ m (pos 0) ≡ true) ⊎ (leb_ℤ (pos n) (inc m) ≡ true)
limited (pos k) n h = let e = h k refl in inr (ground arith)
limited (negsuc k) n h = inl refl

Fresh-Inside : (o : HttpFrontendOptions) (c : Connection) → Fresh c → Inside o c c
Fresh-Inside o c f = record {
  total = refl;
  active = refl;
  idle = λ _. refl;
  waiting = λ _. refl;
  quiet = λ _. f.unread;
  counted = λ _. f.unserved ∙ sym f.first;
  silent = λ _. f.unanswered;
  one_page = let e = f.unanswered in omega arith;
  kept = λ _ k _. let e = f.first in omega arith;
  bounded = λ k _. let e = f.unserved in omega arith;
}

-- When `Serve` returns from a connection, whatever its turns were, the total and the active counts
-- of the frontend are those that it found, and so are the idle and the waiting ones unless a read
-- is left behind; the loop has sent at most one page of its own, and it has served at most one
-- request more than `MaxKeepAliveReqs`, if that limit is not negative.
pub serve-Returned :
    (o : HttpFrontendOptions) (ts : List Turn) (c : Connection)
    → Fresh c
    → (serve o ts c).done ≡ true
    → Returned o c (serve o ts c)
unfolding serve
serve-Returned o ts c f d =
    if-cases (λ (r : Connection). r.done ≡ true → Returned o c r)
      (exceeds o.max_conn c.total_conn_count)
      (λ _ _. record {
        total = refl;
        active = refl;
        read_counts = inr (refl, refl);
        one_page = let e = f.unanswered in omega arith;
        bounded = limited o.max_keep_alive_reqs c.served (λ k _. let e = f.unserved in omega arith);
      })
      (λ _.
        if-cases (λ (r : Connection). r.done ≡ true → Returned o c r) (loop o ts t).done
          (λ _ _. record {
            total = ap dec h.total ∙ dec-inc c.total_conn_count;
            active = h.active;
            read_counts = read (Bool-cases (loop o ts t).reading);
            one_page = h.one_page;
            bounded = limited o.max_keep_alive_reqs (loop o ts t).served h.bounded;
          })
          (λ e g. cc))
      d
  where
    t : Connection
    t = record c { total_conn_count = inc c.total_conn_count }

    h : Inside o t (loop o ts t)
    h = loop-Inside o ts t t (
        Fresh-Inside o t (record {
          first = f.first;
          going = f.going;
          unserved = f.unserved;
          unanswered = f.unanswered;
          unread = f.unread;
        }))

    read :
        ((loop o ts t).reading ≡ true) ⊎ ((loop o ts t).reading ≡ false)
        → ((loop o ts t).reading ≡ true)
          ⊎ (((loop o ts t).idle_conn_count ≡ c.idle_conn_count)
              × ((loop o ts t).waiting_conn_count ≡ c.waiting_conn_count))
    read (inl y) = inl y
    read (inr n) = inr (h.idle n, h.waiting n)
