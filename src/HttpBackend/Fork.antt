-- ===== src/HttpBackend/Fork.antt =====
-- pkg/lb/httpbackend.go: `Fork` with its server lines, `Close` and `Activate`. A server object is a
-- number under which the heap keeps it; the map `bss` lists its entries in the order in which the
-- loop adds them. The metrics and the goroutine of the worker are left out.
pub mod Held
pub mod Loop
pub mod Reload
pub mod Tally
use simult.Prelude.{
  ℕ, suc, ◌+◌, ◌-◌, ◌/◌, ◌^◌, Bool, true, not, ◌||◌, Option, none, some, List, [], ◌∷◌, ◌++◌, map,
  if◌then◌else◌, is_some, All, Bytes, codes, ◌=ᵇ◌, split_all, Result, ◌>>=◌, ◌>>◌, fail_if, require,
  ok, err,
}
use simult.BackendServer
use simult.BackendServer.{
  BackendServer, update, ServerUrl, ServerError, Made, made, refused, new_backend_server,
  set_shared, set_health_check,
}
use simult.HttpCheck.{HttpCheck, HttpCheckOptions, new_http_check, after, receive}
use simult.HttpCommon.Fields.{parse_uint}
use simult.HttpBackend.Select.{Servers}

-- All server objects; those from `fresh` on are not made yet.
pub record Heap : Type 0 where
  pub store : ℕ → BackendServer
  pub fresh : ℕ

pub data ForkError : Type 0 where
  server_error : ServerError → ForkError
  already_defined wrong_scheme wrong_weight : ForkError

pub lookup : Bytes → Servers → Option ℕ
lookup name [] = none
lookup name ((key, i) ∷ es) = if key =ᵇ name then some i else lookup name es

abbrev pub put : Heap → ℕ → BackendServer → Heap
put h i s = record h { store = update h.store i s }

abbrev pub alloc : Heap → BackendServer → Heap
alloc h s = record { store = update h.store h.fresh s; fresh = suc h.fresh }

-- The weight of a server line, from its words behind the first.
pub weight_of : List Bytes → Result ForkError ℕ
weight_of [] = ok 1
weight_of (word ∷ words) = require wrong_weight (parse_uint (2 ^ 8) word)

-- The checks on a server that has been made, with the weight that it gets.
pub check_line : Servers → BackendServer → List Bytes → Result ForkError ℕ
unfolding lookup weight_of
check_line bss s words = do
  fail_if (is_some (lookup s.server bss)) already_defined
  fail_if (not (s.scheme =ᵇ codes "http" || s.scheme =ᵇ codes "https")) wrong_scheme
  weight_of words

-- The object that the new backend takes, and the heap: the old backend's if it can be marked as
-- shared, and then the new object `n` is closed.
pub adopt : Option ℕ → ℕ → Heap → ℕ × Heap
adopt none n h = (n, h)
adopt (some i) n h =
    if (set_shared (h.store i) true).0
    then (n, put h i (set_shared (h.store i) true).1)
    else (let h' = put h i (set_shared (h.store i) true).1 in
        (i, put h' n (BackendServer.close (h'.store n))))

-- The variables of the loop of `Fork`.
pub record Forking : Type 0 where
  pub bss : Servers
  pub heap : Heap
  pub failure : Option ForkError

-- The part of a round behind `newBackendServer`, for the new object `n`.
pub add_made : Servers → Forking → ℕ → Result ForkError ℕ → Forking
unfolding adopt lookup
add_made old f n (err e) = record f {
  heap = put f.heap n (BackendServer.close (f.heap.store n));
  failure = some e;
}
add_made old f n (ok w) =
    let h = put f.heap n (record (f.heap.store n) { weight = w }) in
    let (i, h') = adopt (lookup (h.store n).server old) n h in
    record f { bss = f.bss ++ ((h'.store i).server, i) ∷ []; heap = h' }

pub add_server : Servers → Forking → List Bytes → Made BackendServer → Forking
unfolding add_made check_line
add_server old f words (refused e) = record f { failure = some (server_error e) }
add_server old f words (made s) =
    add_made old (record f { heap = alloc f.heap s }) f.heap.fresh (check_line f.bss s words)

-- The loop over the server lines.
pub add_servers : (Bytes → Option ServerUrl) → Servers → List Bytes → Forking → Forking
unfolding add_server
add_servers url_parse old [] f = f
add_servers url_parse old (line ∷ lines) f =
    let (name, words) = split_all b' ' line in
    let f' = add_server old f words (new_backend_server url_parse name) in
    elim f'.failure [ none ↦ add_servers url_parse old lines f' | some e ↦ f' ]

-- `Close`: every server of the map is closed.
unfoldable pub close_all : Servers → Heap → Heap
close_all [] h = h
close_all ((name, i) ∷ es) h = close_all es (put h i (BackendServer.close (h.store i)))

-- The deferred function of `Fork`.
pub settled : Forking → Option ForkError → Forking
settled f none = f
settled f (some e) = record f { bss = []; heap = close_all f.bss f.heap }

abbrev pub begin : Heap → Forking
begin h = record { bss = []; heap = h; failure = none }

-- `Fork` of a backend with the servers `old`; a nil backend has none.
unfoldable pub fork : (Bytes → Option ServerUrl) → Servers → List Bytes → Heap → Forking
unfolding add_servers settled
fork url_parse old lines h =
    let f = add_servers url_parse old lines (begin h) in settled f f.failure

-- `Activate`: without a health check the servers lose theirs at once; otherwise each server gets a
-- new check, which is set when its first report has come.
unfoldable pub activate : Option HttpCheckOptions → Servers → Heap → Heap × List (ℕ × HttpCheck)
activate opts [] h = (h, [])
activate none ((name, i) ∷ es) h = activate none es (put h i (set_health_check (h.store i) none).0)
activate (some o) ((name, i) ∷ es) h =
    let (h', pending) = activate (some o) es h in (h', (i, new_http_check o) ∷ pending)

-- The receive from `Check()` on a check that `activate` has started, after rounds with the given
-- outcomes, newest first: the check as it is then, or `none` while no status has been sent.
unfoldable pub first_report_of : HttpCheck → List Bool → Option HttpCheck
first_report_of check past =
    let (status, check') = receive (after check past) in
    elim status [ none ↦ none | some v ↦ some check' ]

-- The check whose first report has been received is set on its server.
pub report : Heap → ℕ × HttpCheck → Heap
report h (i, check) = put h i (set_health_check (h.store i) (some check)).0
