-- ===== src/Tests/Reload.antt =====
-- Reloads of backends and listeners.
use simult.Prelude.{
  ℕ, ◌≡◌, refl, ◌≢◌, true, false, Option, none, some, List, [], ◌∷◌, arith, Bytes, codes, ok,
}
use simult.BackendServer.{ServerUrl, build, new_backend_server, set_shared}
use simult.HttpCommon.Fields.{parse_uint}
use simult.HttpBackend.Select.{Servers}
use simult.HttpBackend.Fork.{Heap, fork, already_defined, close_all}
use simult.HttpBackend.Fork.Reload.{fork_failed, fork_reloads}
use simult.AccepterHandler.{set_shared as mark_handler, serve}
use simult.Listener.{
  ListenerOptions, Net, Listener, new_accepter, fork as fork_listener, close, activate,
}
use simult.Listener.Holders.{World}
use simult.Listener.Reach.{Reachable-opened, Reachable, start, next, creates, forks}
use simult.Listener.Reload.{hands_over, served_by}

abbrev url : ServerUrl
url = record { scheme = codes "http"; host = codes "h"; port = [] }

abbrev any_url : Bytes → Option ServerUrl
any_url s = some url

abbrev old : Servers
old = (codes "http://h:80", 0) ∷ []

abbrev heap : Heap
heap = record { store = λ _. record (build url (codes "h:80") false) { weight = 3 }; fresh = 1 }

-- The same server twice: the second line is an error.
abbrev twice : List Bytes
twice = codes "http://h" ∷ codes "http://h" ∷ []

fork_failed_example :
    ((fork any_url old twice heap).bss ≡ [])
    × ((fork any_url old twice heap).heap.store 0 ≡ heap.store 0)
unfolding fork new_backend_server set_shared parse_uint
fork_failed_example =
    fork_failed any_url old twice heap already_defined 0 (omega arith, tt) (omega arith) refl

-- The server is kept, with another weight on its line.
abbrev heavier : List Bytes
heavier = codes "http://h 7" ∷ []

fork_reloads_example : (close_all old (fork any_url old heavier heap).heap).store 0 ≡ heap.store 0
unfolding fork new_backend_server set_shared parse_uint
fork_reloads_example =
    fork_reloads any_url old heavier heap 0 (omega arith, tt) (refl, tt) (omega arith) refl

abbrev opts : ListenerOptions
opts = record {
  name = codes "a:80";
  network = codes "tcp";
  address = codes "a:80";
  fe = some 1;
  tls_config = none;
}

abbrev opts' : ListenerOptions
opts' = record opts { fe = some 2 }

abbrev net : Net
net = record { accepters = λ _. new_accepter; fresh = 1 }

abbrev listener : Listener
listener = record { opts = opts; accr = some 0 }

hands_over_example :
    ((fork_listener true (some listener) opts' net).0 ≡ ok (record { opts = opts'; accr = some 0 }))
    × (((close listener (
            activate 5
              (record { opts = opts'; accr = some 0 })
              (fork_listener true (some listener) opts' net).1)).1.accepters
          0).opened
        ≡ true)
    × (serve
          ((close listener (
              activate 5
                (record { opts = opts'; accr = some 0 })
                (fork_listener true (some listener) opts' net).1)).1.accepters
            0).handler
        ≡ served_by 5 opts')
    × ((a : ℕ)
        → 0 ≢ a
        → (close listener (
              activate 5
                (record { opts = opts'; accr = some 0 })
                (fork_listener true (some listener) opts' net).1)).1.accepters
            a
          ≡ new_accepter)
hands_over_example = hands_over true 5 listener opts' net 0 refl refl refl refl refl

-- A listener is made, forked, and closed.
abbrev at_start : World
at_start = record { listeners = []; net = record { accepters = λ _. new_accepter; fresh = 0 } }

abbrev made_one : World
made_one = record {
  listeners = (record { opts = opts; accr = some 0 }) ∷ [];
  net = (fork_listener true none opts at_start.net).1;
}

abbrev made_two : World
made_two = record {
  listeners = (record { opts = opts'; accr = some 0 }) ∷ made_one.listeners;
  net = (fork_listener true (some listener) opts' made_one.net).1;
}

history : Reachable at_start made_two
unfolding fork_listener mark_handler
history =
    next _ _ (next _ _ start (creates true opts refl))
      (forks true opts' [] [] listener refl refl refl refl)

Reachable-opened_example :
    ((made_two.net.accepters 0).opened ≡ true) × ((made_two.net.accepters 0).handler.shared ≡ true)
unfolding fork_listener mark_handler
Reachable-opened_example = Reachable-opened at_start made_two 0 refl refl history (omega arith)
