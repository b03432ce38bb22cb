-- ===== src/Tests/Conns.antt =====
-- Connections and the pool of a server.
use mathlib.Core.List.{Nodup}
use simult.Prelude.{
  ◌+◌, ◌≡◌, refl, ◌⊎◌, true, false, Option, none, some, List, [], ◌∷◌, ◌++◌, ◌==◌, if◌then◌else◌,
  length, Bytes, codes, pos,
}
use simult.BufConn
use simult.BufConn.{BufConn, new_buf_conn, ReadEvent, eof, pipe_read}
use simult.BufConn.Life.{delivered, failure, or_else, pipe_read_delivers}
use simult.BackendServer.{
  BackendServer, ServerUrl, build, new_backend_server, conn_acquire, conn_release, close,
  set_health_check, closed, acquire_idle, take_idle, dial_done,
}
use simult.BackendServer.Claim.{first_usable, found, left, answer, Handed, conn_acquire_answers}
use simult.BackendServer.Sharing.{Ended, close_once_per_owner, late_arrivals}
use simult.BackendServer.Life.Reach.{
  World, dial, connect, release, Reach, here, next, initial, server_accounts,
}

abbrev some_reads : List ReadEvent
some_reads =
    record { now = 1; chunk = codes "HTTP/1.1 "; err = none }
    ∷ record { now = 2; chunk = codes "200 OK"; err = some eof }
    ∷ []

pipe_read_delivers_example :
    ((pipe_read new_buf_conn some_reads).piped ≡ new_buf_conn.piped ++ delivered some_reads)
    × ((pipe_read new_buf_conn some_reads).sr_n ≡ new_buf_conn.sr_n + length (delivered some_reads))
    × ((pipe_read new_buf_conn some_reads).pe ≡ or_else (failure some_reads) new_buf_conn.pe)
pipe_read_delivers_example = pipe_read_delivers new_buf_conn some_reads

abbrev url : ServerUrl
url = record { scheme = codes "http"; host = codes "h:80"; port = codes "80" }

abbrev any_url : Bytes → Option ServerUrl
any_url text = some url

abbrev server : BackendServer
server = build url (codes "h:80") false

-- A server with two idle connections, of which the first is broken.
abbrev pooled : BackendServer
pooled = record server {
  conns = λ c. if c == 0 then record new_buf_conn { pe = some eof } else new_buf_conn;
  next = 2;
  bcs = 0 ∷ 1 ∷ [];
  idle_conn_count = pos 2;
  total_conn_count = pos 2;
}

conn_acquire_answers_example :
    ((conn_acquire pooled true).0
      ≡ answer (found (first_usable pooled.conns pooled.bcs)) pooled.next true)
    × ((conn_acquire pooled true).1.bcs ≡ left (first_usable pooled.conns pooled.bcs))
    × Handed (conn_acquire pooled true).0 (conn_acquire pooled true).1.conns
conn_acquire_answers_example = conn_acquire_answers pooled true (refl, (refl, tt))

close_once_per_owner_example :
    ((pooled.shared ≡ false) × Ended pooled.bcs (close pooled))
    ⊎ ((pooled.shared ≡ true)
        × (close pooled ≡ record pooled { shared = false })
        × Ended pooled.bcs (close (close pooled)))
close_once_per_owner_example = close_once_per_owner pooled

late_arrivals_example :
    ((conn_release (close pooled) (some 5)).bcs ≡ [])
    × (BufConn.check ((conn_release (close pooled) (some 5)).conns 5) ≡ false)
    × ((set_health_check (close pooled) none).0.health_check ≡ none)
    × ((set_health_check (close pooled) none).1 ≡ closed none)
unfolding build
late_arrivals_example = late_arrivals pooled 5 none refl

-- A dial is under way.
abbrev dialled : World
dialled = record (initial server) { srv = (acquire_idle server).1; dialing = 1 }

-- Its connection is lent out.
abbrev busy : World
busy = record {
  srv = (dial_done dialled.srv).1;
  lent = (dial_done dialled.srv).0 ∷ [];
  dialing = 0;
}

-- It is back in the pool.
abbrev idle : World
idle = record busy { srv = conn_release busy.srv (some (dial_done dialled.srv).0); lent = [] }

trace : Reach (initial server) idle
unfolding acquire_idle build take_idle
trace = next (next (next here (dial refl refl)) (connect 0 refl refl)) (release _ [] refl refl)

server_accounts_example :
    (idle.srv.idle_conn_count ≡ pos (length idle.srv.bcs))
    × (idle.srv.active_conn_count ≡ pos (length idle.lent + idle.dialing))
    × (idle.srv.total_conn_count ≡ pos (length idle.srv.bcs + (length idle.lent + idle.dialing)))
    × Nodup (idle.srv.bcs ++ idle.lent)
unfolding new_backend_server
server_accounts_example = server_accounts any_url [] server idle refl trace
