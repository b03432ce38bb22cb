-- ===== src/BackendServer/Active.antt =====
-- The active counter over one acquisition and one release.
use simult.Prelude.{
  ℕ, ◌≡◌, refl, ap, ◌∙◌, Bool, true, false, Option, none, some, List, [], ◌∷◌, arith, ℤ, inc, dec,
  dec-inc,
}
use simult.BackendServer.{
  BackendServer, forget, pull, take_idle, enter, acquire_idle, dial_failed, dial_done, or_dial,
  conn_acquire, pool_conn, leave, close_conn, inspect_conn, settle, conn_release,
}

take_idle-active :
    (s : BackendServer) (xs : List ℕ) → (take_idle s xs).1.active_conn_count ≡ s.active_conn_count
unfolding take_idle pull forget
take_idle-active s [] = refl
take_idle-active s (c ∷ rest) = ground (arith, take_idle-active (pull s c rest) rest)

-- A count that is one higher if there is a connection.
abbrev pub busier : Option ℕ → ℤ → ℤ
busier none n = n
busier (some c) n = inc n

or_dial-busier :
    (d : Bool) (c : Option ℕ) (s : BackendServer)
    → (or_dial d c (enter s)).1.active_conn_count
      ≡ busier (or_dial d c (enter s)).0 s.active_conn_count
unfolding or_dial enter dial_failed dial_done
or_dial-busier d (some c) s = refl
or_dial-busier true none s = refl
or_dial-busier false none s = dec-inc s.active_conn_count

pub conn_acquire-busier :
    (s : BackendServer) (d : Bool)
    → (conn_acquire s d).1.active_conn_count ≡ busier (conn_acquire s d).0 s.active_conn_count
unfolding conn_acquire acquire_idle
conn_acquire-busier s d =
    or_dial-busier d (take_idle s s.bcs).0 (take_idle s s.bcs).1
    ∙ ap (busier _) (take_idle-active s s.bcs)

pub conn_release-active :
    (s : BackendServer) (c : ℕ)
    → (conn_release s (some c)).active_conn_count ≡ dec s.active_conn_count
unfolding conn_release settle leave close_conn pool_conn inspect_conn
conn_release-active s c = ground arith

pub close_conn-active :
    (s : BackendServer) (c : ℕ) → (close_conn s c).active_conn_count ≡ s.active_conn_count
unfolding close_conn
close_conn-active s c = refl
