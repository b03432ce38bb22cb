-- ===== src/AccepterHandler.antt =====
-- pkg/lb/accepterhandler.go: what an accepter does with a connection. Listeners, frontends and
-- configurations of TLS are numbers.
use simult.Prelude.{ℕ, Bool, Option, none, some}

pub record AccepterHandler : Type 0 where
  pub le : Option ℕ
  pub fe : Option ℕ
  pub tls_config : Option ℕ
  pub shared : Bool

-- A call of the frontend's `Serve`, for a connection that is wrapped if there is a configuration.
pub record Served : Type 0 where
  pub fe : ℕ
  pub le : Option ℕ
  pub wrapped : Option ℕ

unfoldable pub set : AccepterHandler → Option ℕ → Option ℕ → Option ℕ → AccepterHandler
set ah le fe tls_config = record ah { le = le; fe = fe; tls_config = tls_config }

unfoldable pub serve : AccepterHandler → Option Served
serve ah = elim ah.fe [
  | none ↦ none
  | some fe ↦ some (record { fe = fe; le = ah.le; wrapped = ah.tls_config })
]

-- `SetShared`, which returns the old status.
unfoldable pub set_shared : AccepterHandler → Bool → Bool × AccepterHandler
set_shared ah status = (ah.shared, record ah { shared = status })
