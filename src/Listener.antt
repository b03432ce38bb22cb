-- ===== src/Listener.antt =====
-- pkg/lb/listener.go: listeners that hand their accepter over on a reload. An accepter is a number
-- under which the network keeps it. The error of closing an accepter is left out.
pub mod Holders
pub mod Reach
pub mod Reload
use simult.Prelude.{
  ℕ, suc, ◌-◌, ◌/◌, Bool, true, false, not, Option, none, some, if◌then◌else◌, All, Bytes, ◌=ᵇ◌,
  Result, ◌>>=◌, ◌>>◌, fail_if, ok, err,
}
use simult.BackendServer.{update}
use simult.AccepterHandler
use simult.AccepterHandler.{AccepterHandler, set_shared}

pub record ListenerOptions : Type 0 where
  pub name : Bytes
  pub network : Bytes
  pub address : Bytes
  pub fe : Option ℕ
  pub tls_config : Option ℕ

-- `opened` until `Close` or `Shutdown`.
pub record Accepter : Type 0 where
  pub handler : AccepterHandler
  pub opened : Bool

-- All accepters; those from `fresh` on are not made yet.
pub record Net : Type 0 where
  pub accepters : ℕ → Accepter
  pub fresh : ℕ

pub record Listener : Type 0 where
  pub opts : ListenerOptions
  pub accr : Option ℕ

pub data ListenError : Type 0 where
  already_forked network_differs address_differs listen_failed : ListenError

-- The status of the accepter's handler, and the network with the new status.
pub mark : Bool → ℕ → Net → Bool × Net
mark status a w =
    let (old, handler) = set_shared (w.accepters a).handler status in
    (
      old,
      record w { accepters = update w.accepters a (record (w.accepters a) { handler = handler }) },
    )

pub close_accepter : ℕ → Net → Net
close_accepter a w = record w {
  accepters = update w.accepters a (record (w.accepters a) { opened = false });
}

-- `Close`: the listener that it leaves, and the network.
unfoldable pub close : Listener → Net → Listener × Net
unfolding mark close_accepter
close l w = elim l.accr [
  | none ↦ (l, w)
  | some a ↦
      let (shared, w') = mark false a w in
      (record l { accr = none }, if shared then w' else close_accepter a w')
]

-- Behind an error `Fork` closes what it has made.
pub settle : ListenerOptions → Result ListenError Listener → Net → Result ListenError Listener × Net
unfolding close
settle opts (ok ln) w = (ok ln, w)
settle opts (err e) w = (err e, (close (record { opts = opts; accr = none }) w).1)

-- The network that `SetShared(true)` leaves and the old status, if the old listener is open.
pub share : Option ℕ → Net → Bool × Net
unfolding mark
share none w = (false, w)
share (some a) w = mark true a w

pub take_over : Listener → ListenerOptions → Bool → Result ListenError Listener
take_over l opts shared = do
  fail_if shared already_forked
  fail_if (not (opts.network =ᵇ l.opts.network)) network_differs
  fail_if (not (opts.address =ᵇ l.opts.address)) address_differs
  ok (record { opts = opts; accr = l.accr })

abbrev pub new_accepter : Accepter
new_accepter = record {
  handler = record { le = none; fe = none; tls_config = none; shared = false };
  opened = true;
}

-- `Fork`; `listens` tells whether `net.Listen` succeeds.
unfoldable pub fork :
    Bool → Option Listener → ListenerOptions → Net → Result ListenError Listener × Net
unfolding settle share take_over
fork listens (some l) opts w =
    let (shared, w') = share l.accr w in settle opts (take_over l opts shared) w'
fork true none opts w = (
  ok (record { opts = opts; accr = some w.fresh }),
  record w { accepters = update w.accepters w.fresh new_accepter; fresh = suc w.fresh },
)
fork false none opts w = settle opts (err listen_failed) w

-- `Activate` of the listener with the number `self`.
unfoldable pub activate : ℕ → Listener → Net → Net
activate self l w = elim l.accr [
  | none ↦ w
  | some a ↦
      let handler =
        AccepterHandler.set (w.accepters a).handler (some self) l.opts.fe l.opts.tls_config in
      record w { accepters = update w.accepters a (record (w.accepters a) { handler = handler }) }
]
