-- ===== src/Network/TxFlows.antt =====
-- elfo-network/src/worker/flows_tx.rs: the windows of the remote actors that this node sends to,
-- and those who wait for a window (`SendNotify` of elfo-core/src/remote.rs). A call with an exclusive
-- lock on the flow is one step, and so is one atomic operation under a shared lock; the metrics are
-- left out.
pub mod Steps
pub mod Awake
pub mod Acquired
pub mod Updated
pub mod Wakeups
use elfo.Base.{
  ℕ, ◌+◌, Bool, true, false, Option, none, some, List, [], ◌∷◌, if◌then◌else◌, Run, ◌>>=◌,
}
use elfo.Base.Assoc.{find, insert, delete}
use elfo.Base.Int.{ℤ}
use elfo.Core.Addr.{null}
use elfo.Network.Codec.{NetworkAddr}
use elfo.Network.FlowControl.{TxFlowControl, fetch_sub_one, settle, tx_new, tx_release, do_acquire}

pub record TxFlow : Type 0 where
  pub control : TxFlowControl
  -- The counter of `SendNotify`: who asked to be notified since the last notification.
  pub waiters : ℕ

pub record TxFlows : Type 0 where
  pub map : List (NetworkAddr × TxFlow)
  pub initial_window : ℤ

pub record UpdateFlow : Type 0 where
  pub addr : NetworkAddr
  pub window_delta : ℤ

pub data Acquire : Type 0 where
  done full closed : Acquire

-- `SendNotify::notified`.
abbrev pub notified : TxFlow → TxFlow
notified f = record f { waiters = f.waiters + 1 }

-- `SendNotify::notify`: the flow after, and how many are woken.
abbrev pub notify : TxFlow → TxFlow × ℕ
notify f = (record f { waiters = 0 }, f.waiters)

abbrev pub store : TxFlows → NetworkAddr → TxFlow → TxFlows
store t a f = record t { map = insert t.map a f }

unfoldable pub add_flow_if_needed : TxFlows → NetworkAddr → Run TxFlows
add_flow_if_needed t a = elim (find t.map a) [
  | some f ↦ Run.done t
  | none ↦ do
    c ← tx_new t.initial_window
    Run.done (store t a (record { control = c; waiters = 0 }))
]

unfoldable pub tx_flows_new : ℤ → Run TxFlows
tx_flows_new initial = add_flow_if_needed (record { map = []; initial_window = initial }) null

-- The end of `update_flow`, when the window has grown and is positive or not.
abbrev pub released : TxFlows → NetworkAddr → TxFlow → Bool → TxFlows × ℕ
released t a f true = (store t a (notify f).0, (notify f).1)
released t a f false = (store t a f, 0)

-- The flows after, and how many waiters are woken.
unfoldable pub update_flow : TxFlows → UpdateFlow → Run (TxFlows × ℕ)
update_flow t u = elim (find t.map u.addr) [
  | none ↦ Run.done (t, 0)
  | some f ↦ do
    (c, positive) ← tx_release f.control u.window_delta
    Run.done (released t u.addr (record f { control = c }) positive)
]

unfoldable pub close_flow : TxFlows → NetworkAddr → TxFlows × ℕ
close_flow t a = elim (find t.map a) [
  | none ↦ (t, 0)
  | some f ↦ (record t { map = delete t.map a }, (notify f).1)
]

-- `TxFlowsAcquirer::acquire` and `try_acquire` hold a shared lock on the flow; other calls that
-- share it run between their atomic operations, so each of these is a function. The first is
-- `fetch_sub` of `TxFlowControl::try_acquire`, with the value before; `none` is an unknown flow.
unfoldable pub begin_acquire : TxFlows → NetworkAddr → Run (TxFlows × Option ℤ)
begin_acquire t a = elim (find t.map a) [
  | none ↦ Run.done (t, none)
  | some f ↦ do
    (c, prev) ← fetch_sub_one f.control
    Run.done (store t a (record f { control = c }), some prev)
]

abbrev pub settled : TxFlows → NetworkAddr → TxFlow → TxFlowControl × Bool → TxFlows × Acquire
settled t a f (c, true) = (store t a (record f { control = c }), Acquire.done)
settled t a f (c, false) = (store t a (record f { control = c }), full)

-- The rest of `TxFlowControl::try_acquire`, with the value that `fetch_sub` has returned.
unfoldable pub settle_acquire : TxFlows → NetworkAddr → ℤ → TxFlows × Acquire
settle_acquire t a prev = elim (find t.map a) [
  | none ↦ (t, closed)
  | some f ↦ settled t a f (settle f.control prev)
]

-- The call of `notified` that follows in `acquire`, when the window was full.
unfoldable pub register : TxFlows → NetworkAddr → TxFlows
register t a = elim (find t.map a) [ none ↦ t | some f ↦ store t a (notified f) ]

unfoldable pub do_acquire_flow : TxFlows → NetworkAddr → Run (TxFlows × Bool)
do_acquire_flow t a = elim (find t.map a) [
  | none ↦ Run.done (t, false)
  | some f ↦ do c ← do_acquire f.control; Run.done (store t a (record f { control = c }), true)
]
