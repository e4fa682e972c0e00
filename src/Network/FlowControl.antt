-- ===== src/Network/FlowControl.antt =====
-- elfo-network/src/worker/flow_control.rs: the windows of the sender (`TxFlowControl`) and of the
-- receiver (`RxFlowControl`). An i32 is an integer; a failed assertion, `expect` is a panic.
pub mod Rx
pub mod Tx
pub mod Protocol
use elfo.Base.{Bool, true, false, Option, none, some, Run, done, panic, if◌then◌else◌, ℕ, ◌>>=◌}
use elfo.Base.Int.{
  ℤ, pos, ◌+ℤ◌, ◌-ℤ◌, ◌*ℤ◌, leb_ℤ, ltb_ℤ, eqb_ℤ, quot, wrap_i32, checked, saturate, i32_min,
}

abbrev unclaimed_numerator : ℕ
unclaimed_numerator = 1

abbrev unclaimed_denominator : ℕ
unclaimed_denominator = 2

-- The atomic integer of `TxFlowControl`.
pub record TxFlowControl : Type 0 where
  pub window : ℤ

-- `fetch_sub(1)` and the assertion after it: the window after, and the value before.
unfoldable pub fetch_sub_one : TxFlowControl → Run (TxFlowControl × ℤ)
fetch_sub_one c =
    if eqb_ℤ c.window i32_min
    then panic
    else done (record { window = wrap_i32 (c.window -ℤ pos 1) }, c.window)

unfoldable pub fetch_add : TxFlowControl → ℤ → TxFlowControl × ℤ
fetch_add c delta = (record { window = wrap_i32 (c.window +ℤ delta) }, c.window)

unfoldable pub tx_new : ℤ → Run TxFlowControl
tx_new initial = if ltb_ℤ (pos 0) initial then done (record { window = initial }) else panic

-- The second half of `try_acquire`, after `fetch_sub` has returned `prev`.
unfoldable pub settle : TxFlowControl → ℤ → TxFlowControl × Bool
settle c prev = if ltb_ℤ (pos 0) prev then (c, true) else ((fetch_add c (pos 1)).0, false)

unfoldable pub try_acquire : TxFlowControl → Run (TxFlowControl × Bool)
unfolding settle fetch_add fetch_sub_one
try_acquire c = do (c', prev) ← fetch_sub_one c; done (settle c' prev)

unfoldable pub do_acquire : TxFlowControl → Run TxFlowControl
unfolding fetch_sub_one
do_acquire c = do (c', prev) ← fetch_sub_one c; done c'

abbrev or_panic : {A : Type 0} → Option A → Run A
or_panic none = panic
or_panic (some a) = done a

unfoldable pub tx_release : TxFlowControl → ℤ → Run (TxFlowControl × Bool)
unfolding fetch_add
tx_release c delta = do
  let r = fetch_add c delta
  sum ← or_panic (checked (r.1 +ℤ delta))
  done (r.0, ltb_ℤ (pos 0) sum)

pub record RxFlowControl : Type 0 where
  pub tx_window : ℤ
  pub rx_window : ℤ

unfoldable pub rx_new : ℤ → Run RxFlowControl
rx_new initial =
    if leb_ℤ (pos 0) initial
    then done (record { tx_window = initial; rx_window = initial })
    else panic

unfoldable pub rx_acquire : RxFlowControl → Bool → Run RxFlowControl
rx_acquire c tx_knows = do
  tx ← if tx_knows then or_panic (checked (c.tx_window -ℤ pos 1)) else done c.tx_window
  rx ← or_panic (checked (c.rx_window -ℤ pos 1))
  done (record { tx_window = tx; rx_window = rx })

-- The last test of `release`: is the unclaimed part of the window worth an update?
rx_advertise : RxFlowControl → ℤ → ℤ → RxFlowControl × Option ℤ
rx_advertise c threshold release =
    if leb_ℤ threshold release
    then (record c { tx_window = wrap_i32 (c.tx_window +ℤ release) }, some release)
    else (c, none)

-- `release` after the new window is known.
rx_update : RxFlowControl → RxFlowControl × Option ℤ
unfolding rx_advertise
rx_update c =
    if leb_ℤ c.rx_window (pos 0)
    then (c, none)
    else (if leb_ℤ c.rx_window c.tx_window
        then (c, none)
        else rx_advertise c (quot c.tx_window unclaimed_denominator *ℤ pos unclaimed_numerator)
            (saturate (c.rx_window -ℤ c.tx_window)))

unfoldable pub rx_release : RxFlowControl → ℤ → Run (RxFlowControl × Option ℤ)
unfolding rx_update
rx_release c delta = do
  rx ← or_panic (checked (c.rx_window +ℤ delta))
  done (rx_update (record c { rx_window = rx }))
