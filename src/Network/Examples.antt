-- ===== src/Network/Examples.antt =====
-- The theorems about elfo-network at concrete inputs.
use elfo.Base.{◌+◌, ◌-◌, ◌^◌, ◌≤◌, ◌≡◌, refl, true, some, [], ◌∷◌, arith, done, panic}
use elfo.Base.Int.{
  pos, negsuc, pos_part, neg_part, ◌+ℤ◌, ◌-ℤ◌, ◌*ℤ◌, ◌<ℤ◌, quot, i32_min, wrap_i32, checked,
  saturate,
}
use elfo.Network.FlowControl.{
  TxFlowControl, fetch_sub_one, try_acquire, RxFlowControl, rx_acquire, rx_release,
}
use elfo.Network.FlowControl.Rx.{
  IsI32, rx_release_accounts, rx_release_no_stall, round_trips, backlog_underflows,
}
use elfo.Network.FlowControl.Protocol.{Link, connected, Link-agrees, Link-no_deadlock}
use elfo.Network.FlowControl.Protocol.{sends, receives, processes}
use elfo.Network.FlowControl.Protocol
use elfo.Network.FlowControl.Tx.{Threads, start, try_acquire_interleaved}
use elfo.Network.FlowControl.Tx.{begins}
use elfo.Network.FlowControl.Tx

-- A link with an initial window of 100, after one message was sent, received and processed.
abbrev served : Link
served = record {
  sender = record { window = pos 99 };
  messages = 0;
  updates = [];
  receiver = record { tx_window = pos 99; rx_window = pos 100 };
  pending = 0;
}

served-Reach : Protocol.Reach (connected (pos 100)) served
unfolding try_acquire rx_acquire rx_release checked wrap_i32 saturate quot ◌+ℤ◌ ◌-ℤ◌ ◌*ℤ◌
served-Reach =
    Protocol.Reach.next
      (Protocol.Reach.next
        (Protocol.Reach.next Protocol.Reach.here (sends (connected (pos 100)) refl))
        (receives _ refl refl))
      (processes _ refl (omega arith) refl)

Link-no_deadlock_example : (c : TxFlowControl) × (try_acquire served.sender ≡ done (c, true))
Link-no_deadlock_example =
    Link-no_deadlock (pos 100) served refl (omega arith) served-Reach refl refl refl

Link-agrees_example :
    (served.sender.window +ℤ pos 0 +ℤ pos 0 ≡ served.receiver.tx_window)
    × (served.receiver.rx_window +ℤ pos 0 ≡ pos 100)
Link-agrees_example = Link-agrees (pos 100) served refl served-Reach

-- Two threads between their two operations, with a window of 1.
abbrev racing : Threads
racing = record {
  control = record { window = negsuc 0 };
  held = pos 0 ∷ pos 1 ∷ [];
  granted = 0;
  unbounded = 0;
  released = 0;
}

racing-Reach : Tx.Reach (start 1) racing
unfolding fetch_sub_one wrap_i32 ◌-ℤ◌
racing-Reach = Tx.Reach.next (Tx.Reach.next Tx.Reach.here (begins (start 1) refl)) (begins _ refl)

try_acquire_interleaved_example :
    (racing.granted ≤ 1 + 0)
    × (pos_part racing.control.window + 0 + 0 + 2 ≡ neg_part racing.control.window + 1 + 0)
try_acquire_interleaved_example = try_acquire_interleaved 1 racing (omega arith) racing-Reach

abbrev half_used : RxFlowControl
half_used = record { tx_window = pos 4; rx_window = pos 5 }

half_used-IsI32 : IsI32 half_used
half_used-IsI32 = record { tx_fits = refl; rx_fits = refl }

rx_release_accounts_example :
    (pos 6 ≡ half_used.rx_window +ℤ pos 1)
    × (pos 6 ≡ half_used.tx_window +ℤ pos 2)
    × IsI32 (record { tx_window = pos 6; rx_window = pos 6 })
unfolding rx_release checked wrap_i32 saturate quot ◌+ℤ◌ ◌-ℤ◌ ◌*ℤ◌
rx_release_accounts_example =
    rx_release_accounts half_used (record { tx_window = pos 6; rx_window = pos 6 }) (pos 1)
      (some (pos 2)) half_used-IsI32 refl

rx_release_no_stall_example : pos 0 <ℤ pos 6
unfolding rx_release checked wrap_i32 saturate quot ◌+ℤ◌ ◌-ℤ◌ ◌*ℤ◌
rx_release_no_stall_example =
    rx_release_no_stall half_used (record { tx_window = pos 6; rx_window = pos 6 }) (pos 1)
      (some (pos 2)) half_used-IsI32 refl (omega arith) (omega arith)

abbrev full : RxFlowControl
full = record { tx_window = negsuc (2 ^ 31 - 3); rx_window = pos 0 }

backlog_underflows_example :
    (round_trips 1 full ≡ done (record full { tx_window = i32_min +ℤ pos 1 }, []))
    × (round_trips 3 full ≡ panic)
unfolding ◌+ℤ◌
backlog_underflows_example =
    backlog_underflows 1 1 full (record { tx_fits = refl; rx_fits = refl }) (omega arith)
      (omega arith) refl
