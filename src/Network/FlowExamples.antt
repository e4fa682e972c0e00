-- ===== src/Network/FlowExamples.antt =====
-- The theorems about the flows of elfo-network at concrete inputs.
use elfo.Base.{ℕ, ◌^◌, ◌≡◌, refl, true, false, some, [], ◌∷◌, arith}
use elfo.Base.Int.{pos, negsuc, pos_part, ◌+ℤ◌, ◌-ℤ◌, wrap_i32}
use elfo.Network.FlowControl.{tx_new, fetch_sub_one, fetch_add, settle, RxFlowControl}
use elfo.Network.FlowControl.Rx.{IsI32}
use elfo.Network.FlowControl.Tx.{first}
use elfo.Network.TxFlows.{
  TxFlow, TxFlows, add_flow_if_needed, tx_flows_new, begin_acquire, settle_acquire, register,
}
use elfo.Network.TxFlows.Steps.{set_at, World, Reach, starts, next, begins, settles, registers}
use elfo.Network.TxFlows.Wakeups.{no_lost_wakeup}
use elfo.Base.Assoc.{find}
use elfo.Network.RxFlows.{RxFlowData, RxFlows}

-- The flow of the groups after its only unit was taken and one more was asked for.
abbrev exhausted : TxFlow
exhausted = record { control = record { window = pos 0 }; waiters = 1 }

abbrev below : TxFlow
below = record { control = record { window = negsuc 0 }; waiters = 0 }

abbrev one_flow : TxFlow → TxFlows
one_flow f = record { map = (0, f) ∷ []; initial_window = pos 1 }

abbrev with_window : ℕ → TxFlow
with_window n = record { control = record { window = pos n }; waiters = 0 }

-- One call has taken the only unit, another has found no window and sleeps.
abbrev one_sleeps : World
one_sleeps = record {
  flows = one_flow exhausted;
  holding = set_at (set_at (set_at (set_at (λ a. []) 0 (pos 1 ∷ [])) 0 []) 0 (pos 0 ∷ [])) 0 [];
  telling = set_at (set_at (set_at (λ a. 0) 0 0) 0 1) 0 0;
  asleep = set_at (λ a. 0) 0 1;
}

one_sleeps-Reach : Reach (pos 1) one_sleeps
unfolding tx_flows_new add_flow_if_needed begin_acquire settle_acquire register fetch_sub_one settle
    fetch_add tx_new wrap_i32 ◌-ℤ◌ ◌+ℤ◌
one_sleeps-Reach =
    next
      (next
        (next
          (next
            (next (starts {t = one_flow (with_window 1)} refl)
              (begins _ 0 {t = one_flow (with_window 0)} {prev = pos 1} refl))
            (settles _ 0 false first))
          (begins _ 0 {t = one_flow below} {prev = pos 0} refl))
        (settles _ 0 true first))
      (registers _ 0 refl)

no_lost_wakeup_example :
    (f : TxFlow) × (find (one_flow exhausted).map 0 ≡ some f) × (pos_part f.control.window ≡ 0)
no_lost_wakeup_example = no_lost_wakeup one_sleeps 0 refl one_sleeps-Reach (omega arith)

abbrev window_of_ten : RxFlowControl
window_of_ten = record { tx_window = pos 10; rx_window = pos 10 }

-- A flow with one routed and one direct envelope queued.
abbrev backlogged : RxFlowData ℕ
backlogged = record {
  control = window_of_ten;
  queue = some ((7, true) ∷ (8, false) ∷ []);
  routed = pos 1;
}

abbrev half_taken : RxFlowControl
half_taken = record { tx_window = pos 10; rx_window = pos 9 }

abbrev one_backlogged : RxFlows ℕ
one_backlogged = record {
  node_no = 3;
  map = (2 ^ 40, backlogged) ∷ [];
  routed_control = half_taken;
  routed_used = true;
  initial_window = pos 10;
}

abbrev closed_flows : RxFlows ℕ
closed_flows = record one_backlogged { map = []; routed_control = window_of_ten }

half_taken-IsI32 : IsI32 half_taken
half_taken-IsI32 = record { tx_fits = refl; rx_fits = refl }
