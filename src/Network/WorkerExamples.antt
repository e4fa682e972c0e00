-- ===== src/Network/WorkerExamples.antt =====
-- The theorem about the worker at a concrete run.
use elfo.Network.FlowControl.{rx_new, rx_acquire, rx_release}
use elfo.Network.RxFlows.{
  RxFlowData, get_flow, get_or_create_flow, is_stable, acquire_direct, release_direct,
}
use elfo.Base.{ℕ, ◌≡◌, refl, Bool, false, Option, none, some, List, [], ◌∷◌, done}
use elfo.Base.Int.{pos, ◌+ℤ◌, ◌-ℤ◌, ◌*ℤ◌, quot, wrap_i32, checked, saturate}
use elfo.Core.Mailbox.{vacant, Mailbox, notify, try_send}
use elfo.Network.Worker.{Worker, give_back_routed, finish_delivery, deliver, do_handle_message}
use elfo.Network.Worker.Order.{waiting, Settled}
use elfo.Network.Worker.InOrder.{arrives, Reach, start, next, messages_in_order}

-- An actor whose mailbox has a place for one message.
abbrev small_box : Mailbox ℕ
small_box = record {
  queue = [];
  permits = 1;
  is_closed = false;
  registered = false;
  woken = false;
  closed_trace_id = none;
  capacity = 1;
  consumer = vacant;
}

abbrev quiet : Worker ℕ
quiet = record {
  flows = record {
    node_no = 1;
    map = [];
    routed_control = record { tx_window = pos 100; rx_window = pos 100 };
    routed_used = false;
    initial_window = pos 100;
  };
  book = (5, small_box) ∷ [];
  outbox = [];
  starting = [];
  pushing = [];
}

quiet-Settled : Settled quiet 5
quiet-Settled = record { box = small_box; known = refl; open_box = refl; idle_pusher = λ h. refl }

abbrev full_box : Mailbox ℕ
full_box = record small_box { queue = 1 ∷ []; permits = 0 }

abbrev flow_of : ℕ → ℕ → Option (List (ℕ × Bool)) → RxFlowData ℕ
flow_of tx rx q = record {
  control = record { tx_window = pos tx; rx_window = pos rx };
  queue = q;
  routed = pos 0;
}

abbrev after_one : Worker ℕ
after_one = record quiet {
  flows = record (quiet.flows) { map = (5, flow_of 99 100 none) ∷ [] };
  book = (5, full_box) ∷ [];
}

abbrev after_two : Worker ℕ
after_two = record after_one {
  flows = record (quiet.flows) { map = (5, flow_of 98 99 (some ((2, false) ∷ []))) ∷ [] };
  starting = 5 ∷ [];
}

first_arrives : do_handle_message quiet 5 small_box 1 false ≡ done after_one
unfolding do_handle_message deliver finish_delivery give_back_routed try_send
    elfo.Core.Mailbox.try_acquire notify get_flow is_stable get_or_create_flow acquire_direct
    release_direct elfo.Core.Mailbox.enqueue elfo.Network.RxFlows.enqueue rx_new rx_acquire
    rx_release checked ◌-ℤ◌ ◌+ℤ◌ ◌*ℤ◌ quot wrap_i32 saturate
first_arrives = refl

second_arrives : do_handle_message after_one 5 full_box 2 false ≡ done after_two
unfolding do_handle_message deliver finish_delivery give_back_routed try_send
    elfo.Core.Mailbox.try_acquire notify get_flow is_stable get_or_create_flow acquire_direct
    release_direct elfo.Core.Mailbox.enqueue elfo.Network.RxFlows.enqueue rx_new rx_acquire
    rx_release checked ◌-ℤ◌ ◌+ℤ◌ ◌*ℤ◌ quot wrap_i32 saturate
second_arrives = refl

-- Two messages arrive, of which the second does not fit in the mailbox.
two_arrived : Reach 5 quiet (record { worker = after_two; arrived = 1 ∷ 2 ∷ []; taken = [] })
two_arrived =
    next (next start (arrives _ small_box 1 false refl first_arrives))
      (arrives _ full_box 2 false refl second_arrives)

abbrev both : List ℕ
both = 1 ∷ 2 ∷ []

messages_in_order_example : waiting after_two 5 ≡ both
messages_in_order_example = messages_in_order 5 quiet _ quiet-Settled two_arrived
