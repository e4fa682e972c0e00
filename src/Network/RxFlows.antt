-- ===== src/Network/RxFlows.antt =====
-- elfo-network/src/worker/flows_rx.rs: the windows and queues of the local actors that other nodes
-- send to. An envelope is an opaque type; the metrics are left out. A count of i32 wraps as in a
-- release build.
pub mod Queue
use elfo.Base.{
  ℕ, Bool, true, false, Option, none, some, List, [], ◌∷◌, ◌++◌, if◌then◌else◌, Run, done, ◌>>=◌,
}
use elfo.Base.Assoc.{find, insert, delete}
use elfo.Base.Int.{ℤ, pos, ◌+ℤ◌, ◌-ℤ◌, wrap_i32}
use elfo.Core.Addr.{Addr, NodeNo, null}
use elfo.Network.Codec.{NetworkAddr, from_local}
use elfo.Network.FlowControl.{RxFlowControl, rx_new, rx_acquire, rx_release}
use elfo.Network.TxFlows.{UpdateFlow}

pub record RxFlowData (E : Type 0) : Type 0 where
  pub control : RxFlowControl
  -- An envelope, and whether it was routed.
  pub queue : Option (List (E × Bool))
  pub routed : ℤ

pub record RxFlows (E : Type 0) : Type 0 where
  pub node_no : NodeNo
  pub map : List (Addr × RxFlowData E)
  pub routed_control : RxFlowControl
  pub routed_used : Bool
  pub initial_window : ℤ

-- `RxFlow`: a flow of the map, which the caller changes in place; `store` is the map after.
pub record RxFlow (E : Type 0) : Type 0 where
  pub node : NodeNo
  pub addr : Addr
  pub flow : RxFlowData E

abbrev pub update_of : NetworkAddr → Option ℤ → Option UpdateFlow
update_of a none = none
update_of a (some delta) = some (record { addr = a; window_delta = delta })

module _ {E : Type 0} where
  abbrev pub store : RxFlows E → Addr → RxFlowData E → RxFlows E
  store t a f = record t { map = insert t.map a f }

  unfoldable pub rx_flows_new : NodeNo → ℤ → Run (RxFlows E)
  rx_flows_new node initial = do
    c ← rx_new initial
    done (record {
      node_no = node;
      map = [];
      routed_control = c;
      routed_used = false;
      initial_window = initial;
    })

  unfoldable pub get_flow : RxFlows E → Addr → Option (RxFlow E)
  get_flow t a = elim (find t.map a) [
    | none ↦ none
    | some f ↦ some (record { node = t.node_no; addr = a; flow = f })
  ]

  unfoldable pub get_or_create_flow : RxFlows E → Addr → Run (RxFlows E × RxFlow E)
  get_or_create_flow t a = elim (find t.map a) [
    | some f ↦ done (t, record { node = t.node_no; addr = a; flow = f })
    | none ↦ do
      c ← rx_new t.initial_window
      let f : RxFlowData E = record { control = c; queue = none; routed = pos 0 }
      done (store t a f, record { node = t.node_no; addr = a; flow = f })
  ]

  unfoldable pub acquire_routed : RxFlows E → Bool → Run (RxFlows E)
  acquire_routed t tx_knows = do
    c ← rx_acquire t.routed_control tx_knows
    done (record t { routed_control = c; routed_used = true })

  unfoldable pub release_routed : RxFlows E → Run (RxFlows E × Option UpdateFlow)
  release_routed t = do
    (c, delta) ← rx_release t.routed_control (pos 1)
    done (record t { routed_control = c }, update_of null delta)

  unfoldable pub is_stable : RxFlow E → Bool
  is_stable r = elim r.flow.queue [ none ↦ true | some q ↦ false ]

  unfoldable pub acquire_direct : RxFlow E → Bool → Run (RxFlow E)
  acquire_direct r tx_knows = do
    c ← rx_acquire r.flow.control tx_knows
    done (record r { flow = record r.flow { control = c } })

  unfoldable pub release_direct : RxFlow E → Run (RxFlow E × Option UpdateFlow)
  release_direct r = do
    (c, delta) ← rx_release r.flow.control (pos 1)
    done (
      record r { flow = record r.flow { control = c } },
      update_of (from_local r.addr r.node) delta,
    )

  abbrev pub queued : Option (List (E × Bool)) → List (E × Bool)
  queued none = []
  queued (some q) = q

  unfoldable pub enqueue : RxFlowData E → E → Bool → RxFlowData E
  enqueue f e routed = record f {
    queue = some (queued f.queue ++ (e, routed) ∷ []);
    routed = (if routed then wrap_i32 (f.routed +ℤ pos 1) else f.routed);
  }

  abbrev pub pop_front : RxFlowData E → Option (List (E × Bool)) → RxFlowData E × Option (E × Bool)
  pop_front f none = (f, none)
  pop_front f (some []) = (record f { queue = none }, none)
  pop_front f (some ((e, routed) ∷ q)) = (
    record f { queue = some q; routed = wrap_i32 (f.routed -ℤ (if routed then pos 1 else pos 0)) },
    some (e, routed),
  )

  -- `dequeue` on the flow of an address.
  unfoldable pub dequeue_flow : RxFlowData E → RxFlowData E × Option (E × Bool)
  dequeue_flow f = pop_front f f.queue

  unfoldable pub dequeue : RxFlows E → Addr → RxFlows E × Option (E × Bool)
  unfolding dequeue_flow
  dequeue t a = elim (find t.map a) [
    | none ↦ (t, none)
    | some f ↦ (store t a (dequeue_flow f).0, (dequeue_flow f).1)
  ]

  -- The flows after, the address of the `CloseFlow`, and the update of the routed window.
  unfoldable pub close : RxFlows E → Addr → Run (RxFlows E × Option NetworkAddr × Option UpdateFlow)
  close t a = elim (find t.map a) [
    | none ↦ done (t, none, none)
    | some f ↦ do
      (c, delta) ← rx_release t.routed_control f.routed
      done (
        record t { map = delete t.map a; routed_control = c },
        some (from_local a t.node_no),
        update_of null delta,
      )
  ]
