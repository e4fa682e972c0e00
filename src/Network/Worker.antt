-- ===== src/Network/Worker.antt =====
-- elfo-network/src/worker/mod.rs: the messages that come from the socket, on their way to the
-- mailboxes of the local actors. The address book is a map of mailboxes; an actor's own handling of
-- `Terminate`, the lock on the flows, tracing and metrics are left out. The group to which a message
-- is routed gives the list of its relevant actors.
use elfo.Base.{
  Bool, true, false, not, Option, none, some, List, [], ◌∷◌, ◌++◌, if◌then◌else◌, Run, done, ◌>>=◌,
}
use elfo.Base.Assoc.{find, delete, insert}
use elfo.Core.Addr.{Addr}
use elfo.Network.Codec.{NetworkAddr}
use elfo.Network.RxFlows.{
  RxFlows, RxFlow, store, get_flow, get_or_create_flow, acquire_routed, release_routed, is_stable,
  acquire_direct, release_direct, enqueue, dequeue, close,
}
use elfo.Network.TxFlows.{UpdateFlow}
use elfo.Core.Mailbox.{Mailbox, SendResult, sent, try_send}
pub mod Changes
pub mod Order
pub mod Delivery
pub mod Pushing
pub mod InOrder

-- The system messages that are sent back.
pub data SystemMessage : Type 0 where
  update_flow : UpdateFlow → SystemMessage
  close_flow : NetworkAddr → SystemMessage

-- What `SocketReader` and `Pusher` share and what they have sent: `starting` are the actors for
-- which `StartPusher` was sent, `pushing` what a pusher has dequeued and not sent yet.
pub record Worker (E : Type 0) : Type 0 where
  pub flows : RxFlows E
  pub book : List (Addr × Mailbox E)
  pub outbox : List SystemMessage
  pub starting : List Addr
  pub pushing : List (Addr × (E × Bool))

module _ {E : Type 0} where
  abbrev pub send_update : Worker E → Option UpdateFlow → Worker E
  send_update w none = w
  send_update w (some u) = record w { outbox = w.outbox ++ update_flow u ∷ [] }

  abbrev pub send_close : Worker E → Option NetworkAddr → Worker E
  send_close w none = w
  send_close w (some a) = record w { outbox = w.outbox ++ close_flow a ∷ [] }

  -- `release_routed` and `send_back`, if the message was routed.
  unfoldable pub give_back_routed : Worker E → Bool → Run (Worker E)
  give_back_routed w false = done w
  give_back_routed w true = do
    (flows, update) ← release_routed w.flows
    done (send_update (record w { flows = flows }) update)

  -- The flow of a recipient that is gone is closed.
  unfoldable pub close_gone : Worker E → Addr → Run (Worker E)
  close_gone w a = do
    (flows, closed_addr, update) ← close w.flows a
    done (send_update (send_close (record w { flows = flows }) closed_addr) update)

  -- The end of `do_handle_message`, from the result of `try_send`.
  unfoldable pub finish_delivery : Worker E → Addr → E → Bool → SendResult → Run (Worker E)
  finish_delivery w a e routed SendResult.closed = do w ← close_gone w a; give_back_routed w routed
  finish_delivery w a e routed sent = do
    (flows, flow) ← get_or_create_flow w.flows a
    flow ← acquire_direct flow (not routed)
    (flow, update) ← release_direct flow
    give_back_routed (send_update (record w { flows = store flows a flow.flow }) update) routed
  finish_delivery w a e routed SendResult.full = do
    (flows, flow) ← get_or_create_flow w.flows a
    flow ← acquire_direct flow (not routed)
    done (record w {
      flows = store flows a (enqueue flow.flow e routed);
      starting = w.starting ++ a ∷ [];
    })

  -- The flow of the recipient, if it is there and unstable.
  abbrev pub if_unstable : Option (RxFlow E) → Option (RxFlow E)
  if_unstable none = none
  if_unstable (some flow) = if is_stable flow then none else some flow

  unfoldable pub deliver : Worker E → Addr → Mailbox E → E → Bool → Run (Worker E)
  deliver w a m e routed =
      let (m', result) = try_send m e in
      finish_delivery (record w { book = insert w.book a m' }) a e routed result

  -- An envelope for an unstable recipient waits behind the others.
  unfoldable pub wait_in_queue : Worker E → RxFlow E → Addr → E → Bool → Run (Worker E)
  wait_in_queue w flow a e routed = do
    flow ← acquire_direct flow (not routed)
    done (record w { flows = store w.flows a (enqueue flow.flow e routed) })

  -- The recipient is given by its address and its mailbox.
  unfoldable pub do_handle_message : Worker E → Addr → Mailbox E → E → Bool → Run (Worker E)
  do_handle_message w a m e routed = do
    flows ← if routed then acquire_routed w.flows false else done w.flows
    let w' = record w { flows = flows }
    elim (if_unstable (get_flow flows a)) [
      | some flow ↦ wait_in_queue w' flow a e routed
      | none ↦ deliver w' a m e routed
    ]

  unfoldable pub handle_direct_message : Worker E → Addr → E → Run (Worker E)
  handle_direct_message w a e = elim (find w.book a) [
    | none ↦ close_gone w a
    | some m ↦ do_handle_message w a m e false
  ]

  -- The visits of a group, to actors that are in the book.
  unfoldable pub visit_all : Worker E → List Addr → E → Run (Worker E)
  visit_all w [] e = done w
  visit_all w (a ∷ rest) e = do
    w ← elim (find w.book a) [ none ↦ done w | some m ↦ do_handle_message w a m e true ]
    visit_all w rest e

  unfoldable pub handle_routed_message : Worker E → List Addr → E → Run (Worker E)
  handle_routed_message w targets e = do
    flows ← acquire_routed w.flows true
    w ← visit_all (record w { flows = flows }) targets e
    give_back_routed w true

  abbrev pub take_next : Worker E → Addr → RxFlows E × Option (E × Bool) → Worker E × Bool
  take_next w a (flows, none) = (record w { flows = flows }, false)
  take_next w a (flows, some p) = (record w { flows = flows; pushing = insert w.pushing a p }, true)

  -- `Pusher::exec`: the next envelope, if there is one.
  unfoldable pub pusher_next : Worker E → Addr → Worker E × Bool
  pusher_next w a = take_next w a (dequeue w.flows a)

  -- `Pusher::exec` when `push` has failed.
  unfoldable pub push_failed : Worker E → Addr → Bool → Run (Worker E)
  push_failed w a routed = do w ← close_gone w a; give_back_routed w routed

  -- The end of `push`, after the envelope is sent.
  unfoldable pub pushed : Worker E → Addr → Bool → Run (Worker E)
  pushed w a routed = elim (get_flow w.flows a) [
    | none ↦ push_failed w a routed
    | some flow ↦ do
      (flow, update) ← release_direct flow
      give_back_routed (send_update (record w { flows = store w.flows a flow.flow }) update) routed
  ]

  -- An attempt to send; a full mailbox leaves the pusher waiting.
  unfoldable pub push_to : Worker E → Addr → E → Bool → Mailbox E × SendResult → Run (Worker E)
  push_to w a e routed (m, sent) =
      pushed (record w { book = insert w.book a m; pushing = delete w.pushing a }) a routed
  push_to w a e routed (m, SendResult.full) = done w
  push_to w a e routed (m, SendResult.closed) =
      push_failed (record w { pushing = delete w.pushing a }) a routed

  unfoldable pub push : Worker E → Addr → E → Bool → Run (Worker E)
  push w a e routed = elim (find w.book a) [
    | none ↦ push_failed (record w { pushing = delete w.pushing a }) a routed
    | some m ↦ push_to w a e routed (try_send m e)
  ]
