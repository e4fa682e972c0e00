-- ===== src/Network/Worker/InOrder.antt =====
-- elfo-network/src/worker/mod.rs: the steps of the reader, of the pusher and of the actor for the
-- messages of one actor, in any interleaving. Other actors have other flows, pushers and mailboxes.
use elfo.Core.Mailbox.Changes.{some_injective, dequeue-some}
use elfo.Network.Worker.Changes.{find-insert_self, queue_at}
use elfo.Base.{
  ◌+◌, ◌≡◌, refl, sym, ap, ◌∙◌, Bool, false, none, some, List, [], ◌∷◌, ◌++◌, append_assoc, done,
}
use elfo.Base.Assoc.{find, insert}
use elfo.Core.Addr.{Addr}
use elfo.Network.Worker.{Worker, do_handle_message, pusher_next, push}
use elfo.Network.Worker.Order.{held, backlog, in_mailbox, waiting, Settled}
use elfo.Network.Worker.Delivery.{do_handle_message-order}
use elfo.Network.Worker.Pushing.{pusher_next-order, push-order}
use elfo.Core.Mailbox.{Mailbox, dequeue}

-- With what has arrived for the actor and what the actor has taken from its mailbox.
pub record Course (E : Type 0) : Type 0 where
  pub worker : Worker E
  pub arrived : List E
  pub taken : List E

module _ {E : Type 0} (a : Addr) where
  pub data Step : Course E → Course E → Type 0 where
    arrives :
        (r : Course E) (m : Mailbox E) (e : E) (routed : Bool) {w : Worker E}
        → find (r.worker).book a ≡ some m
        → do_handle_message r.worker a m e routed ≡ done w
        → Step r (record r { worker = w; arrived = r.arrived ++ e ∷ [] })
    picks :
        (r : Course E)
        → find (r.worker).pushing a ≡ none
        → Step r (record r { worker = (pusher_next r.worker a).0 })
    pushes :
        (r : Course E) (e : E) (routed : Bool) {w : Worker E}
        → find (r.worker).pushing a ≡ some (e, routed)
        → push r.worker a e routed ≡ done w
        → Step r (record r { worker = w })
    takes :
        (r : Course E) (m : Mailbox E) {m' : Mailbox E} {e : E}
        → find (r.worker).book a ≡ some m
        → dequeue m ≡ (m', some e)
        → Step r (record r {
          worker = record (r.worker) {
            book = insert (r.worker).book a (record m' { permits = m'.permits + 1 });
          };
          taken = r.taken ++ e ∷ [];
        })

  pub data Reach (w : Worker E) : Course E → Type 0 where
    start : Reach w (record { worker = w; arrived = waiting w a; taken = [] })
    next : {r r' : Course E} → Reach w r → Step r r' → Reach w r'

  pub record Inv (r : Course E) : Type 0 where
    pub settled : Settled r.worker a
    pub in_order : r.taken ++ waiting r.worker a ≡ r.arrived

  still-open :
      (r : Course E) (m : Mailbox E) → find (r.worker).book a ≡ some m → Inv r → m.is_closed ≡ false
  still-open r m known i =
      let same : m ≡ (i.settled).box = some_injective (sym known ∙ (i.settled).known) in
      ap (λ (n : Mailbox E). n.is_closed) same ∙ (i.settled).open_box

  Inv-Step : {r r' : Course E} → Step r r' → Inv r → Inv r'
  Inv-Step (arrives r m e routed known h) i =
      let s : Settled r.worker a = record {
        box = m;
        known = known;
        open_box = still-open r m known i;
        idle_pusher = (i.settled).idle_pusher;
      } in
      let (order, settled) = do_handle_message-order r.worker a e routed s h in
      record {
        settled = settled;
        in_order =
            ap (λ l. r.taken ++ l) order
            ∙ sym (append_assoc r.taken (waiting r.worker a) (e ∷ []))
            ∙ ap (λ l. l ++ e ∷ []) i.in_order;
      }
  Inv-Step (picks r idle) i =
      let (order, settled) = pusher_next-order r.worker a i.settled idle in
      record { settled = settled; in_order = ap (λ l. r.taken ++ l) order ∙ i.in_order }
  Inv-Step (pushes r e routed holds h) i =
      let (order, settled) = push-order r.worker a e routed i.settled holds h in
      record { settled = settled; in_order = ap (λ l. r.taken ++ l) order ∙ i.in_order }
  Inv-Step (takes r m {m' = m'} {e = e} known h) i =
      let (same, front) = dequeue-some m h in
      let b : Mailbox E = record m' { permits = m'.permits + 1 } in
      let book = insert (r.worker).book a b in
      let boxed : find book a ≡ some b = find-insert_self (r.worker).book a b in
      let behind = held (find (r.worker).pushing a) ++ backlog (queue_at (r.worker).flows a) in
      record {
        settled = record {
          box = b;
          known = boxed;
          open_box = ap (λ (n : Mailbox E). n.is_closed) same ∙ still-open r m known i;
          idle_pusher = (i.settled).idle_pusher;
        };
        in_order =
            ap (λ o. (r.taken ++ e ∷ []) ++ (in_mailbox o ++ behind)) boxed
            ∙ append_assoc r.taken (e ∷ []) (m'.queue ++ behind)
            ∙ ap (λ l. r.taken ++ (l ++ behind)) (sym front)
            ∙ ap (λ o. r.taken ++ (in_mailbox o ++ behind)) (sym known)
            ∙ i.in_order;
      }

  -- While an actor's mailbox is open, in every interleaving of the messages that the reader handles
  -- for the actor, of the rounds of its pusher, and of the actor, no message overtakes another, is
  -- lost or is doubled: what the actor has taken and what waits in its mailbox, at its pusher and
  -- in the queue of its flow is together what has arrived, in that order.
  pub messages_in_order :
      (w : Worker E) (r : Course E)
      → Settled w a
      → Reach w r
      → r.taken ++ waiting r.worker a ≡ r.arrived
  messages_in_order w r s h = (Inv-Reach h).in_order
    where
      Inv-Reach : {r : Course E} → Reach w r → Inv r
      Inv-Reach start = record { settled = s; in_order = refl }
      Inv-Reach (next r s) = Inv-Step s (Inv-Reach r)
