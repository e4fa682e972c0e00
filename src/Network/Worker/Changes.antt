-- ===== src/Network/Worker/Changes.antt =====
-- elfo-network/src/worker/mod.rs: what the calls leave as it was. The windows change in all of them;
-- the queues of the flows, the mailboxes and the pushers matter for the order of messages.
use elfo.Base.Int.{pos}
use elfo.Base.{
  ℕ, ◌≡◌, refl, sym, ap, subst, ◌∙◌, Bool, true, false, Option, none, some, List, arith, done,
  ◌>>=◌, >>=-eq-done, done_injective,
}
use elfo.Base.Assoc.{find, insert, find-insert}
use elfo.Core.Addr.{Addr}
use elfo.Network.RxFlows.{
  RxFlowData, RxFlows, RxFlow, store, get_or_create_flow, acquire_routed, release_routed,
  acquire_direct, release_direct,
}
use elfo.Network.TxFlows.{UpdateFlow}
use elfo.Network.FlowControl.{rx_new, rx_acquire, rx_release}
use elfo.Network.Worker.{Worker, send_update, give_back_routed}

pub find-insert_self :
    {A : Type 0} (m : List (ℕ × A)) (k : ℕ) (a : A) → find (insert m k a) k ≡ some a
find-insert_self m k a = let e = find-insert m k k a in ground (arith, e)

module _ {E : Type 0} where
  -- The queue of an actor's flow, if it has one.
  abbrev pub queue_of : Option (RxFlowData E) → Option (List (E × Bool))
  queue_of none = none
  queue_of (some f) = f.queue

  abbrev pub queue_at : RxFlows E → Addr → Option (List (E × Bool))
  queue_at t a = queue_of (find t.map a)

  -- Two workers that differ in their windows and in what they have sent back.
  pub record SameQueues (w w' : Worker E) : Type 0 where
    pub maps : w'.flows.map ≡ w.flows.map
    pub books : w'.book ≡ w.book
    pub pushers : w'.pushing ≡ w.pushing

  pub acquire_routed-map :
      (t : RxFlows E) (tx_knows : Bool) {t' : RxFlows E}
      → acquire_routed t tx_knows ≡ done t'
      → t'.map ≡ t.map
  unfolding acquire_routed
  acquire_routed-map t tx_knows h =
      let (c, e, e₁) = >>=-eq-done (rx_acquire t.routed_control tx_knows) _ h in
      ap (λ (x : RxFlows E). x.map) (sym (done_injective e₁))

  pub acquire_direct-queue :
      (r : RxFlow E) (tx_knows : Bool) {r' : RxFlow E}
      → acquire_direct r tx_knows ≡ done r'
      → r'.flow.queue ≡ r.flow.queue
  unfolding acquire_direct
  acquire_direct-queue r tx_knows h =
      let (c, e, e₁) = >>=-eq-done (rx_acquire r.flow.control tx_knows) _ h in
      ap (λ (x : RxFlow E). x.flow.queue) (sym (done_injective e₁))

  pub release_direct-queue :
      (r : RxFlow E) {out : RxFlow E × Option UpdateFlow}
      → release_direct r ≡ done out
      → out.0.flow.queue ≡ r.flow.queue
  unfolding release_direct
  release_direct-queue r h =
      let (c, e, e₁) = >>=-eq-done (rx_release r.flow.control (pos 1)) _ h in
      ap (λ (x : RxFlow E × Option UpdateFlow). x.0.flow.queue) (sym (done_injective e₁))

  send_update-same : (w : Worker E) (u : Option UpdateFlow) → SameQueues w (send_update w u)
  send_update-same w none = record { maps = refl; books = refl; pushers = refl }
  send_update-same w (some u) = record { maps = refl; books = refl; pushers = refl }

  release_routed-map :
      (t : RxFlows E) {out : RxFlows E × Option UpdateFlow}
      → release_routed t ≡ done out
      → out.0.map ≡ t.map
  unfolding release_routed
  release_routed-map t h =
      let (c, e, e₁) = >>=-eq-done (rx_release t.routed_control (pos 1)) _ h in
      ap (λ (x : RxFlows E × Option UpdateFlow). x.0.map) (sym (done_injective e₁))

  pub SameQueues-trans : {u v w : Worker E} → SameQueues u v → SameQueues v w → SameQueues u w
  SameQueues-trans p q = record {
    maps = q.maps ∙ p.maps;
    books = q.books ∙ p.books;
    pushers = q.pushers ∙ p.pushers;
  }

  pub give_back-same :
      (w : Worker E) (u : Option UpdateFlow) (routed : Bool) {w' : Worker E}
      → give_back_routed (send_update w u) routed ≡ done w'
      → SameQueues w w'
  unfolding give_back_routed
  give_back-same w u false h =
      subst (λ (x : Worker E). SameQueues w x) (done_injective h) (send_update-same w u)
  give_back-same w u true h =
      let w₁ = send_update w u in
      let (p, e, e₁) = >>=-eq-done (release_routed w₁.flows) _ h in
      let kept : SameQueues w₁ (record w₁ { flows = p.0 }) = record {
        maps = release_routed-map w₁.flows e;
        books = refl;
        pushers = refl;
      } in
      SameQueues-trans (send_update-same w u) (
        SameQueues-trans kept (
          subst (λ (x : Worker E). SameQueues (record w₁ { flows = p.0 }) x) (done_injective e₁)
            (send_update-same (record w₁ { flows = p.0 }) p.1)))

  -- A flow that is got or created has the queue of the address.
  pub get_or_create-queue :
      (t : RxFlows E) (a : Addr) {out : RxFlows E × RxFlow E}
      → get_or_create_flow t a ≡ done out
      → out.1.flow.queue ≡ queue_at t a
  unfolding get_or_create_flow
  get_or_create-queue t a h = of_find (find t.map a) h
    where
      of_find :
          (o : Option (RxFlowData E)) {out : RxFlows E × RxFlow E}
          → (elim o [
            | some f ↦ done (t, record { node = t.node_no; addr = a; flow = f })
            | none ↦ do
              c ← rx_new t.initial_window
              let f : RxFlowData E = record { control = c; queue = none; routed = pos 0 }
              done (store t a f, record { node = t.node_no; addr = a; flow = f })
          ])
            ≡ done out
          → out.1.flow.queue ≡ queue_of o
      of_find (some f) h =
          ap (λ (x : RxFlows E × RxFlow E). x.1.flow.queue) (sym (done_injective h))
      of_find none h =
          let (c, e, e₁) = >>=-eq-done (rx_new t.initial_window) _ h in
          ap (λ (x : RxFlows E × RxFlow E). x.1.flow.queue) (sym (done_injective e₁))
