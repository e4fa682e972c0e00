-- ===== src/Network/Worker/Delivery.antt =====
-- elfo-network/src/worker/mod.rs: a message that comes from the socket is the last that waits for its
-- actor.
use elfo.Base.{
  ◌≡◌, refl, sym, ap, ◌∙◌, ◌⊎◌, inl, inr, Bool, true, false, Option, none, some, List, [], ◌∷◌,
  ◌++◌, if◌then◌else◌, done, >>=-eq-done, done_injective,
}
use elfo.Base.Assoc.{find}
use elfo.Core.Addr.{Addr}
use elfo.Network.RxFlows.{RxFlowData, RxFlows, RxFlow, get_flow, acquire_routed, is_stable}
use elfo.Network.Worker.{Worker, if_unstable, do_handle_message}
use elfo.Network.Worker.Changes.{queue_of, queue_at, SameQueues, acquire_routed-map}
use elfo.Network.Worker.Order.{waiting_of, waiting, Settled, wait_in_queue-order, deliver-order}

module _ {E : Type 0} where
  get_flow-queue :
      (t : RxFlows E) (a : Addr)
      → ((if_unstable (get_flow t a) ≡ none) × (queue_at t a ≡ none))
        ⊎ ((flow : RxFlow E) × (if_unstable (get_flow t a) ≡ some flow)
            × (flow.flow.queue ≡ queue_at t a))
  unfolding get_flow is_stable
  get_flow-queue t a = of_find (find t.map a)
    where
      of_queue :
          (f : RxFlowData E) (q : Option (List (E × Bool)))
          → f.queue ≡ q
          → let flow : RxFlow E = record { node = t.node_no; addr = a; flow = f } in
            ((if_unstable (some flow) ≡ none) × (q ≡ none))
            ⊎ ((flow : RxFlow E) × (if_unstable
                    (some (record { node = t.node_no; addr = a; flow = f }))
                  ≡ some flow)
                × (flow.flow.queue ≡ q))
      of_queue f none h = inl (rw h refl, refl)
      of_queue f (some q) h = inr (record { node = t.node_no; addr = a; flow = f }, rw h refl, h)

      of_find :
          (o : Option (RxFlowData E))
          → let found : Option (RxFlow E) = elim o [
            | none ↦ none
            | some f ↦ some (record { node = t.node_no; addr = a; flow = f })
          ] in
            ((if_unstable found ≡ none) × (queue_of o ≡ none))
            ⊎ ((flow : RxFlow E) × (if_unstable found ≡ some flow) × (flow.flow.queue ≡ queue_of o))
      of_find none = inl (refl, refl)
      of_find (some f) = of_queue f f.queue refl

  pub waiting-same : (w w' : Worker E) (a : Addr) → SameQueues w w' → waiting w' a ≡ waiting w a
  waiting-same w w' a s =
      ap (λ l. waiting_of (find l a) (find w'.pushing a) (queue_at w'.flows a)) s.books
      ∙ ap (λ l. waiting_of (find w.book a) (find l a) (queue_at w'.flows a)) s.pushers
      ∙ ap (λ l. waiting_of (find w.book a) (find w.pushing a) (queue_of (find l a))) s.maps

  pub Settled-same : (w w' : Worker E) (a : Addr) → SameQueues w w' → Settled w a → Settled w' a
  Settled-same w w' a s t = record {
    box = t.box;
    known = ap (λ l. find l a) s.books ∙ t.known;
    open_box = t.open_box;
    idle_pusher = λ h.
        ap (λ l. find l a) s.pushers
        ∙ t.idle_pusher (sym (ap (λ l. queue_of (find l a)) s.maps) ∙ h);
  }

  -- The first lines of `do_handle_message`.
  acquired-same :
      (w : Worker E) (routed : Bool) {flows : RxFlows E}
      → (if routed then acquire_routed w.flows false else done w.flows) ≡ done flows
      → SameQueues w (record w { flows = flows })
  acquired-same w true h = record {
    maps = acquire_routed-map w.flows false h;
    books = refl;
    pushers = refl;
  }
  acquired-same w false h = record {
    maps = ap (λ (t : RxFlows E). t.map) (sym (done_injective h));
    books = refl;
    pushers = refl;
  }

  -- A message for an actor whose mailbox is open is the last that waits.
  pub do_handle_message-order :
      (w : Worker E) (a : Addr) (e : E) (routed : Bool) {w' : Worker E}
      → (s : Settled w a) → do_handle_message w a s.box e routed ≡ done w'
      → (waiting w' a ≡ waiting w a ++ e ∷ []) × Settled w' a
  unfolding do_handle_message
  do_handle_message-order w a e routed {w' = w'} s h =
      let (flows, e₁, h₁) =
        >>=-eq-done (if routed then acquire_routed w.flows false else done w.flows) _ h in
      let x : Worker E = record w { flows = flows } in
      let same = acquired-same w routed e₁ in
      let t : Settled x a = record {
        box = s.box;
        known = s.known;
        open_box = s.open_box;
        idle_pusher = λ h. s.idle_pusher (sym (ap (λ l. queue_of (find l a)) same.maps) ∙ h);
      } in
      let (order, settled) : (waiting w' a ≡ waiting x a ++ e ∷ []) × Settled w' a =
        elim (get_flow-queue flows a) [
          | inl (eq, stable) ↦ deliver-order x a e routed t stable (rw eq at h₁)
          | inr (flow, eq, queue) ↦ wait_in_queue-order x flow a e routed t queue (rw eq at h₁)
        ] in
      (order ∙ ap (λ l. l ++ e ∷ []) (waiting-same w x a same), settled)
