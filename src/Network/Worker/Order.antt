-- ===== src/Network/Worker/Order.antt =====
-- elfo-network/src/worker/mod.rs: the messages for one actor keep their order on the way through the
-- queue of its flow, its pusher and its mailbox.
use elfo.Core.Mailbox.Changes.{try_send-open}
use elfo.Base.{
  ◌≡◌, refl, sym, ap, subst, ◌∙◌, ◌≢◌, inl, inr, Bool, false, not, Option, none, some, List, [],
  ◌∷◌, ◌++◌, append-nil, append_assoc, Run, done, >>=-eq-done, done_injective,
}
use elfo.Base.Assoc.{find, insert}
use elfo.Core.Addr.{Addr}
use elfo.Network.RxFlows.{
  RxFlowData, RxFlow, store, get_or_create_flow, acquire_direct, release_direct, queued, enqueue,
}
use elfo.Core.Mailbox.{Mailbox, SendResult, sent, try_send}
use elfo.Network.Worker.{Worker, finish_delivery, deliver, wait_in_queue}
use elfo.Network.Worker.Changes.{
  find-insert_self, queue_of, queue_at, acquire_direct-queue, release_direct-queue, give_back-same,
  get_or_create-queue,
}

module _ {E : Type 0} where
  abbrev pub held : Option (E × Bool) → List E
  held none = []
  held (some p) = p.0 ∷ []

  abbrev pub envelopes : List (E × Bool) → List E
  envelopes [] = []
  envelopes (p ∷ ps) = p.0 ∷ envelopes ps

  abbrev pub backlog : Option (List (E × Bool)) → List E
  backlog none = []
  backlog (some q) = envelopes q

  abbrev pub in_mailbox : Option (Mailbox E) → List E
  in_mailbox none = []
  in_mailbox (some m) = m.queue

  -- The messages for an actor that it has not received: those in its mailbox, the one that its
  -- pusher holds, and those in the queue of its flow.
  abbrev pub waiting_of : Option (Mailbox E) → Option (E × Bool) → Option (List (E × Bool)) → List E
  waiting_of m p q = in_mailbox m ++ (held p ++ backlog q)

  abbrev pub waiting : Worker E → Addr → List E
  waiting w a = waiting_of (find w.book a) (find w.pushing a) (queue_at w.flows a)

  envelopes-append :
      (ps : List (E × Bool)) (e : E) (routed : Bool)
      → envelopes (ps ++ (e, routed) ∷ []) ≡ envelopes ps ++ e ∷ []
  envelopes-append [] e routed = refl
  envelopes-append (p ∷ ps) e routed = ap (λ l. p.0 ∷ l) (envelopes-append ps e routed)

  -- An open mailbox and a pusher only where a queue is.
  pub record Settled (w : Worker E) (a : Addr) : Type 0 where
    pub box : Mailbox E
    pub known : find w.book a ≡ some box
    pub open_box : box.is_closed ≡ false
    pub idle_pusher : queue_at w.flows a ≡ none → find w.pushing a ≡ none

  backlog-enqueue :
      (f : RxFlowData E) (e : E) (routed : Bool)
      → backlog (enqueue f e routed).queue ≡ backlog f.queue ++ e ∷ []
  unfolding enqueue
  backlog-enqueue f e routed = of_queue f.queue
    where
      of_queue :
          (q : Option (List (E × Bool)))
          → envelopes (queued q ++ (e, routed) ∷ []) ≡ backlog q ++ e ∷ []
      of_queue none = refl
      of_queue (some q) = envelopes-append q e routed

  enqueue-some : (f : RxFlowData E) (e : E) (routed : Bool) → (enqueue f e routed).queue ≢ none
  unfolding enqueue
  enqueue-some f e routed h = cc

  -- A message that joins the queue of the flow is the last that waits.
  pub joins_queue :
      (w w' : Worker E) (a : Addr) (f : RxFlowData E) (e : E) (routed : Bool)
      → Settled w a
      → f.queue ≡ queue_at w.flows a
      → queue_at w'.flows a ≡ (enqueue f e routed).queue
      → find w'.book a ≡ find w.book a
      → w'.pushing ≡ w.pushing
      → (waiting w' a ≡ waiting w a ++ e ∷ []) × Settled w' a
  joins_queue w w' a f e routed s same joined books pushers =
      let m = in_mailbox (find w.book a) in
      let p = held (find w.pushing a) in
      let b = backlog (queue_at w.flows a) in
      let longer : backlog (queue_at w'.flows a) ≡ b ++ e ∷ [] =
        ap backlog joined ∙ backlog-enqueue f e routed ∙ ap (λ q. backlog q ++ e ∷ []) same in
      (
        ap (λ o. in_mailbox o ++ (held (find w'.pushing a) ++ backlog (queue_at w'.flows a))) books
            ∙ ap (λ l. m ++ (held (find l a) ++ backlog (queue_at w'.flows a))) pushers
            ∙ ap (λ l. m ++ (p ++ l)) longer
            ∙ ap (λ l. m ++ l) (sym (append_assoc p b (e ∷ [])))
            ∙ sym (append_assoc m (p ++ b) (e ∷ [])),
        record {
          box = s.box;
          known = books ∙ s.known;
          open_box = s.open_box;
          idle_pusher = λ h. absurd (enqueue-some f e routed (sym joined ∙ h));
        },
      )

  -- A message that joins the mailbox is the last, if the flow was stable.
  pub joins_mailbox :
      (w w' : Worker E) (a : Addr) (m : Mailbox E) (e : E)
      → (s : Settled w a) → queue_at w.flows a ≡ none
      → queue_at w'.flows a ≡ none
      → find w'.book a ≡ some m
      → m.queue ≡ (s.box).queue ++ e ∷ []
      → m.is_closed ≡ false
      → w'.pushing ≡ w.pushing
      → (waiting w' a ≡ waiting w a ++ e ∷ []) × Settled w' a
  joins_mailbox w w' a m e s stable still books joined open_box pushers =
      let idle = s.idle_pusher stable in
      let idle' = ap (λ l. find l a) pushers ∙ idle in
      let before : waiting w a ≡ (s.box).queue ++ [] =
        ap (λ o. in_mailbox o ++ (held (find w.pushing a) ++ backlog (queue_at w.flows a))) s.known
        ∙ ap (λ o. (s.box).queue ++ (held o ++ backlog (queue_at w.flows a))) idle
        ∙ ap (λ o. (s.box).queue ++ backlog o) stable in
      let after : waiting w' a ≡ m.queue ++ [] =
        ap (λ o. in_mailbox o ++ (held (find w'.pushing a) ++ backlog (queue_at w'.flows a))) books
        ∙ ap (λ o. m.queue ++ (held o ++ backlog (queue_at w'.flows a))) idle'
        ∙ ap (λ o. m.queue ++ backlog o) still in
      (
        after
            ∙ append-nil m.queue
            ∙ joined
            ∙ ap (λ l. l ++ e ∷ []) (sym (before ∙ append-nil (s.box).queue)),
        record { box = m; known = books; open_box = open_box; idle_pusher = λ h. idle' },
      )

  pub wait_in_queue-order :
      (w : Worker E) (flow : RxFlow E) (a : Addr) (e : E) (routed : Bool) {w' : Worker E}
      → Settled w a
      → flow.flow.queue ≡ queue_at w.flows a
      → wait_in_queue w flow a e routed ≡ done w'
      → (waiting w' a ≡ waiting w a ++ e ∷ []) × Settled w' a
  unfolding wait_in_queue
  wait_in_queue-order w flow a e routed s same h =
      let (flow', e₁, e₂) = >>=-eq-done (acquire_direct flow (not routed)) _ h in
      let f = enqueue flow'.flow e routed in
      let x : Worker E = record w { flows = store w.flows a f } in
      let joined = ap queue_of (find-insert_self w.flows.map a f) in
      subst (λ (x : Worker E). (waiting x a ≡ waiting w a ++ e ∷ []) × Settled x a)
        (done_injective e₂)
        (joins_queue w x a flow'.flow e routed s (acquire_direct-queue flow (not routed) e₁ ∙ same)
          joined refl refl)

  -- What `finish_delivery` does when the message is sent, and when the mailbox is full.
  delivered-order :
      (w w₀ : Worker E) (a : Addr) (m : Mailbox E) (e : E) (routed : Bool) {w' : Worker E}
      → (s : Settled w a) → queue_at w.flows a ≡ none
      → w₀.flows ≡ w.flows
      → w₀.pushing ≡ w.pushing
      → find w₀.book a ≡ some m
      → m.queue ≡ (s.box).queue ++ e ∷ []
      → m.is_closed ≡ false
      → finish_delivery w₀ a e routed sent ≡ Run.done w'
      → (waiting w' a ≡ waiting w a ++ e ∷ []) × Settled w' a
  unfolding finish_delivery
  delivered-order w w₀ a m e routed {w' = w'} s stable flows pushers books joined open_box h =
      let (p, e₁, h₁) = >>=-eq-done (get_or_create_flow w₀.flows a) _ h in
      let (r, e₂, h₂) = >>=-eq-done (acquire_direct p.1 (not routed)) _ h₁ in
      let (q, e₃, h₃) = >>=-eq-done (release_direct r) _ h₂ in
      let x : Worker E = record w₀ { flows = store p.0 a q.0.flow } in
      let same = give_back-same x q.1 routed h₃ in
      let still : q.0.flow.queue ≡ none =
        release_direct-queue r e₃
        ∙ acquire_direct-queue p.1 (not routed) e₂
        ∙ get_or_create-queue w₀.flows a e₁
        ∙ ap (λ t. queue_at t a) flows
        ∙ stable in
      joins_mailbox w w' a m e s stable
        (ap (λ l. queue_of (find l a)) same.maps
          ∙ ap queue_of (find-insert_self (p.0).map a q.0.flow)
          ∙ still)
        (ap (λ l. find l a) same.books ∙ books) joined open_box (same.pushers ∙ pushers)

  full-order :
      (w w₀ : Worker E) (a : Addr) (e : E) (routed : Bool) {w' : Worker E}
      → Settled w a
      → w₀.flows ≡ w.flows
      → w₀.pushing ≡ w.pushing
      → find w₀.book a ≡ find w.book a
      → finish_delivery w₀ a e routed SendResult.full ≡ Run.done w'
      → (waiting w' a ≡ waiting w a ++ e ∷ []) × Settled w' a
  unfolding finish_delivery
  full-order w w₀ a e routed s flows pushers books h =
      let (p, e₁, h₁) = >>=-eq-done (get_or_create_flow w₀.flows a) _ h in
      let (r, e₂, h₂) = >>=-eq-done (acquire_direct p.1 (not routed)) _ h₁ in
      let f = enqueue r.flow e routed in
      let x : Worker E = record w₀ { flows = store p.0 a f; starting = w₀.starting ++ a ∷ [] } in
      subst (λ (x : Worker E). (waiting x a ≡ waiting w a ++ e ∷ []) × Settled x a)
        (done_injective h₂)
        (joins_queue w x a r.flow e routed s
          (acquire_direct-queue p.1 (not routed) e₂
            ∙ get_or_create-queue w₀.flows a e₁
            ∙ ap (λ t. queue_at t a) flows)
          (ap queue_of (find-insert_self (p.0).map a f)) books pushers)

  pub deliver-order :
      (w : Worker E) (a : Addr) (e : E) (routed : Bool) {w' : Worker E}
      → (s : Settled w a) → queue_at w.flows a ≡ none
      → deliver w a s.box e routed ≡ Run.done w'
      → (waiting w' a ≡ waiting w a ++ e ∷ []) × Settled w' a
  unfolding deliver
  deliver-order w a e routed s stable h =
      let m = (try_send s.box e).0 in
      let w₀ : Worker E = record w { book = insert w.book a m } in
      let boxed = find-insert_self w.book a m in
      elim (try_send-open s.box e s.open_box) [
        | inl (eq, joined, open_box) ↦
            delivered-order w w₀ a m e routed s stable refl refl boxed joined open_box (rw eq at h)
        | inr (eq, same) ↦
            full-order w w₀ a e routed s refl refl (boxed ∙ ap (λ x. some x) same ∙ sym s.known)
              (rw eq at h)
      ]
