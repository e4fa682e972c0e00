-- ===== src/Network/Worker/Pushing.antt =====
-- elfo-network/src/worker/mod.rs: the steps of the reader, of the pusher and of the actor for the
-- messages of one actor, in any interleaving. Other actors have other flows, pushers and mailboxes.
use elfo.Core.Mailbox.Changes.{try_send-open}
use elfo.Network.Worker.Delivery.{waiting-same, Settled-same}
use elfo.Base.{
  ℕ, ◌≡◌, refl, sym, ap, subst, ◌∙◌, inl, inr, Bool, true, false, Option, none, some, List, [], ◌∷◌,
  ◌++◌, append_assoc, arith, done, >>=-eq-done, done_injective,
}
use elfo.Base.Assoc.{find, delete, insert, find-delete}
use elfo.Core.Addr.{Addr}
use elfo.Network.RxFlows.{
  RxFlowData, RxFlows, RxFlow, store, get_flow, release_direct, pop_front, dequeue_flow, dequeue,
}
use elfo.Network.Worker.{Worker, take_next, pusher_next, pushed, push_to, push}
use elfo.Network.Worker.Changes.{
  find-insert_self, queue_of, queue_at, release_direct-queue, give_back-same,
}
use elfo.Network.Worker.Order.{backlog, waiting_of, waiting, Settled}
use elfo.Core.Mailbox.{Mailbox, SendResult, sent, try_send}

find-delete_self : {A : Type 0} (m : List (ℕ × A)) (k : ℕ) → find (delete m k) k ≡ none
find-delete_self m k = let e = find-delete m k k in ground (arith, e)

module _ {E : Type 0} where
  -- `waiting` from what is found at the address.
  waiting_is :
      (w : Worker E) (a : Addr) {m : Option (Mailbox E)} {p : Option (E × Bool)}
      {q : Option (List (E × Bool))}
      → find w.book a ≡ m
      → find w.pushing a ≡ p
      → queue_at w.flows a ≡ q
      → waiting w a ≡ waiting_of m p q
  waiting_is w a {m = m} {p = p} em ep eq =
      ap (λ o. waiting_of o (find w.pushing a) (queue_at w.flows a)) em
      ∙ ap (λ o. waiting_of m o (queue_at w.flows a)) ep
      ∙ ap (λ o. waiting_of m p o) eq

  dequeue-found :
      (t : RxFlows E) (a : Addr) (f : RxFlowData E) (q : Option (List (E × Bool)))
      → find t.map a ≡ some f
      → f.queue ≡ q
      → dequeue t a ≡ (store t a (pop_front f q).0, (pop_front f q).1)
  unfolding dequeue dequeue_flow
  dequeue-found t a f q found e = rw (found, dequeue) (rw (e, dequeue_flow) refl)

  dequeue-none : (t : RxFlows E) (a : Addr) → find t.map a ≡ none → dequeue t a ≡ (t, none)
  unfolding dequeue
  dequeue-none t a h = rw (h, dequeue) refl

  -- A pusher that holds nothing takes the first message of the queue, or finds the queue empty.
  pub pusher_next-order :
      (w : Worker E) (a : Addr)
      → Settled w a
      → find w.pushing a ≡ none
      → (waiting (pusher_next w a).0 a ≡ waiting w a) × Settled (pusher_next w a).0 a
  unfolding pusher_next
  pusher_next-order w a s idle = of_find (find w.flows.map a) refl
    where
      Kept : Worker E → Type 0
      Kept x = (waiting x a ≡ waiting w a) × Settled x a

      of_queue :
          (f : RxFlowData E) (q : Option (List (E × Bool)))
          → find w.flows.map a ≡ some f
          → f.queue ≡ q
          → Kept (pusher_next w a).0
      of_queue f none found e =
          let y : Worker E = record w { flows = store w.flows a f } in
          let eq : pusher_next w a ≡ (y, false) =
            ap (take_next w a) (dequeue-found w.flows a f _ found e) in
          let at_a : queue_at y.flows a ≡ none =
            ap queue_of (find-insert_self w.flows.map a f) ∙ e in
          subst Kept (sym (ap (λ r. r.0) eq)) (
            waiting_is y a s.known idle at_a
                ∙ sym (waiting_is w a s.known idle (ap queue_of found ∙ e)),
            record { box = s.box; known = s.known; open_box = s.open_box; idle_pusher = λ h. idle },
          )
      of_queue f (some []) found e =
          let g : RxFlowData E = record f { queue = none } in
          let y : Worker E = record w { flows = store w.flows a g } in
          let eq : pusher_next w a ≡ (y, false) =
            ap (take_next w a) (dequeue-found w.flows a f _ found e) in
          let at_a : queue_at y.flows a ≡ none = ap queue_of (find-insert_self w.flows.map a g) in
          subst Kept (sym (ap (λ r. r.0) eq)) (
            waiting_is y a s.known idle at_a
                ∙ sym (waiting_is w a s.known idle (ap queue_of found ∙ e)),
            record { box = s.box; known = s.known; open_box = s.open_box; idle_pusher = λ h. idle },
          )
      of_queue f (some (p ∷ ps)) found e =
          let g : RxFlowData E = (pop_front f (some (p ∷ ps))).0 in
          let y : Worker E = record w {
            flows = store w.flows a g;
            pushing = insert w.pushing a p;
          } in
          let eq : pusher_next w a ≡ (y, true) =
            ap (take_next w a) (dequeue-found w.flows a f _ found e) in
          let at_a : queue_at y.flows a ≡ some ps =
            ap queue_of (find-insert_self w.flows.map a g) in
          subst Kept (sym (ap (λ r. r.0) eq)) (
            waiting_is y a s.known (find-insert_self w.pushing a p) at_a
                ∙ sym (waiting_is w a s.known idle (ap queue_of found ∙ e)),
            record {
              box = s.box;
              known = s.known;
              open_box = s.open_box;
              idle_pusher = λ h. absurd (let no = sym at_a ∙ h in cc);
            },
          )

      of_find : (o : Option (RxFlowData E)) → find w.flows.map a ≡ o → Kept (pusher_next w a).0
      of_find none h =
          let eq : pusher_next w a ≡ (w, false) = ap (take_next w a) (dequeue-none w.flows a h) in
          subst Kept (sym (ap (λ r. r.0) eq)) (refl, s)
      of_find (some f) h = of_queue f f.queue h refl

  get_flow-found :
      (t : RxFlows E) (a : Addr) (f : RxFlowData E)
      → find t.map a ≡ some f
      → get_flow t a ≡ some (record { node = t.node_no; addr = a; flow = f })
  unfolding get_flow
  get_flow-found t a f h = rw (h, get_flow) refl

  -- The end of a push whose message is in the mailbox.
  pushed-order :
      (w : Worker E) (a : Addr) (e : E) (routed : Bool) (m : Mailbox E) (f : RxFlowData E)
      {w' : Worker E}
      → (s : Settled w a) → find w.pushing a ≡ some (e, routed)
      → find w.flows.map a ≡ some f
      → m.queue ≡ (s.box).queue ++ e ∷ []
      → m.is_closed ≡ false
      → pushed (record w { book = insert w.book a m; pushing = delete w.pushing a }) a routed
        ≡ done w'
      → (waiting w' a ≡ waiting w a) × Settled w' a
  unfolding pushed
  pushed-order w a e routed m f {w' = w'} s holds found joined open_box h =
      let w₁ : Worker E = record w { book = insert w.book a m; pushing = delete w.pushing a } in
      let flow : RxFlow E = record { node = w.flows.node_no; addr = a; flow = f } in
      let h₁ = rw (get_flow-found w.flows a f found, pushed) at h in
      let (q, e₁, h₂) = >>=-eq-done (release_direct flow) _ h₁ in
      let x : Worker E = record w₁ { flows = store w.flows a q.0.flow } in
      let same = give_back-same x q.1 routed h₂ in
      let idle : find x.pushing a ≡ none = find-delete_self w.pushing a in
      let boxed : find x.book a ≡ some m = find-insert_self w.book a m in
      let kept : queue_at x.flows a ≡ f.queue =
        ap queue_of (find-insert_self w.flows.map a q.0.flow) ∙ release_direct-queue flow e₁ in
      let t : Settled x a = record {
        box = m;
        known = boxed;
        open_box = open_box;
        idle_pusher = λ h. idle;
      } in
      (
        waiting-same x w' a same
            ∙ waiting_is x a boxed idle kept
            ∙ ap (λ l. l ++ backlog f.queue) joined
            ∙ append_assoc (s.box).queue (e ∷ []) (backlog f.queue)
            ∙ sym (waiting_is w a s.known holds (ap queue_of found)),
        Settled-same x w' a same t,
      )

  -- A push of the message that the pusher holds sends it to the mailbox, or leaves it where it is.
  pub push-order :
      (w : Worker E) (a : Addr) (e : E) (routed : Bool) {w' : Worker E}
      → Settled w a
      → find w.pushing a ≡ some (e, routed)
      → push w a e routed ≡ done w'
      → (waiting w' a ≡ waiting w a) × Settled w' a
  unfolding push push_to
  push-order w a e routed {w' = w'} s holds h = of_find (find w.flows.map a) refl
    where
      h₁ : push_to w a e routed (try_send s.box e) ≡ done w'
      h₁ = rw (s.known, push) at h

      with_result :
          (r : SendResult)
          → (try_send s.box e).1 ≡ r
          → push_to w a e routed ((try_send s.box e).0, r) ≡ done w'
      with_result r eq =
          subst (λ (x : SendResult). push_to w a e routed ((try_send s.box e).0, x) ≡ done w') eq h₁

      of_find :
          (o : Option (RxFlowData E))
          → find w.flows.map a ≡ o
          → (waiting w' a ≡ waiting w a) × Settled w' a
      of_find none found = absurd (let no = sym holds ∙ s.idle_pusher (ap queue_of found) in cc)
      of_find (some f) found = elim (try_send-open s.box e s.open_box) [
        | inl (eq, joined, open_box) ↦
            pushed-order w a e routed (try_send s.box e).0 f s holds found joined open_box
              (with_result sent eq)
        | inr (eq, same) ↦
            subst (λ (x : Worker E). (waiting x a ≡ waiting w a) × Settled x a)
              (done_injective (with_result SendResult.full eq)) (refl, s)
      ]
