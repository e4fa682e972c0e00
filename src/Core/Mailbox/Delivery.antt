-- ===== src/Core/Mailbox/Delivery.antt =====
-- elfo-core/src/mailbox.rs: the order of messages, the permits and the capacity.
use elfo.Core.Mailbox.Changes.{
  try_acquire-keeps, set_capacity-keeps, set_capacity-limited, try_acquire-permit, try_acquire-none,
  dequeue-some, on_close-received, on_close-closed, set_capacity-done, try_recv-done,
}
use elfo.Core.Mailbox.{
  Mailbox, RecvResult, notify, enqueue, dequeue, close_semaphore, try_recv, clamp_capacity, new,
  set_capacity,
}
use elfo.Base.{
  ℕ, ◌+◌, ◌≤◌, ◌≡◌, refl, sym, ap, subst, ◌∙◌, Bool, true, false, Option, some, List, [], ◌∷◌, ◌++◌,
  append_assoc, arith, length, length-append, done, returns_value,
}
use elfo.Core.Mailbox.Steps.{
  idle, closing, World, Step, acquires, exceeds, enqueues, notifies, closes, resizes, receives,
  misses, goes_on, registers, receives_late, misses_again, parks, resumes, sees_closed,
  sees_closed_late, drains, ends, Reach, start, next,
}

module _ {E : Type 0} (max_permits : ℕ) where
  -- The parts of a mailbox, of its senders and of its consumer that belong together.
  pub record Account (queue : List E) (permits capacity : ℕ) (is_closed : Bool)
      (closed_trace_id : Option ℕ) (in_flight loaned : ℕ) (taken accepted : List E) : Type 0 where
    pub in_order : taken ++ queue ≡ accepted
    pub counted : is_closed ≡ false → permits + in_flight + length queue ≡ capacity + loaned
    pub bounded : permits + in_flight + length queue ≤ capacity + loaned
    pub limited : capacity ≤ max_permits
    pub traced : is_closed ≡ true → (t : ℕ) × (closed_trace_id ≡ some t)

  pub record Inv (w : World E) : Type 0 where
    pub account :
        Account
          (w.mailbox).queue
          (w.mailbox).permits
          (w.mailbox).capacity
          (w.mailbox).is_closed
          (w.mailbox).closed_trace_id
          w.in_flight
          w.loaned
          w.taken
          w.accepted
    pub shutting : w.phase ≡ closing → (w.mailbox).is_closed ≡ true

  -- A message moves from the queue to what was taken, and its permit is given back.
  taken-Account :
      (w : World E) {m : Mailbox E} {e : E}
      → Inv w
      → dequeue w.mailbox ≡ (m, some e)
      → Account m.queue
          (m.permits + 1)
          m.capacity
          m.is_closed
          m.closed_trace_id
          w.in_flight
          w.loaned
          (w.taken ++ e ∷ [])
          w.accepted
  taken-Account w {m = m} {e = e} i d =
      let (same, front) = dequeue-some w.mailbox d in
      let a = i.account in
      let shorter = ap length front in
      subst
        (λ (n : Mailbox E).
          Account n.queue (n.permits + 1) n.capacity n.is_closed n.closed_trace_id w.in_flight
            w.loaned (w.taken ++ e ∷ []) w.accepted)
        (sym same)
        (record {
          in_order =
              append_assoc w.taken (e ∷ []) m.queue
              ∙ ap (λ q. w.taken ++ q) (sym front)
              ∙ a.in_order;
          counted = λ o. omega (arith, a.counted o, shorter);
          bounded = omega (arith, a.bounded, shorter);
          limited = a.limited;
          traced = a.traced;
        })

  Inv-Step : {w w' : World E} → Step max_permits w w' → Inv w → Inv w'
  unfolding enqueue notify close_semaphore
  Inv-Step (acquires w h) i =
      let (k, same) = try_acquire-keeps w.mailbox h in
      let used = try_acquire-permit w.mailbox h in
      let a = i.account in
      let used' = ap (λ (n : Mailbox E). n.permits) same in
      subst (λ (n : Mailbox E). Inv (record w { mailbox = n; in_flight = w.in_flight + 1 }))
        (sym same)
        (record {
          account = record {
            in_order = a.in_order;
            counted = λ o. omega (arith, a.counted o, used, used');
            bounded = omega (arith, a.bounded, used, used');
            limited = a.limited;
            traced = a.traced;
          };
          shutting = i.shutting;
        })
  Inv-Step (exceeds w h) i =
      let a = i.account in
      subst
        (λ (n : Mailbox E).
          Inv (record w { mailbox = n; in_flight = w.in_flight + 1; loaned = w.loaned + 1 }))
        (sym (try_acquire-none w.mailbox h))
        (record {
          account = record {
            in_order = a.in_order;
            counted = λ o. omega (arith, a.counted o);
            bounded = omega (arith, a.bounded);
            limited = a.limited;
            traced = a.traced;
          };
          shutting = i.shutting;
        })
  Inv-Step (enqueues w n e h) i =
      let a = i.account in
      let longer = length-append (w.mailbox).queue (e ∷ []) in
      record {
        account = record {
          in_order =
              sym (append_assoc w.taken (w.mailbox).queue (e ∷ []))
              ∙ ap (λ q. q ++ e ∷ []) a.in_order;
          counted = λ o. omega (arith, a.counted o, h, longer);
          bounded = omega (arith, a.bounded, h, longer);
          limited = a.limited;
          traced = a.traced;
        };
        shutting = i.shutting;
      }
  Inv-Step (notifies w n h) i = record { account = i.account; shutting = i.shutting }
  Inv-Step (closes w t h) i =
      let a = i.account in
      record {
        account = record {
          in_order = a.in_order;
          counted = λ o. absurd cc;
          bounded = a.bounded;
          limited = a.limited;
          traced = λ c. (t, refl);
        };
        shutting = λ p. refl;
      }
  Inv-Step (resizes w c h) i =
      let (k, c', same, balanced) = set_capacity-keeps max_permits w.mailbox c h in
      let a = i.account in
      let room = set_capacity-limited max_permits w.mailbox c h a.limited in
      let room' = ap (λ (n : Mailbox E). n.capacity) same in
      subst (λ (n : Mailbox E). Inv (record w { mailbox = n })) (sym same)
        (record {
          account = record {
            in_order = a.in_order;
            counted = λ o. omega (arith, a.counted o, balanced);
            bounded = omega (arith, a.bounded, balanced);
            limited = omega (arith, room, room');
            traced = a.traced;
          };
          shutting = i.shutting;
        })
  Inv-Step (receives w h d room) i = record {
    account = taken-Account w i d;
    shutting = λ p. absurd cc;
  }
  Inv-Step (misses w h d) i = record { account = i.account; shutting = λ p. absurd cc }
  Inv-Step (goes_on w h d) i = record { account = i.account; shutting = λ p. absurd cc }
  Inv-Step (registers w h) i = record { account = i.account; shutting = λ p. absurd cc }
  Inv-Step (receives_late w h d room) i = record {
    account = taken-Account w i d;
    shutting = λ p. absurd cc;
  }
  Inv-Step (misses_again w h d) i = record { account = i.account; shutting = λ p. absurd cc }
  Inv-Step (parks w h o) i = record { account = i.account; shutting = λ p. absurd cc }
  Inv-Step (resumes w h k) i = record { account = i.account; shutting = λ p. absurd cc }
  Inv-Step (sees_closed w h c) i = record { account = i.account; shutting = λ p. c }
  Inv-Step (sees_closed_late w h c) i = record { account = i.account; shutting = λ p. c }
  Inv-Step (drains w {m = m} {e = e} h d) i =
      let (same, front) = dequeue-some w.mailbox (on_close-received w.mailbox d) in
      let a = i.account in
      let shut = i.shutting h in
      subst
        (λ (n : Mailbox E). Inv (record w { mailbox = n; phase = idle; taken = w.taken ++ e ∷ [] }))
        (sym same)
        (record {
          account = record {
            in_order =
                append_assoc w.taken (e ∷ []) m.queue
                ∙ ap (λ q. w.taken ++ q) (sym front)
                ∙ a.in_order;
            counted = λ o. absurd cc;
            bounded = (let shorter = ap length front in omega (arith, a.bounded, shorter));
            limited = a.limited;
            traced = a.traced;
          };
          shutting = λ p. absurd cc;
        })
  Inv-Step (ends w h d) i =
      subst (λ (n : Mailbox E). Inv (record w { mailbox = n; phase = idle }))
        (sym (on_close-closed w.mailbox d))
        (record { account = i.account; shutting = λ p. absurd cc })

  Inv-Reach : {capacity : ℕ} {w : World E} → Reach max_permits capacity w → Inv w
  unfolding new clamp_capacity
  Inv-Reach (start) = record {
    account = record {
      in_order = refl;
      counted = λ o. omega arith;
      bounded = omega arith;
      limited = omega arith;
      traced = λ c. absurd cc;
    };
    shutting = λ p. absurd cc;
  }
  Inv-Reach (next r s) = Inv-Step s (Inv-Reach r)

  -- In every interleaving of senders, closers, calls of `set_capacity` and the calls of `recv` of a
  -- consumer that stays attached, without `close_and_try_drain`: what the consumer has received and
  -- what is in the queue is together what was enqueued, in that order. While the mailbox is open, no permit is lost: the free permits, the
  -- senders that are to enqueue and the queue make up the capacity and what unbounded sends have
  -- exceeded it by. The capacity does not exceed the permits that a semaphore may have.
  pub mailbox_accounts :
      {capacity : ℕ} (w : World E)
      → Reach max_permits capacity w
      → (w.taken ++ (w.mailbox).queue ≡ w.accepted)
        × ((w.mailbox).is_closed ≡ false
            → (w.mailbox).permits + w.in_flight + length (w.mailbox).queue
              ≡ (w.mailbox).capacity + w.loaned)
        × ((w.mailbox).capacity ≤ max_permits)
  mailbox_accounts w r = let a = (Inv-Reach r).account in (a.in_order, a.counted, a.limited)

  -- In every interleaving of senders, closers, calls of `set_capacity` and the calls of `recv` of a
  -- consumer that stays attached, a call of `try_recv` and one of `set_capacity` do not panic: a closed mailbox has the trace id that `on_close` expects, no capacity is raised below
  -- itself, and no more permits are added than a semaphore may have. The capacity before
  -- the call, and the one asked for, cut to the largest number of permits, must each not exceed that
  -- number when the unbounded sends that have found no permit are added.
  pub mailbox_no_panic :
      {capacity : ℕ} (w : World E) (new_capacity : ℕ)
      → Reach max_permits capacity w
      → (w.mailbox).capacity + w.loaned ≤ max_permits
      → clamp_capacity max_permits new_capacity + w.loaned ≤ max_permits
      → ((m : Mailbox E) × (r : Option (RecvResult E)) × (try_recv max_permits w.mailbox
            ≡ done (m, r)))
        × ((m : Mailbox E) × (set_capacity max_permits w.mailbox new_capacity ≡ done m))
  mailbox_no_panic w c r small small' =
      let a = (Inv-Reach r).account in
      let received = try_recv-done max_permits w.mailbox (omega (arith, a.bounded)) a.traced in
      let (p, recv) = returns_value (try_recv max_permits w.mailbox) received in
      let resized =
        set_capacity-done max_permits w.mailbox c a.limited (omega (arith, a.bounded)) in
      ((p.0, p.1, recv), returns_value (set_capacity max_permits w.mailbox c) resized)
