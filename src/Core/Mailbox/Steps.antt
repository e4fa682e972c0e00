-- ===== src/Core/Mailbox/Steps.antt =====
-- elfo-core/src/mailbox.rs: any interleaving of senders, of calls that close or resize the mailbox,
-- and of the one consumer. A step is one atomic operation: a sender acquires, enqueues and notifies
-- in three steps, `close_inner` closes and notifies in two, and `recv` goes through its phases.
use elfo.Base.{ℕ, ◌+◌, ◌≤◌, ◌≡◌, true, false, none, some, List, [], ◌∷◌, ◌++◌, done}
use elfo.Core.Mailbox.{
  Mailbox, permit, no_permits, RecvResult, try_acquire, notify, enqueue, dequeue, close_semaphore,
  on_close, new, set_capacity,
}

pub data Phase : Type 0 where
  -- At the start of a poll of `recv`; after the first `dequeue` found nothing; before `register`.
  idle missed unregistered : Phase
  -- After `register`; after the second `dequeue` found nothing; when the poll is pending.
  rechecking rechecked parked : Phase
  -- In `on_close`.
  closing : Phase

pub record World (E : Type 0) : Type 0 where
  pub mailbox : Mailbox E
  -- The senders that are to enqueue, and the senders and closers that are to notify.
  pub in_flight : ℕ
  pub notifying : ℕ
  pub phase : Phase
  -- What was accepted and what was taken so far, and how often an unbounded send had no permit.
  pub accepted : List E
  pub taken : List E
  pub loaned : ℕ

module _ {E : Type 0} (max_permits : ℕ) where
  pub data Step : World E → World E → Type 0 where
    acquires :
        (w : World E) {m : Mailbox E}
        → try_acquire w.mailbox ≡ (m, permit)
        → Step w (record w { mailbox = m; in_flight = w.in_flight + 1 })
    exceeds :
        (w : World E) {m : Mailbox E}
        → try_acquire w.mailbox ≡ (m, no_permits)
        → Step w (record w { mailbox = m; in_flight = w.in_flight + 1; loaned = w.loaned + 1 })
    enqueues :
        (w : World E) (n : ℕ) (e : E)
        → w.in_flight ≡ n + 1
        → Step w (record w {
          mailbox = enqueue w.mailbox e;
          in_flight = n;
          notifying = w.notifying + 1;
          accepted = w.accepted ++ e ∷ [];
        })
    notifies :
        (w : World E) (n : ℕ)
        → w.notifying ≡ n + 1
        → Step w (record w { mailbox = notify w.mailbox; notifying = n })
    closes :
        (w : World E) (trace_id : ℕ)
        → (w.mailbox).is_closed ≡ false
        → Step w
            (record w { mailbox = close_semaphore w.mailbox trace_id; notifying = w.notifying + 1 })
    resizes :
        (w : World E) (capacity : ℕ) {m : Mailbox E}
        → set_capacity max_permits w.mailbox capacity ≡ done m
        → Step w (record w { mailbox = m })
    receives :
        (w : World E) {m : Mailbox E} {e : E}
        → w.phase ≡ idle
        → dequeue w.mailbox ≡ (m, some e)
        → m.permits + 1 ≤ max_permits
        → Step w
            (record w { mailbox = record m { permits = m.permits + 1 }; taken = w.taken ++ e ∷ [] })
    misses :
        (w : World E)
        → w.phase ≡ idle
        → (dequeue w.mailbox).1 ≡ none
        → Step w (record w { phase = missed })
    goes_on :
        (w : World E)
        → w.phase ≡ missed
        → (w.mailbox).is_closed ≡ false
        → Step w (record w { phase = unregistered })
    registers :
        (w : World E)
        → w.phase ≡ unregistered
        → Step w
            (record w { mailbox = record (w.mailbox) { registered = true }; phase = rechecking })
    receives_late :
        (w : World E) {m : Mailbox E} {e : E}
        → w.phase ≡ rechecking
        → dequeue w.mailbox ≡ (m, some e)
        → m.permits + 1 ≤ max_permits
        → Step w (record w {
          mailbox = record m { permits = m.permits + 1; registered = false };
          phase = idle;
          taken = w.taken ++ e ∷ [];
        })
    misses_again :
        (w : World E)
        → w.phase ≡ rechecking
        → (dequeue w.mailbox).1 ≡ none
        → Step w (record w { phase = rechecked })
    parks :
        (w : World E)
        → w.phase ≡ rechecked
        → (w.mailbox).is_closed ≡ false
        → Step w (record w { phase = parked })
    resumes :
        (w : World E)
        → w.phase ≡ parked
        → (w.mailbox).woken ≡ true
        → Step w (record w { mailbox = record (w.mailbox) { woken = false }; phase = idle })
    sees_closed :
        (w : World E)
        → w.phase ≡ missed
        → (w.mailbox).is_closed ≡ true
        → Step w (record w { phase = closing })
    sees_closed_late :
        (w : World E)
        → w.phase ≡ rechecked
        → (w.mailbox).is_closed ≡ true
        → Step w (record w { mailbox = record (w.mailbox) { registered = false }; phase = closing })
    drains :
        (w : World E) {m : Mailbox E} {e : E}
        → w.phase ≡ closing
        → on_close w.mailbox ≡ done (m, RecvResult.received e)
        → Step w (record w { mailbox = m; phase = idle; taken = w.taken ++ e ∷ [] })
    ends :
        (w : World E) {m : Mailbox E} {trace_id : ℕ}
        → w.phase ≡ closing
        → on_close w.mailbox ≡ done (m, RecvResult.closed trace_id)
        → Step w (record w { mailbox = m; phase = idle })

  abbrev pub initial : ℕ → World E
  initial capacity = record {
    mailbox = new max_permits capacity;
    in_flight = 0;
    notifying = 0;
    phase = idle;
    accepted = [];
    taken = [];
    loaned = 0;
  }

  pub data Reach (capacity : ℕ) : World E → Type 0 where
    start : Reach capacity (initial capacity)
    next : {w w' : World E} → Reach capacity w → Step w w' → Reach capacity w'
