-- ===== src/Core/Mailbox/Wakeups.antt =====
-- elfo-core/src/mailbox.rs: the consumer is woken for each message and for the close.
use elfo.Base.{
  ℕ, ◌+◌, ◌≡◌, refl, sym, subst, Bool, true, false, not, ◌&&◌, ◌||◌, List, [], ◌∷◌, arith, ltb,
}
use elfo.Core.Mailbox.{Mailbox, notify, enqueue, close_semaphore}
use elfo.Core.Mailbox.Steps.{
  Phase, idle, missed, unregistered, rechecking, rechecked, parked, closing, World, Step, acquires,
  exceeds, enqueues, notifies, closes, resizes, receives, misses, goes_on, registers, receives_late,
  misses_again, parks, resumes, sees_closed, sees_closed_late, drains, ends, Reach, start, next,
}
use elfo.Core.Mailbox.Changes.{try_acquire-keeps, dequeue-empty, set_capacity-keeps}

abbrev is_empty : {E : Type 0} → List E → Bool
is_empty [] = true
is_empty (e ∷ es) = false

-- Whether a consumer in a phase is woken, or will be for what it has missed.
abbrev alert_of : {E : Type 0} → Phase → Bool → Bool → List E → Bool → ℕ → Bool
alert_of rechecking woken registered queue is_closed n = woken || registered
alert_of rechecked woken registered queue is_closed n =
    woken || (registered && (is_empty queue || ltb 0 n))
alert_of parked woken registered queue is_closed n =
    woken || (registered && ((is_empty queue && not is_closed) || ltb 0 n))
alert_of other woken registered queue is_closed n = true

abbrev alert : {E : Type 0} → Phase → Mailbox E → ℕ → Bool
alert p m n = alert_of p m.woken m.registered m.queue m.is_closed n

-- Changes of a mailbox that leave a consumer alert.
alert-enqueue :
    {E : Type 0} (p : Phase) (m : Mailbox E) (n : ℕ) (e : E)
    → alert p m n ≡ true
    → alert p (enqueue m e) (n + 1) ≡ true
unfolding enqueue
alert-enqueue rechecking m n e h = h
alert-enqueue rechecked m n e h = ground arith
alert-enqueue parked m n e h = ground arith
alert-enqueue idle m n e h = refl
alert-enqueue missed m n e h = refl
alert-enqueue unregistered m n e h = refl
alert-enqueue closing m n e h = refl

alert-notify :
    {E : Type 0} (p : Phase) (m : Mailbox E) (n : ℕ)
    → alert p m (n + 1) ≡ true
    → alert p (notify m) n ≡ true
unfolding notify
alert-notify rechecking m n h = ground arith
alert-notify rechecked m n h = ground arith
alert-notify parked m n h = ground arith
alert-notify idle m n h = refl
alert-notify missed m n h = refl
alert-notify unregistered m n h = refl
alert-notify closing m n h = refl

alert-close :
    {E : Type 0} (p : Phase) (m : Mailbox E) (n trace_id : ℕ)
    → alert p m n ≡ true
    → alert p (close_semaphore m trace_id) (n + 1) ≡ true
unfolding close_semaphore
alert-close rechecking m n t h = h
alert-close rechecked m n t h = ground arith
alert-close parked m n t h = ground arith
alert-close idle m n t h = refl
alert-close missed m n t h = refl
alert-close unregistered m n t h = refl
alert-close closing m n t h = refl

empty_open :
    {E : Type 0} (registered is_closed : Bool) (queue : List E)
    → (registered && ((is_empty queue && not is_closed) || ltb 0 0)) ≡ true
    → (queue ≡ []) × (is_closed ≡ false)
empty_open registered is_closed [] h = (refl, ground arith)
empty_open registered is_closed (e ∷ q) h = absurd (ground arith)

module _ {E : Type 0} (max_permits : ℕ) where
  alert-Step :
      {w w' : World E}
      → Step max_permits w w'
      → alert w.phase w.mailbox w.notifying ≡ true
      → alert w'.phase w'.mailbox w'.notifying ≡ true
  alert-Step (acquires w h) a =
      let (k, e) = try_acquire-keeps w.mailbox h in
      subst (λ (m : Mailbox E). alert w.phase m w.notifying ≡ true) (sym e) a
  alert-Step (exceeds w h) a =
      let (k, e) = try_acquire-keeps w.mailbox h in
      subst (λ (m : Mailbox E). alert w.phase m w.notifying ≡ true) (sym e) a
  alert-Step (enqueues w n e h) a = alert-enqueue w.phase w.mailbox w.notifying e a
  alert-Step (notifies w n h) a =
      alert-notify w.phase w.mailbox n (subst (λ k. alert w.phase w.mailbox k ≡ true) h a)
  alert-Step (closes w t h) a = alert-close w.phase w.mailbox w.notifying t a
  alert-Step (resizes w c h) a =
      let (k, c', e, same) = set_capacity-keeps max_permits w.mailbox c h in
      subst (λ (m : Mailbox E). alert w.phase m w.notifying ≡ true) (sym e) a
  alert-Step (receives w h d room) a = rw h refl
  alert-Step (misses w h d) a = refl
  alert-Step (goes_on w h d) a = refl
  alert-Step (registers w h) a = ground arith
  alert-Step (receives_late w h d room) a = refl
  alert-Step (misses_again w h d) a =
      let none_left = dequeue-empty w.mailbox d in
      let before = rw h at a in ground (arith, none_left, before)
  alert-Step (parks w h o) a = let before = rw h at a in ground (arith, before)
  alert-Step (resumes w h k) a = refl
  alert-Step (sees_closed w h c) a = refl
  alert-Step (sees_closed_late w h c) a = refl
  alert-Step (drains w h d) a = refl
  alert-Step (ends w h d) a = refl

  alert-Reach :
      {capacity : ℕ} {w : World E}
      → Reach max_permits capacity w
      → alert w.phase w.mailbox w.notifying ≡ true
  alert-Reach start = refl
  alert-Reach (next r s) = alert-Step s (alert-Reach r)

  -- In every interleaving of senders, of calls that close or resize the mailbox, and of the
  -- consumer: when the poll of the consumer is pending, its task has not been woken, and no sender
  -- and no closer is between its change and its notification, then the queue is empty and the
  -- mailbox is not closed. So no wake-up is lost.
  pub consumer_is_woken :
      {capacity : ℕ} (w : World E)
      → Reach max_permits capacity w
      → w.phase ≡ parked
      → (w.mailbox).woken ≡ false
      → w.notifying ≡ 0
      → ((w.mailbox).queue ≡ []) × ((w.mailbox).is_closed ≡ false)
  consumer_is_woken w r p k n =
      let a = rw (p, k, n) at (alert-Reach r) in
      empty_open (w.mailbox).registered (w.mailbox).is_closed (w.mailbox).queue a
