-- ===== src/Core/Mailbox.antt =====
-- elfo-core/src/mailbox.rs. An envelope is an opaque type and the intrusive queue a list. The
-- semaphore of tokio is its permits and whether it is closed, the waker whether it is registered
-- and whether it has woken its task. `Semaphore::MAX_PERMITS` is a parameter.
use elfo.Base.{
  ℕ, ◌+◌, ◌-◌, min, Bool, true, false, ◌||◌, Option, none, some, List, [], ◌∷◌, ◌++◌, ltb, ◌==◌,
  if◌then◌else◌, Run, done, panic, ◌>>=◌,
}
pub mod Steps
pub mod Changes
pub mod Wakeups
pub mod Delivery

pub data ConsumerSlot : Type 0 where
  vacant : ConsumerSlot
  -- With `drain_on_drop`.
  occupied : Bool → ConsumerSlot

pub record Mailbox (E : Type 0) : Type 0 where
  pub queue : List E
  pub permits : ℕ
  pub is_closed : Bool
  pub registered : Bool
  pub woken : Bool
  pub closed_trace_id : Option ℕ
  pub capacity : ℕ
  pub consumer : ConsumerSlot

pub data TryAcquire : Type 0 where
  permit no_permits closed : TryAcquire

-- What a sender gets: the message is taken, or it is given back.
pub data SendResult : Type 0 where
  sent full closed : SendResult

pub data RecvResult (E : Type 0) : Type 0 where
  received : E → RecvResult E
  closed : ℕ → RecvResult E

module _ {E : Type 0} where
  -- `Semaphore::try_acquire`, when the permit is forgotten.
  unfoldable pub try_acquire : Mailbox E → Mailbox E × TryAcquire
  try_acquire m =
      if m.is_closed
      then (m, TryAcquire.closed)
      else (if m.permits == 0
          then (m, no_permits)
          else (record m { permits = m.permits - 1 }, permit))

  -- `DiatomicWaker::notify`: a registered waker wakes its task and is registered no more.
  unfoldable pub notify : Mailbox E → Mailbox E
  notify m = record m { registered = false; woken = m.registered || m.woken }

  unfoldable pub enqueue : Mailbox E → E → Mailbox E
  enqueue m e = record m { queue = m.queue ++ e ∷ [] }

  abbrev pub dequeue_from : Mailbox E → List E → Mailbox E × Option E
  dequeue_from m [] = (m, none)
  dequeue_from m (e ∷ q) = (record m { queue = q }, some e)

  unfoldable pub dequeue : Mailbox E → Mailbox E × Option E
  unfolding dequeue_from
  dequeue m = dequeue_from m m.queue

  -- The end of `try_send`, from the result of `try_acquire`. `send` is the same but for `full`,
  -- where it waits for a permit.
  abbrev pub finish_send : Mailbox E × TryAcquire → E → Mailbox E × SendResult
  finish_send (m, permit) e = (notify (enqueue m e), sent)
  finish_send (m, no_permits) e = (m, full)
  finish_send (m, TryAcquire.closed) e = (m, SendResult.closed)

  unfoldable pub try_send : Mailbox E → E → Mailbox E × SendResult
  try_send m e = finish_send (try_acquire m) e

  abbrev finish_unbounded : Mailbox E × TryAcquire → E → Mailbox E × SendResult
  finish_unbounded (m, TryAcquire.closed) e = (m, SendResult.closed)
  finish_unbounded (m, other) e = (notify (enqueue m e), sent)

  unfoldable pub unbounded_send : Mailbox E → E → Mailbox E × SendResult
  unbounded_send m e = finish_unbounded (try_acquire m) e

  -- `close_inner` before it notifies.
  unfoldable pub close_semaphore : Mailbox E → ℕ → Mailbox E
  close_semaphore m trace_id = record m { closed_trace_id = some trace_id; is_closed = true }

  unfoldable pub close : Mailbox E → ℕ → Mailbox E × Bool
  close m trace_id = if m.is_closed then (m, false) else (notify (close_semaphore m trace_id), true)

  unfoldable pub close_and_try_drain : Mailbox E → ℕ → Mailbox E × Bool
  close_and_try_drain m trace_id =
      let m' = (close m trace_id).0 in
      elim m'.consumer [
        | vacant ↦ (record m' { queue = [] }, true)
        | occupied drain ↦ (record m' { consumer = occupied true }, false)
      ]

  -- `MailboxConsumer::new`, with its assertion.
  unfoldable pub attach : Mailbox E → Run (Mailbox E)
  attach m = elim m.consumer [
    | vacant ↦ done (record m { consumer = occupied false })
    | occupied drain ↦ panic
  ]

  -- `MailboxConsumer::drop`.
  unfoldable pub detach : Mailbox E → Mailbox E
  detach m = elim m.consumer [
    | vacant ↦ record m { consumer = vacant }
    | occupied drain ↦ record m { consumer = vacant; queue = (if drain then [] else m.queue) }
  ]

  abbrev pub or_trace_id : Mailbox E → Option ℕ → Run (Mailbox E × RecvResult E)
  or_trace_id m none = panic
  or_trace_id m (some t) = done (m, RecvResult.closed t)

  abbrev pub finish_close : Mailbox E × Option E → Run (Mailbox E × RecvResult E)
  finish_close (m, some e) = done (m, received e)
  finish_close (m, none) = or_trace_id m m.closed_trace_id

  unfoldable pub on_close : Mailbox E → Run (Mailbox E × RecvResult E)
  on_close m = finish_close (dequeue m)

unfoldable pub clamp_capacity : ℕ → ℕ → ℕ
clamp_capacity max_permits capacity = min capacity max_permits

module _ {E : Type 0} (max_permits : ℕ) where
  -- `Semaphore::add_permits`, which panics beyond the largest number of permits.
  abbrev pub add_permits : Mailbox E → ℕ → Run (Mailbox E)
  add_permits m n =
      if ltb max_permits (m.permits + n) then panic else done (record m { permits = m.permits + n })

  abbrev pub finish_recv : Mailbox E × Option E → Run (Mailbox E × Option (RecvResult E))
  finish_recv (m, some e) = add_permits m 1 >>= (λ m'. done (m', some (received e)))
  finish_recv (m, none) =
      if m.is_closed then (do (m', r) ← on_close m; done (m', some r)) else done (m, none)

  unfoldable pub try_recv : Mailbox E → Run (Mailbox E × Option (RecvResult E))
  try_recv m = finish_recv (dequeue m)

  unfoldable pub new : ℕ → Mailbox E
  new capacity = record {
    queue = [];
    permits = clamp_capacity max_permits capacity;
    is_closed = false;
    registered = false;
    woken = false;
    closed_trace_id = none;
    capacity = clamp_capacity max_permits capacity;
    consumer = vacant;
  }

  -- The permits that are in use cannot be forgotten; a subtraction below zero is a panic.
  unfoldable pub set_capacity : Mailbox E → ℕ → Run (Mailbox E)
  set_capacity m capacity =
      if capacity == m.capacity
      then done m
      else (if ltb capacity m.capacity
          then (let real_delta = min (m.capacity - capacity) m.permits in
              done
                (record m { permits = m.permits - real_delta; capacity = m.capacity - real_delta }))
          else (if ltb (clamp_capacity max_permits capacity) m.capacity
              then panic
              else (let real_delta = clamp_capacity max_permits capacity - m.capacity in
                  add_permits m real_delta
                  >>= (λ m'. done (record m' { capacity = m.capacity + real_delta })))))
