-- ===== src/Core/MailboxExamples.antt =====
-- The theorems about the mailbox at concrete runs.
use elfo.Base.{arith, ℕ, ◌+◌, ◌≤◌, ◌≡◌, refl, true, false, Option, List, [], ◌∷◌, ◌++◌, done}
use elfo.Core.Mailbox.{
  Mailbox, RecvResult, try_acquire, enqueue, dequeue, try_recv, clamp_capacity, new, set_capacity,
}
use elfo.Core.Mailbox.Steps.{
  parked, World, acquires, enqueues, receives, misses, goes_on, registers, misses_again, parks,
  initial, Reach, start, next,
}
use elfo.Core.Mailbox.Wakeups.{consumer_is_woken}
use elfo.Core.Mailbox.Delivery.{mailbox_accounts, mailbox_no_panic}

abbrev empty : World ℕ
empty = initial 10 2

-- A message that is sent to an empty mailbox of two places, and received.
one_received : Reach 10 2 (record empty {
  mailbox = record (empty.mailbox) { permits = 2 };
  notifying = 1;
  taken = 7 ∷ [];
  accepted = 7 ∷ [];
})
unfolding try_acquire enqueue dequeue new clamp_capacity
one_received =
    next (next (next start (acquires empty refl)) (enqueues _ 0 7 refl))
      (receives _ refl refl (omega arith))

-- A consumer that waits.
waiting :
    Reach 10 2
      (record empty { mailbox = record (empty.mailbox) { registered = true }; phase = parked })
unfolding dequeue new clamp_capacity
waiting =
    next
      (next
        (next (next (next start (misses empty refl refl)) (goes_on _ refl refl)) (registers _ refl))
        (misses_again _ refl refl))
      (parks _ refl refl)

consumer_is_woken_example : ((empty.mailbox).queue ≡ []) × (false ≡ false)
unfolding new
consumer_is_woken_example = consumer_is_woken 10 _ waiting refl refl refl

abbrev seven : List ℕ
seven = 7 ∷ []

mailbox_accounts_example : (seven ++ [] ≡ seven) × (false ≡ false → 2 + 0 + 0 ≡ 2 + 0) × (2 ≤ 10)
unfolding new clamp_capacity
mailbox_accounts_example = mailbox_accounts 10 _ one_received

mailbox_no_panic_example :
    ((m : Mailbox ℕ) × (r : Option (RecvResult ℕ)) × (try_recv 10 (empty.mailbox) ≡ done (m, r)))
    × ((m : Mailbox ℕ) × (set_capacity 10 (empty.mailbox) 20 ≡ done m))
unfolding new clamp_capacity
mailbox_no_panic_example =
    mailbox_no_panic 10 {capacity = 2} empty 20 start (omega arith) (omega arith)
