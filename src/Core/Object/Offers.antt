-- ===== src/Core/Object/Offers.antt =====
-- elfo-core/src/object.rs: a message that is offered to actors, one after the other.
use elfo.Base.{
  ℕ, ◌≡◌, refl, Bool, true, false, ◌&&◌, ◌||◌, Option, none, some, List, [], ◌∷◌, arith,
  if◌then◌else◌, done,
}
use elfo.Base.Assoc.{find, insert, find-insert}
use elfo.Core.Mailbox.{SendResult, sent}
use elfo.Core.Actor.{MailActor, actor_try_send}
use elfo.Core.Supervisor.{Visit, visited, visited_last, visited_none, handled}
use elfo.Core.Object.{TrySendError, or_duplicate, Store, missing_or}

abbrev pub is_some : {A : Type 0} → Option A → Bool
is_some none = false
is_some (some a) = true

abbrev pub is_sent : SendResult → Bool
is_sent sent = true
is_sent result = false

abbrev pub is_full : SendResult → Bool
is_full SendResult.full = true
is_full result = false

module _ {E : Type 0} where
  -- The actor of a visit is stored.
  abbrev pub visit_stored : Store E → Visit → Bool
  visit_stored s (visited addr) = is_some (find s addr)
  visit_stored s (visited_last addr) = is_some (find s addr)
  visit_stored s visit = true

  abbrev pub all_stored : Store E → List Visit → Bool
  all_stored s [] = true
  all_stored s (visit ∷ visits) = visit_stored s visit && all_stored s visits

  abbrev pub answer : E → Bool → Bool → Option (TrySendError E)
  answer e taken was_full =
      if taken then none else some (if was_full then TrySendError.full e else TrySendError.closed e)

  insert-keeps :
      (s : Store E) (addr : ℕ) (a : MailActor E) (visits : List Visit)
      → all_stored s visits ≡ true
      → all_stored (insert s addr a) visits ≡ true
  insert-keeps s addr a [] h = refl
  insert-keeps s addr a (visited b ∷ visits) h =
      ground (arith, insert-keeps s addr a visits, find-insert s addr b a)
  insert-keeps s addr a (visited_last b ∷ visits) h =
      ground (arith, insert-keeps s addr a visits, find-insert s addr b a)
  insert-keeps s addr a (visited_none ∷ visits) h = insert-keeps s addr a visits h
  insert-keeps s addr a (handled ∷ visits) h = insert-keeps s addr a visits h

  pub missing_or-answer :
      (ok was_full : Bool) (extra : Option E) (e : E)
      → or_duplicate extra e ≡ e
      → ok || is_some extra ≡ true
      → (if ok then done none else missing_or was_full extra) ≡ done (answer e ok was_full)
  missing_or-answer true was_full extra e k a = refl
  missing_or-answer false was_full none e k a = cc
  missing_or-answer false was_full (some copy) e k a = rw k refl

module _ {E : Type 0} (as_terminate : E → Option Bool) (trace_id : ℕ) where
  abbrev pub offer_to : Store E → ℕ → E → Option (MailActor E) → Store E × SendResult
  offer_to s addr e none = (s, SendResult.closed)
  offer_to s addr e (some a) =
      let (a', result) = actor_try_send as_terminate a trace_id e in (insert s addr a', result)

  -- The description: a message that the supervisor has handled counts as taken; with no actor, nobody
  -- takes it.
  abbrev pub offer : Store E → E → Visit → Store E × SendResult
  offer s e handled = (s, sent)
  offer s e visited_none = (s, SendResult.closed)
  offer s e (visited addr) = offer_to s addr e (find s addr)
  offer s e (visited_last addr) = offer_to s addr e (find s addr)

  -- The message offered along the visits, whether somebody took it and whether a mailbox was full.
  abbrev pub offer_all : Store E → E → List Visit → Store E × (Bool × Bool)
  offer_all s e [] = (s, (false, false))
  offer_all s e (visit ∷ visits) =
      let (s', result) = offer s e visit in
      let (s'', (taken, was_full)) = offer_all s' e visits in
      (s'', (is_sent result || taken, is_full result || was_full))

  offer_to-keeps :
      (s : Store E) (addr : ℕ) (e : E) (found : Option (MailActor E)) (visits : List Visit)
      → all_stored s visits ≡ true
      → all_stored (offer_to s addr e found).0 visits ≡ true
  offer_to-keeps s addr e none visits h = h
  offer_to-keeps s addr e (some a) visits h =
      insert-keeps s addr (actor_try_send as_terminate a trace_id e).0 visits h

  pub offer-keeps :
      (s : Store E) (e : E) (visit : Visit) (visits : List Visit)
      → all_stored s visits ≡ true
      → all_stored (offer s e visit).0 visits ≡ true
  offer-keeps s e (visited addr) visits h = offer_to-keeps s addr e (find s addr) visits h
  offer-keeps s e (visited_last addr) visits h = offer_to-keeps s addr e (find s addr) visits h
  offer-keeps s e visited_none visits h = h
  offer-keeps s e handled visits h = h
