-- ===== src/Core/ObjectExamples.antt =====
-- The theorem about messages to groups at a group of two actors, of which the first is full.
use elfo.Base.{ℕ, ◌≡◌, true, false, none, [], ◌∷◌, refl, done}
use elfo.Core.RestartExamples.{whole_floats}
use elfo.Core.Routing.{multicast}
use elfo.Core.Supervisor.{
  visited, visited_last, Actor, Supervisor, get_or_spawn, spawn_all, visit_multiple, deliver, other,
  prepare, handle,
}
use elfo.Core.SupervisorExamples.{some_book, first_actor, with_actor}
use elfo.Core.Actor.{new_actor}
use elfo.Core.Object.{Store, group_try_send}
use elfo.Core.Object.Offers.{answer, offer_all}
use elfo.Core.Object.Groups.{try_send_offers}

abbrev second_actor : Actor whole_floats
second_actor = record first_actor { addr = 2 }

abbrev two_actors : Supervisor whole_floats
two_actors = record with_actor {
  objects = (5, first_actor) ∷ (6, second_actor) ∷ [];
  book = 2 ∷ 1 ∷ [];
}

abbrev full_and_free : Store ℕ
full_and_free = (1, new_actor 100 0 false) ∷ (2, new_actor 100 7 false) ∷ []

try_send_offers_example :
    group_try_send (λ e. none) 9 full_and_free 42 (visited 1 ∷ visited_last 2 ∷ []) ≡ (
      let (s', (taken, was_full)) =
        offer_all (λ e. none) 9 full_and_free 42 (visited 1 ∷ visited_last 2 ∷ []) in
      done (s', answer 42 taken was_full))
unfolding handle prepare deliver spawn_all get_or_spawn visit_multiple new_actor
try_send_offers_example =
    try_send_offers whole_floats some_book (λ e. none) 9 two_actors two_actors other
      (multicast (5 ∷ 6 ∷ [])) (λ actor. true) (visited 1 ∷ visited_last 2 ∷ []) [] full_and_free 42
      refl refl
