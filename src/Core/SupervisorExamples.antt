-- ===== src/Core/SupervisorExamples.antt =====
-- The theorems about the supervisor at concrete groups. An address is above all that are in use.
use elfo.Core.Supervisor.Steps.{gets, sets, Steps, here, next}
use elfo.Base.{ℕ, suc, ◌+◌, ◌<◌, ◌≡◌, refl, ◌↔◌, true, false, none, some, List, [], ◌∷◌, arith}
use elfo.Base.Assoc.{find}
use elfo.Core.RestartExamples.{whole_floats}
use elfo.Core.Restarting.{initializing, never}
use elfo.Core.Routing.{default, or_outcome}
use elfo.Core.Supervisor.{
  on_message, visited_last, mem, AddressBook, AnyConfig, Actor, Supervisor, new_supervisor, spawn,
  get_or_spawn, set_config, visit_multiple, deliver, prepare, handle,
}
use elfo.Core.Supervisor.Stopping.{terminate_stops}
use elfo.Core.Supervisor.Addresses.{addr_in, addresses_of_actors}

abbrev sum : List ℕ → ℕ
sum [] = 0
sum (n ∷ ns) = n + sum ns

mem-above : (a : ℕ) (ns : List ℕ) → sum ns < a → mem a ns ≡ false
mem-above a [] h = refl
mem-above a (n ∷ ns) h = ground (arith, mem-above a ns)

pub above_all : (ns : List ℕ) → mem (suc (sum ns)) ns ≡ false
above_all ns = mem-above (suc (sum ns)) ns (omega arith)

abbrev pub some_book : AddressBook
some_book = record { vacant = λ addrs. suc (sum addrs); vacant-unused = above_all }

abbrev some_config : AnyConfig whole_floats
some_config = record { system = record { mailbox_capacity = 100; restart_config = none }; user = 3 }

abbrev group : Supervisor whole_floats
group = new_supervisor whole_floats never true (some_config.system)

abbrev configured : Supervisor whole_floats
configured = set_config whole_floats some_book group some_config

abbrev pub first_actor : Actor whole_floats
first_actor = record {
  addr = 1;
  capacity = 100;
  own_policy = none;
  status = initializing;
  start_info = on_message;
  actor_config = 3;
}

abbrev pub with_actor : Supervisor whole_floats
with_actor = record configured {
  objects = (5, first_actor) ∷ [];
  book = 1 ∷ [];
  tasks = (5, 1) ∷ [];
}

with_actor-Steps : Steps whole_floats some_book group with_actor
unfolding new_supervisor set_config get_or_spawn spawn
with_actor-Steps = next (next here (sets some_config)) (gets 5 on_message refl)

addresses_of_actors_example :
    ((addr : ℕ)
      → (mem addr with_actor.book ≡ true)
        ↔ ((key : ℕ) × (addr_in whole_floats some_book with_actor.objects key ≡ some addr)))
    × ((key key' addr : ℕ)
        → addr_in whole_floats some_book with_actor.objects key ≡ some addr
        → addr_in whole_floats some_book with_actor.objects key' ≡ some addr
        → key ≡ key')
addresses_of_actors_example =
    addresses_of_actors whole_floats some_book never true (some_config.system) with_actor
      with_actor-Steps

abbrev stopping : Supervisor whole_floats
stopping = record with_actor { control = record (with_actor.control) { stop_spawning = true } }

-- A message for a key without an actor, after the group was told to terminate.
after_stop-Steps : Steps whole_floats some_book stopping stopping
unfolding new_supervisor set_config get_or_spawn spawn
after_stop-Steps = next here (gets 9 on_message {actor = none} refl)

terminate_stops_example :
    (stopping.tasks ≡ with_actor.tasks)
    × ((key : ℕ) → find with_actor.objects key ≡ none → find stopping.objects key ≡ none)
unfolding new_supervisor set_config handle prepare deliver visit_multiple or_outcome
terminate_stops_example =
    terminate_stops whole_floats some_book with_actor stopping stopping default (λ actor. true)
      (visited_last 1 ∷ [], []) refl refl after_stop-Steps
