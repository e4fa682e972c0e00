-- ===== src/Core/Supervisor/Stopping.antt =====
-- elfo-core/src/supervisor.rs: what happens after the group has stopped to spawn.
use elfo.Core.Routing.{Outcome, broadcast, or_outcome}
use elfo.Core.Supervisor.Steps.{
  Step, gets, sets, starts, stops, subscribes, ends, replaces, Steps, here, next, Steps-trans,
  finish-Steps,
}
use elfo.Base.{
  ℕ, ◌≡◌, refl, sym, ap, subst, ◌∙◌, inl, inr, Bool, true, false, not, ◌&&◌, ◌||◌, Option, none,
  some, List, [], ◌∷◌, arith, Bool-cases, done, ◌>>=◌, done_injective,
}
use elfo.Base.Assoc.{find, delete, find-delete, find-insert}
use elfo.Core.Restarting.{ActorStatusKind, Floats, RestartBackoff}
use elfo.Core.Supervisor.{
  StartInfo, on_restart, Visit, Response, mem, AddressBook, terminate, Actor, Supervisor, spawn,
  store, or_spawn, get_or_spawn, capacities, set_config, remove, subscribe, goes_on, prepare,
  handle, decide, ended, if_known, replace,
}

module _ (floats : Floats) (address_book : AddressBook) where
  spawn-stopped :
      (sv : Supervisor floats) (key : ℕ) (info : StartInfo)
      → sv.control.stop_spawning ≡ true
      → spawn floats address_book sv key info ≡ done (sv, none)
  unfolding spawn
  spawn-stopped sv key info e = rw e refl

  -- Still stopped, with the tasks that there were and no actor under another key.
  pub record Quiet (before after : Supervisor floats) : Type 0 where
    pub stopped : after.control.stop_spawning ≡ true
    pub tasks_same : after.tasks ≡ before.tasks
    pub no_key : (key : ℕ) → find before.objects key ≡ none → find after.objects key ≡ none

  Quiet-same :
      (before after : Supervisor floats)
      → before.control.stop_spawning ≡ true
      → before ≡ after
      → Quiet before after
  Quiet-same before after e same =
      subst (λ s. Quiet before s) same
        (record { stopped = e; tasks_same = refl; no_key = λ key absent. absent })

  capacities-find :
      (n key : ℕ) (objects : List (ℕ × Actor floats))
      → find objects key ≡ none
      → find (capacities floats address_book n objects) key ≡ none
  capacities-find n key [] h = refl
  capacities-find n key ((k, actor) ∷ objects) h = ground (arith, capacities-find n key objects)

  get_or_spawn-Quiet :
      (sv : Supervisor floats) (key : ℕ) (info : StartInfo) (found : Option (Actor floats))
      {sv' : Supervisor floats} {actor : Option (Actor floats)}
      → sv.control.stop_spawning ≡ true
      → or_spawn floats address_book sv key info found ≡ done (sv', actor)
      → Quiet sv sv'
  get_or_spawn-Quiet sv key info (some a) e h = Quiet-same sv _ e (ap (λ t. t.0) (done_injective h))
  get_or_spawn-Quiet sv key info none e h =
      let h' =
        ap (λ m. m >>= (λ s. done (store floats address_book key s)))
          (sym (spawn-stopped sv key info e))
        ∙ h in
      Quiet-same sv _ e (ap (λ t. t.0) (done_injective h'))

  decided-Quiet :
      (sv : Supervisor floats) (key : ℕ) (status : ActorStatusKind) (b : RestartBackoff) (now : ℕ)
      (found : Option (Actor floats)) {sv' : Supervisor floats}
      {decision : RestartBackoff × Option ℕ}
      → find sv.objects key ≡ found
      → sv.control.stop_spawning ≡ true
      → decide floats address_book sv key status b now found ≡ done (sv', decision)
      → Quiet sv sv'
  decided-Quiet sv key status b now none e stop h = cc
  decided-Quiet sv key status b now (some actor) e stop h =
      subst (λ s. Quiet sv s) (ap (λ t. t.0) (done_injective h))
        (record {
          stopped = stop;
          tasks_same = refl;
          no_key = λ k absent.
              ground (arith, find-insert sv.objects key k (record actor { status = status }));
        })

  known-Quiet :
      (sv : Supervisor floats) (key addr : ℕ) (found : Option (Actor floats))
      {sv' : Supervisor floats}
      → sv.control.stop_spawning ≡ true
      → if_known floats address_book found (record sv {
        objects = delete sv.objects key;
        book = remove floats address_book addr sv.book;
      })
        ≡ done sv'
      → Quiet sv sv'
  known-Quiet sv key addr none e h = cc
  known-Quiet sv key addr (some actor) e h =
      subst (λ s. Quiet sv s) (done_injective h)
        (record {
          stopped = e;
          tasks_same = refl;
          no_key = λ k absent. ground (arith, find-delete sv.objects key k);
        })

  replace-Quiet :
      (sv : Supervisor floats) (key addr : ℕ) (restart : Bool) {sv' : Supervisor floats}
      → sv.control.stop_spawning ≡ true
      → replace floats address_book sv key addr restart ≡ done sv'
      → Quiet sv sv'
  unfolding replace
  replace-Quiet sv key addr false e h = known-Quiet sv key addr (find sv.objects key) e h
  replace-Quiet sv key addr true e h =
      known-Quiet sv key addr (find sv.objects key) e (rw (spawn-stopped sv key on_restart e) at h)

  Quiet-Step :
      {sv sv' : Supervisor floats}
      → Step floats address_book sv sv'
      → sv.control.stop_spawning ≡ true
      → Quiet sv sv'
  unfolding get_or_spawn set_config subscribe ended
  Quiet-Step {sv = sv} (gets key info h) e =
      get_or_spawn-Quiet sv key info (find sv.objects key) e h
  Quiet-Step {sv = sv} (sets config) e = record {
    stopped = e;
    tasks_same = refl;
    no_key = λ key absent.
        ground (arith, capacities-find config.system.mailbox_capacity key sv.objects absent);
  }
  Quiet-Step starts e = record { stopped = e; tasks_same = refl; no_key = λ key absent. absent }
  Quiet-Step stops e = record { stopped = refl; tasks_same = refl; no_key = λ key absent. absent }
  Quiet-Step {sv = sv} (subscribes addr forcing accepts) e =
      elim (Bool-cases (not (not (mem addr sv.subscribers)) && not forcing)) [
        | inl old ↦
            rw old (record { stopped = e; tasks_same = refl; no_key = λ key absent. absent })
        | inr new ↦
            rw new (record { stopped = e; tasks_same = refl; no_key = λ key absent. absent })
      ]
  Quiet-Step {sv = sv} (ends key status b now h) e =
      decided-Quiet sv key status b now (find sv.objects key) refl e h
  Quiet-Step {sv = sv} (replaces key actor restart found h) e =
      replace-Quiet sv key (actor.addr) restart e h

  Quiet-trans : {s t u : Supervisor floats} → Quiet s t → Quiet t u → Quiet s u
  Quiet-trans q r = record {
    stopped = r.stopped;
    tasks_same = r.tasks_same ∙ q.tasks_same;
    no_key = λ key absent. r.no_key key (q.no_key key absent);
  }

  Quiet-Steps :
      {s t : Supervisor floats}
      → Steps floats address_book s t
      → s.control.stop_spawning ≡ true
      → Quiet s t
  Quiet-Steps {s = s} here e = Quiet-same s s e refl
  Quiet-Steps (next r step) e = let q = Quiet-Steps r e in Quiet-trans q (Quiet-Step step q.stopped)

  or_true : (before on_terminate : Bool) → on_terminate ≡ true → before || on_terminate ≡ true
  or_true before on_terminate e = ground arith

  -- When a message `Terminate` has been handled by a supervisor whose policy says to stop spawning,
  -- whatever the router has answered, then in any interleaving of the steps of messages that are
  -- handled and of actors that end, also of those that wait to be restarted, no actor is
  -- spawned and no key gets an actor that had none. A spawn stands at the moment at which it reads
  -- that the group has stopped. Handling the message spawns none either.
  pub terminate_stops :
      (sv s t : Supervisor floats) (outcome : Outcome ℕ) (accepts : Actor floats → Bool)
      (out : List Visit × List Response)
      → sv.stop_on_terminate ≡ true
      → handle floats address_book sv terminate outcome accepts ≡ done (s, out)
      → Steps floats address_book s t
      → (t.tasks ≡ sv.tasks) × ((key : ℕ) → find sv.objects key ≡ none → find t.objects key ≡ none)
  unfolding handle prepare
  terminate_stops sv s t outcome accepts out policy h r =
      let stop = sv.control.stop_spawning || sv.stop_on_terminate in
      let stopping = record sv { control = record (sv.control) { stop_spawning = stop } } in
      let stops_now = or_true sv.control.stop_spawning sv.stop_on_terminate policy in
      let delivered =
        finish-Steps floats address_book (goes_on stopping (or_outcome outcome broadcast)) h in
      let q = Quiet-Steps (Steps-trans floats address_book delivered r) stops_now in
      (q.tasks_same, q.no_key)
