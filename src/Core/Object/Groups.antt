-- ===== src/Core/Object/Groups.antt =====
-- elfo-core/src/object.rs and supervisor.rs: a message to a group, from the supervisor to the mailboxes.
use elfo.Base.{
  ℕ, ◌≡◌, refl, sym, ap, subst, ◌∙◌, inl, inr, Bool, true, false, ◌&&◌, Option, none, some, List,
  [], ◌∷◌, map, arith, if◌then◌else◌, Option-cases, Run, done, >>=-eq-done, done_injective,
}
use elfo.Base.Assoc.{find, find-insert}
use elfo.Core.Routing.{
  Outcome, unicast, gentle_unicast, multicast, gentle_multicast, broadcast, discard, default,
}
use elfo.Core.Restarting.{Floats}
use elfo.Core.Supervisor.{
  StartInfo, on_message, Visit, Response, AddressBook, Message, Actor, Supervisor, start_actor,
  spawn, store, or_spawn, get_or_spawn, spawn_all, visit_multiple, actors_of, visit_one, deliver,
  answers, goes_on, Prepared, prepare, finish, handle,
}
use elfo.Core.Object.{Store, group_try_send}
use elfo.Core.Object.Offers.{is_some, all_stored, answer, offer_all}
use elfo.Core.Object.Visits.{is_cons, group_try_send-offers}

module _ (floats : Floats) (address_book : AddressBook) where
  started-objects :
      (sv : Supervisor floats) (key : ℕ) (info : StartInfo) (user : Option ℕ)
      {t : Supervisor floats} {spawned : Option (Actor floats)}
      → start_actor floats address_book sv key info user ≡ done (t, spawned)
      → t.objects ≡ sv.objects
  started-objects sv key info none h = cc
  started-objects sv key info (some user) h = ap (λ p. p.0.objects) (sym (done_injective h))

  unless_stopped-objects :
      (stop : Bool) (sv : Supervisor floats) (key : ℕ) (info : StartInfo) {t : Supervisor floats}
      {spawned : Option (Actor floats)}
      → (if stop
          then done (sv, none)
          else start_actor floats address_book sv key info sv.control.user_config)
        ≡ done (t, spawned)
      → t.objects ≡ sv.objects
  unless_stopped-objects true sv key info h = ap (λ p. p.0.objects) (sym (done_injective h))
  unless_stopped-objects false sv key info h = started-objects sv key info sv.control.user_config h

  spawn-objects :
      (sv : Supervisor floats) (key : ℕ) (info : StartInfo) {t : Supervisor floats}
      {spawned : Option (Actor floats)}
      → spawn floats address_book sv key info ≡ done (t, spawned)
      → t.objects ≡ sv.objects
  unfolding spawn
  spawn-objects sv key info h = unless_stopped-objects sv.control.stop_spawning sv key info h

  stored-found :
      (sv t : Supervisor floats) (key : ℕ) (info : StartInfo) (spawned : Option (Actor floats))
      → find sv.objects key ≡ none
      → spawn floats address_book sv key info ≡ done (t, spawned)
      → (let (t', actor) = store floats address_book key (t, spawned) in
          find t'.objects key ≡ actor)
  stored-found sv t key info none e h = ap (λ m. find m key) (spawn-objects sv key info h) ∙ e
  stored-found sv t key info (some a) e h = ground (arith, find-insert t.objects key key a)

  -- What a spawn for a key returns is what the group has for it.
  or_spawn-found :
      (sv : Supervisor floats) (key : ℕ) (info : StartInfo) (found : Option (Actor floats))
      {sv' : Supervisor floats} {actor : Option (Actor floats)}
      → find sv.objects key ≡ found
      → or_spawn floats address_book sv key info found ≡ done (sv', actor)
      → find sv'.objects key ≡ actor
  unfolding spawn
  or_spawn-found sv key info (some a) e h =
      subst (λ p. find p.0.objects key ≡ p.1) (done_injective h) e
  or_spawn-found sv key info none e h =
      let ((t, spawned), r, r') = >>=-eq-done (spawn floats address_book sv key info) _ h in
      subst (λ p. find p.0.objects key ≡ p.1) (done_injective r')
        (stored-found sv t key info spawned e r)

module _ {E : Type 0} (floats : Floats) (address_book : AddressBook) where
  -- The actors of a group are stored.
  abbrev pub actors_stored : Store E → List (Actor floats) → Bool
  actors_stored s [] = true
  actors_stored s (actor ∷ actors) = is_some (find s actor.addr) && actors_stored s actors

  abbrev pub group_stored : Store E → List (ℕ × Actor floats) → Bool
  group_stored s [] = true
  group_stored s ((key, actor) ∷ objects) = is_some (find s actor.addr) && group_stored s objects

  -- Visits of actors that are stored; there is at least one visit.
  abbrev Offerable : Store E → List Visit → Type 0
  Offerable s visits = is_cons visits && all_stored s visits ≡ true

  visit_multiple-Offerable :
      (s : Store E) (actors : List (Actor floats))
      → actors_stored s actors ≡ true
      → Offerable s (visit_multiple floats address_book actors)
  unfolding visit_multiple
  visit_multiple-Offerable s [] h = refl
  visit_multiple-Offerable s (a ∷ []) h = h
  visit_multiple-Offerable s (a ∷ b ∷ actors) h =
      ground (arith, visit_multiple-Offerable s (b ∷ actors))

  find-stored :
      (s : Store E) (objects : List (ℕ × Actor floats)) (key : ℕ) (actor : Actor floats)
      → group_stored s objects ≡ true
      → find objects key ≡ some actor
      → is_some (find s actor.addr) ≡ true
  find-stored s [] key actor h e = cc
  find-stored s ((k, a) ∷ objects) key actor h e = ground (arith, find-stored s objects key actor)

  actors_of-stored :
      (s : Store E) (objects : List (ℕ × Actor floats)) (keys : List ℕ)
      → group_stored s objects ≡ true
      → actors_stored s (actors_of floats address_book objects keys) ≡ true
  actors_of-stored s objects [] h = refl
  actors_of-stored s objects (key ∷ keys) h = elim (Option-cases (find objects key)) [
    | inl e ↦ rw e (actors_of-stored s objects keys h)
    | inr (actor, e) ↦
        rw e
          (ground (arith, find-stored s objects key actor h e, actors_of-stored s objects keys h))
  ]

  map-stored :
      (s : Store E) (objects : List (ℕ × Actor floats))
      → group_stored s objects ≡ true
      → actors_stored s (map (λ o. o.1) objects) ≡ true
  map-stored s [] h = refl
  map-stored s ((key, actor) ∷ objects) h = ground (arith, map-stored s objects)

  visit_one-Offerable :
      (s : Store E) (objects : List (ℕ × Actor floats)) (key : ℕ) (found : Option (Actor floats))
      → find objects key ≡ found
      → group_stored s objects ≡ true
      → Offerable s (visit_one floats address_book found)
  visit_one-Offerable s objects key none e h = refl
  visit_one-Offerable s objects key (some actor) e h =
      ground (arith, find-stored s objects key actor h e)

  given :
      (s : Store E) {t sv' : Supervisor floats} {visits visits' : List Visit}
      → ◌≡◌ {A = Run (Supervisor floats × List Visit)} (done (t, visits)) (done (sv', visits'))
      → (group_stored s t.objects ≡ true → Offerable s visits)
      → group_stored s sv'.objects ≡ true
      → Offerable s visits'
  given s h f =
      subst (λ p. group_stored s p.0.objects ≡ true → Offerable s p.1) (done_injective h) f

  deliver-Offerable :
      (s : Store E) (sv : Supervisor floats) (outcome : Outcome ℕ) {sv' : Supervisor floats}
      {visits : List Visit}
      → deliver floats address_book sv outcome ≡ done (sv', visits)
      → group_stored s sv'.objects ≡ true
      → Offerable s visits
  unfolding deliver get_or_spawn
  deliver-Offerable s sv (unicast key) h =
      let ((t, actor), e, e') =
        >>=-eq-done (get_or_spawn floats address_book sv key on_message) _ h in
      given s e' (
        visit_one-Offerable s t.objects key actor
          (or_spawn-found floats address_book sv key on_message (find sv.objects key) refl e))
  deliver-Offerable s sv (gentle_unicast key) h =
      given s h (visit_one-Offerable s sv.objects key (find sv.objects key) refl)
  deliver-Offerable s sv (multicast keys) h =
      let (t, e, e') = >>=-eq-done (spawn_all floats address_book sv keys on_message) _ h in
      given s e' (λ g. visit_multiple-Offerable s _ (actors_of-stored s t.objects keys g))
  deliver-Offerable s sv (gentle_multicast keys) h =
      given s h (λ g. visit_multiple-Offerable s _ (actors_of-stored s sv.objects keys g))
  deliver-Offerable s sv broadcast h =
      given s h (λ g. visit_multiple-Offerable s _ (map-stored s sv.objects g))
  deliver-Offerable s sv discard h = given s h (λ g. refl)
  deliver-Offerable s sv default h = cc

  prepared-Offerable :
      (s : Store E) (p : Prepared floats address_book) {sv' : Supervisor floats}
      {visits : List Visit} {responses : List Response}
      → finish floats address_book p ≡ done (sv', (visits, responses))
      → group_stored s sv'.objects ≡ true
      → Offerable s visits
  prepared-Offerable s (answers sv responses) h g =
      ap (λ p. is_cons p.1.0 && all_stored s p.1.0) (sym (done_injective h))
  prepared-Offerable s (goes_on sv outcome) h g =
      let ((t, seen), e, e') = >>=-eq-done (deliver floats address_book sv outcome) _ h in
      let same = done_injective e' in
      subst (λ p. Offerable s p.1.0) same
        (deliver-Offerable s sv outcome e
          (subst (λ p. group_stored s p.0.objects ≡ true) (sym same) g))

  Offerable-offers :
      (as_terminate : E → Option Bool) (trace_id : ℕ) (s : Store E) (e : E) (visits : List Visit)
      → Offerable s visits
      → group_try_send as_terminate trace_id s e visits ≡ (
          let (s', (taken, was_full)) = offer_all as_terminate trace_id s e visits in
          done (s', answer e taken was_full))
  Offerable-offers as_terminate trace_id s e [] h = cc
  Offerable-offers as_terminate trace_id s e (visit ∷ visits) h =
      group_try_send-offers as_terminate trace_id s e visit visits h

  -- A supervisor that handles a message without a panic tells the visitor of `try_send` who is to get
  -- it. When the actors that the group then has are stored, the send does not panic: it stores
  -- and returns what offering the message to those visited, one after the other in the order of the
  -- visits, leads to. It is Ok when the supervisor has taken the message itself or some actor has,
  -- else the message comes back, as full when the mailbox of some visited actor was full and as
  -- closed otherwise, also when nobody is visited.
  pub try_send_offers :
      (as_terminate : E → Option Bool) (trace_id : ℕ) (sv sv' : Supervisor floats)
      (message : Message floats) (outcome : Outcome ℕ) (accepts : Actor floats → Bool)
      (visits : List Visit) (responses : List Response) (s : Store E) (e : E)
      → handle floats address_book sv message outcome accepts ≡ done (sv', (visits, responses))
      → group_stored s sv'.objects ≡ true
      → group_try_send as_terminate trace_id s e visits ≡ (
          let (s', (taken, was_full)) = offer_all as_terminate trace_id s e visits in
          done (s', answer e taken was_full))
  unfolding handle
  try_send_offers as_terminate trace_id sv sv' message outcome accepts visits responses s e h g =
      let (p, r, r') = >>=-eq-done (prepare floats address_book sv message outcome accepts) _ h in
      Offerable-offers as_terminate trace_id s e visits (prepared-Offerable s p r' g)
