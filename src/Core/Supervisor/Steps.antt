-- ===== src/Core/Supervisor/Steps.antt =====
-- elfo-core/src/supervisor.rs: the critical sections of messages that are handled and of actors that
-- end, in any interleaving. A spawn is one step, at the moment at which it reads the control; what
-- its thread does later with the new actor is not delayed here. Only the task of an actor ends it, so the actor is still there under its
-- key when it is replaced.
use elfo.Base.{
  ℕ, ◌≡◌, refl, ap, subst, inl, inr, Bool, true, false, ◌||◌, Option, none, some, List, [], ◌∷◌,
  Bool-cases, Run, done, >>=-eq-done, done_injective,
}
use elfo.Base.Assoc.{find}
use elfo.Core.Routing.{
  Outcome, unicast, gentle_unicast, multicast, gentle_multicast, broadcast, discard, default,
}
use elfo.Core.Restarting.{ActorStatusKind, Floats, RestartBackoff}
use elfo.Core.Supervisor.{
  StartInfo, on_message, on_group_mounted, Visit, Response, AddressBook, AnyConfig, Message,
  validate_config, update_config, subscribe_to_statuses, terminate, ping, other, Actor, Supervisor,
  get_or_spawn, spawn_all, spawn_on_group_mounted, set_config, subscribe, deliver, Prepared,
  answers, goes_on, accept_first, is_unset, updated, after_update, prepare, finish, handle, ended,
  replace,
}

module _ (floats : Floats) (address_book : AddressBook) where
  pub data Step (sv : Supervisor floats) : Supervisor floats → Type 0 where
    gets :
        (key : ℕ) (info : StartInfo) {sv' : Supervisor floats} {actor : Option (Actor floats)}
        → get_or_spawn floats address_book sv key info ≡ done (sv', actor)
        → Step sv sv'
    sets : (config : AnyConfig floats) → Step sv (set_config floats address_book sv config)
    starts : Step sv (record sv { control = record (sv.control) { is_started = true } })
    stops : Step sv (record sv { control = record (sv.control) { stop_spawning = true } })
    subscribes :
        (addr : ℕ) (forcing : Bool) (accepts : Actor floats → Bool)
        → Step sv (subscribe floats address_book sv addr forcing accepts).0
    ends :
        (key : ℕ) (status : ActorStatusKind) (b : RestartBackoff) (now : ℕ)
        {sv' : Supervisor floats} {decision : RestartBackoff × Option ℕ}
        → ended floats address_book sv key status b now ≡ done (sv', decision)
        → Step sv sv'
    replaces :
        (key : ℕ) (actor : Actor floats) (restart : Bool) {sv' : Supervisor floats}
        → find sv.objects key ≡ some actor
        → replace floats address_book sv key (actor.addr) restart ≡ done sv'
        → Step sv sv'

  pub data Steps (sv : Supervisor floats) : Supervisor floats → Type 0 where
    here : Steps sv sv
    next : {s t : Supervisor floats} → Steps sv s → Step s t → Steps sv t

  pub Steps-trans : {s t u : Supervisor floats} → Steps s t → Steps t u → Steps s u
  Steps-trans r here = r
  Steps-trans r (next q step) = next (Steps-trans r q) step

  pub spawn_all-Steps :
      (sv : Supervisor floats) (keys : List ℕ) (info : StartInfo) {sv' : Supervisor floats}
      → spawn_all floats address_book sv keys info ≡ done sv'
      → Steps sv sv'
  unfolding spawn_all
  spawn_all-Steps sv [] info h = subst (λ s. Steps sv s) (done_injective h) here
  spawn_all-Steps sv (key ∷ keys) info h =
      let ((s, actor), e, e') = >>=-eq-done (get_or_spawn floats address_book sv key info) _ h in
      Steps-trans (next here (gets key info e)) (spawn_all-Steps s keys info e')

  spawn_on_group_mounted-Steps :
      (sv : Supervisor floats) (outcome : Outcome ℕ) {sv' : Supervisor floats}
      → spawn_on_group_mounted floats address_book sv outcome ≡ done sv'
      → Steps sv sv'
  unfolding spawn_on_group_mounted
  spawn_on_group_mounted-Steps sv (unicast key) h = spawn_all-Steps sv (key ∷ []) on_group_mounted h
  spawn_on_group_mounted-Steps sv (multicast keys) h = spawn_all-Steps sv keys on_group_mounted h
  spawn_on_group_mounted-Steps sv (gentle_unicast key) h =
      subst (λ s. Steps sv s) (done_injective h) here
  spawn_on_group_mounted-Steps sv (gentle_multicast keys) h =
      subst (λ s. Steps sv s) (done_injective h) here
  spawn_on_group_mounted-Steps sv broadcast h = subst (λ s. Steps sv s) (done_injective h) here
  spawn_on_group_mounted-Steps sv discard h = subst (λ s. Steps sv s) (done_injective h) here
  spawn_on_group_mounted-Steps sv default h = subst (λ s. Steps sv s) (done_injective h) here

  same_state :
      {A : Type 0} {sv s : Supervisor floats} {x y : A}
      → ◌≡◌ {A = Run (Supervisor floats × A)} (done (sv, x)) (done (s, y))
      → Steps sv s
  same_state {sv = sv} h = subst (λ s. Steps sv s) (ap (λ t. t.0) (done_injective h)) here

  pub deliver-Steps :
      (sv : Supervisor floats) (outcome : Outcome ℕ) {sv' : Supervisor floats} {visits : List Visit}
      → deliver floats address_book sv outcome ≡ done (sv', visits)
      → Steps sv sv'
  unfolding deliver
  deliver-Steps sv (unicast key) h =
      let ((s, actor), e, e') =
        >>=-eq-done (get_or_spawn floats address_book sv key on_message) _ h in
      Steps-trans (next here (gets key on_message e)) (same_state e')
  deliver-Steps sv (gentle_unicast key) h = same_state h
  deliver-Steps sv (multicast keys) h =
      let (s, e, e') = >>=-eq-done (spawn_all floats address_book sv keys on_message) _ h in
      Steps-trans (spawn_all-Steps sv keys on_message e) (same_state e')
  deliver-Steps sv (gentle_multicast keys) h = same_state h
  deliver-Steps sv broadcast h = same_state h
  deliver-Steps sv discard h = same_state h
  deliver-Steps sv default h = cc

  abbrev pub state_of : Prepared floats address_book → Supervisor floats
  state_of (answers sv responses) = sv
  state_of (goes_on sv outcome) = sv

  updated-Steps :
      (sv : Supervisor floats) (config : AnyConfig floats)
      → Steps sv (updated floats address_book sv config)
  updated-Steps sv config =
      elim (Bool-cases
        (sv.control.is_started || is_unset floats address_book sv.control.user_config)) [
          | inl update ↦ rw update (next (next here (sets config)) starts)
          | inr keep ↦ rw keep (next here starts)
        ]

  accept_first-Steps :
      (sv : Supervisor floats) (config : AnyConfig floats) (user : Option ℕ) (outcome : Outcome ℕ)
      → Steps sv (state_of (accept_first floats address_book sv config user outcome))
  accept_first-Steps sv config none outcome = next here (sets config)
  accept_first-Steps sv config (some user) outcome = here

  terminate-Steps :
      (sv : Supervisor floats) (before on_terminate : Bool)
      → sv.control.stop_spawning ≡ before
      → Steps sv
          (record sv { control = record (sv.control) { stop_spawning = before || on_terminate } })
  terminate-Steps sv true on_terminate e = next here stops
  terminate-Steps sv false true e = next here stops
  terminate-Steps sv false false e =
      subst
        (λ (b : Bool). Steps sv (record sv { control = record (sv.control) { stop_spawning = b } }))
        e here

  pub finish-Steps :
      (p : Prepared floats address_book) {sv' : Supervisor floats}
      {out : List Visit × List Response}
      → finish floats address_book p ≡ done (sv', out)
      → Steps (state_of p) sv'
  finish-Steps (answers sv responses) h = same_state h
  finish-Steps (goes_on sv outcome) h =
      let ((s, visits), e, e') = >>=-eq-done (deliver floats address_book sv outcome) _ h in
      Steps-trans (deliver-Steps sv outcome e) (same_state e')

  prepared_as :
      {sv : Supervisor floats} {p q : Prepared floats address_book}
      → Steps sv (state_of p)
      → ◌≡◌ {A = Run (Prepared floats address_book)} (done p) (done q)
      → Steps sv (state_of q)
  prepared_as {sv = sv} r h = subst (λ t. Steps sv (state_of t)) (done_injective h) r

  after_update-Steps :
      (started : Bool) {sv s : Supervisor floats}
      → Steps sv s
      → (outcome : Outcome ℕ) {p : Prepared floats address_book}
      → after_update floats address_book started s outcome ≡ done p
      → Steps sv (state_of p)
  after_update-Steps true r outcome h = prepared_as r h
  after_update-Steps false {s = s} r outcome h =
      let (t, e, e') = >>=-eq-done (spawn_on_group_mounted floats address_book s outcome) _ h in
      prepared_as (Steps-trans r (spawn_on_group_mounted-Steps s outcome e)) e'

  prepare-Steps :
      (sv : Supervisor floats) (message : Message floats) (outcome : Outcome ℕ)
      (accepts : Actor floats → Bool) {p : Prepared floats address_book}
      → prepare floats address_book sv message outcome accepts ≡ done p
      → Steps sv (state_of p)
  unfolding prepare
  prepare-Steps sv (validate_config none) outcome accepts h = prepared_as here h
  prepare-Steps sv (validate_config (some config)) outcome accepts h =
      prepared_as (accept_first-Steps sv config sv.control.user_config outcome) h
  prepare-Steps sv (update_config none) outcome accepts h = prepared_as here h
  prepare-Steps sv (update_config (some config)) outcome accepts h =
      after_update-Steps sv.control.is_started (updated-Steps sv config) outcome h
  prepare-Steps sv (subscribe_to_statuses sender forcing) outcome accepts h =
      prepared_as (next here (subscribes sender forcing accepts)) h
  prepare-Steps sv terminate outcome accepts h =
      prepared_as (terminate-Steps sv sv.control.stop_spawning sv.stop_on_terminate refl) h
  prepare-Steps sv ping outcome accepts h = prepared_as here h
  prepare-Steps sv other outcome accepts h = prepared_as here h

  -- Handling a message is a sequence of the steps.
  pub handle-Steps :
      (sv : Supervisor floats) (message : Message floats) (outcome : Outcome ℕ)
      (accepts : Actor floats → Bool) {sv' : Supervisor floats} {out : List Visit × List Response}
      → handle floats address_book sv message outcome accepts ≡ done (sv', out)
      → Steps sv sv'
  unfolding handle
  handle-Steps sv message outcome accepts h =
      let (p, e, e') = >>=-eq-done (prepare floats address_book sv message outcome accepts) _ h in
      Steps-trans (prepare-Steps sv message outcome accepts e) (finish-Steps p e')
