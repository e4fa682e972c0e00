-- ===== src/Core/Supervisor.antt =====
-- elfo-core/src/supervisor.rs: the actors of a group. Actors and configurations are what the
-- supervisor reads of them. The router's answer, whether a report of a status is accepted and the
-- time are arguments. The address book is the list of its addresses. Scopes, runtimes, telemetry and
-- logging are left out; a task that is started is recorded.
use elfo.Base.{
  ℕ, ◌≡◌, Bool, true, false, not, ◌&&◌, ◌||◌, Option, none, some, List, [], ◌∷◌, ◌++◌, map, ◌==◌,
  if◌then◌else◌, Run, done, panic, ◌>>=◌,
}
use elfo.Base.Assoc.{find, delete, insert}
use elfo.Core.Routing.{
  Outcome, unicast, gentle_unicast, multicast, gentle_multicast, broadcast, discard, default,
  or_outcome,
}
use elfo.Core.Restarting.{
  ActorStatusKind, initializing, Floats, RestartBackoff, RestartMode, WhenConfig, restart_after,
}
pub mod Steps
pub mod Stopping
pub mod Addresses

pub data StartInfo : Type 0 where
  on_message on_group_mounted on_restart : StartInfo

-- What a visitor of the group is told: an actor, the last actor, that there is none, or that the
-- supervisor has handled the message itself.
pub data Visit : Type 0 where
  visited : ℕ → Visit
  visited_last : ℕ → Visit
  visited_none : Visit
  handled : Visit

pub data Response : Type 0 where
  accepted rejected : Response

abbrev pub mem : ℕ → List ℕ → Bool
mem a [] = false
mem a (b ∷ bs) = b == a || mem a bs

-- The entry of the address book for a new actor: its address is not used.
pub record AddressBook : Type 0 where
  pub vacant : List ℕ → ℕ
  pub vacant-unused : (addrs : List ℕ) → mem (vacant addrs) addrs ≡ false

abbrev pub or_skip : {A : Type 0} → Option A → List A → List A
or_skip none others = others
or_skip (some a) others = a ∷ others

module _ (floats : Floats) where
  pub record SystemConfig : Type 0 where
    pub mailbox_capacity : ℕ
    pub restart_config : Option (WhenConfig floats)

  pub record AnyConfig : Type 0 where
    pub system : SystemConfig
    pub user : ℕ

  -- A configuration that cannot be decoded is `none`.
  pub data Message : Type 0 where
    validate_config : Option AnyConfig → Message
    update_config : Option AnyConfig → Message
    subscribe_to_statuses : ℕ → Bool → Message
    terminate : Message
    ping : Message
    other : Message

  pub record Actor : Type 0 where
    pub addr : ℕ
    pub capacity : ℕ
    pub own_policy : Option (RestartMode floats)
    pub status : ActorStatusKind
    pub start_info : StartInfo
    pub actor_config : ℕ

  pub record Control : Type 0 where
    pub system_config : SystemConfig
    pub user_config : Option ℕ
    pub is_started : Bool
    pub stop_spawning : Bool

  pub record Supervisor : Type 0 where
    pub restart_policy : RestartMode floats
    pub stop_on_terminate : Bool
    pub control : Control
    pub objects : List (ℕ × Actor)
    pub book : List ℕ
    pub tasks : List (ℕ × ℕ)
    pub subscribers : List ℕ

  unfoldable pub new_supervisor : RestartMode floats → Bool → SystemConfig → Supervisor
  new_supervisor policy stop_on_terminate default_config = record {
    restart_policy = policy;
    stop_on_terminate = stop_on_terminate;
    control = record {
      system_config = default_config;
      user_config = none;
      is_started = false;
      stop_spawning = false;
    };
    objects = [];
    book = [];
    tasks = [];
    subscribers = [];
  }

module _ (floats : Floats) (address_book : AddressBook) where
  open address_book use {vacant}

  -- The start of an actor's task with a configuration that is set.
  abbrev pub start_actor :
      Supervisor floats → ℕ → StartInfo → Option ℕ → Run (Supervisor floats × Option (Actor floats))
  start_actor sv key info none = panic
  start_actor sv key info (some user) =
      let addr = vacant sv.book in
      let actor : Actor floats = record {
        addr = addr;
        capacity = sv.control.system_config.mailbox_capacity;
        own_policy = none;
        status = initializing;
        start_info = info;
        actor_config = user;
      } in
      done (record sv { book = addr ∷ sv.book; tasks = (key, addr) ∷ sv.tasks }, some actor)

  unfoldable pub spawn :
      Supervisor floats → ℕ → StartInfo → Run (Supervisor floats × Option (Actor floats))
  spawn sv key info =
      if sv.control.stop_spawning
      then done (sv, none)
      else start_actor sv key info sv.control.user_config

  abbrev pub store :
      ℕ → Supervisor floats × Option (Actor floats) → Supervisor floats × Option (Actor floats)
  store key (sv, none) = (sv, none)
  store key (sv, some actor) = (record sv { objects = insert sv.objects key actor }, some actor)

  abbrev pub or_spawn :
      Supervisor floats
      → ℕ
      → StartInfo
      → Option (Actor floats)
      → Run (Supervisor floats × Option (Actor floats))
  or_spawn sv key info (some actor) = done (sv, some actor)
  or_spawn sv key info none = spawn sv key info >>= (λ s. done (store key s))

  unfoldable pub get_or_spawn :
      Supervisor floats → ℕ → StartInfo → Run (Supervisor floats × Option (Actor floats))
  unfolding spawn
  get_or_spawn sv key info = or_spawn sv key info (find sv.objects key)

  unfoldable pub spawn_all : Supervisor floats → List ℕ → StartInfo → Run (Supervisor floats)
  unfolding get_or_spawn
  spawn_all sv [] info = done sv
  spawn_all sv (key ∷ keys) info =
      get_or_spawn sv key info >>= (λ (sv', actor). spawn_all sv' keys info)

  unfoldable pub spawn_on_group_mounted : Supervisor floats → Outcome ℕ → Run (Supervisor floats)
  unfolding spawn_all
  spawn_on_group_mounted sv (unicast key) = spawn_all sv (key ∷ []) on_group_mounted
  spawn_on_group_mounted sv (multicast keys) = spawn_all sv keys on_group_mounted
  spawn_on_group_mounted sv (gentle_unicast key) = done sv
  spawn_on_group_mounted sv (gentle_multicast keys) = done sv
  spawn_on_group_mounted sv broadcast = done sv
  spawn_on_group_mounted sv discard = done sv
  spawn_on_group_mounted sv default = done sv

  abbrev pub capacities : ℕ → List (ℕ × Actor floats) → List (ℕ × Actor floats)
  capacities n [] = []
  capacities n ((key, actor) ∷ objects) =
      (key, record actor { capacity = n }) ∷ capacities n objects

  -- `update_config` without the update of the router and of the scope.
  unfoldable pub set_config : Supervisor floats → AnyConfig floats → Supervisor floats
  set_config sv config =
      let old = sv.control.system_config.mailbox_capacity in
      let new = config.system.mailbox_capacity in
      record sv {
        control = record (sv.control) {
          system_config = config.system;
          user_config = some (config.user);
        };
        objects = (if old == new then sv.objects else capacities new sv.objects);
      }

  -- The reports of statuses until one is not accepted, and whether all are.
  abbrev pub report : (Actor floats → Bool) → List (ℕ × Actor floats) → List ℕ × Bool
  report accepts [] = ([], true)
  report accepts ((key, actor) ∷ objects) =
      let (reported, all) = report accepts objects in
      if accepts actor then (actor.addr ∷ reported, all) else ([], false)

  abbrev pub remove : ℕ → List ℕ → List ℕ
  remove a [] = []
  remove a (b ∷ bs) = let rest = remove a bs in if b == a then rest else b ∷ rest

  unfoldable pub subscribe :
      Supervisor floats → ℕ → Bool → (Actor floats → Bool) → Supervisor floats × List ℕ
  subscribe sv addr forcing accepts =
      let is_new = not (mem addr sv.subscribers) in
      let subscribers = if is_new then sv.subscribers ++ addr ∷ [] else sv.subscribers in
      let (reported, all) = report accepts sv.objects in
      if not is_new && not forcing then (sv, []) else (
        record sv { subscribers = (if all then subscribers else remove addr subscribers) },
        reported,
      )

  unfoldable pub visit_multiple : List (Actor floats) → List Visit
  visit_multiple [] = visited_none ∷ []
  visit_multiple (a ∷ []) = visited_last (a.addr) ∷ []
  visit_multiple (a ∷ b ∷ actors) = visited (a.addr) ∷ visit_multiple (b ∷ actors)

  -- The actors of the keys that have one.
  abbrev pub actors_of : List (ℕ × Actor floats) → List ℕ → List (Actor floats)
  actors_of objects [] = []
  actors_of objects (key ∷ keys) = or_skip (find objects key) (actors_of objects keys)

  abbrev pub visit_one : Option (Actor floats) → List Visit
  visit_one none = visited_none ∷ []
  visit_one (some actor) = visited_last (actor.addr) ∷ []

  -- The second half of `handle`, for the outcome of the first.
  unfoldable pub deliver : Supervisor floats → Outcome ℕ → Run (Supervisor floats × List Visit)
  unfolding get_or_spawn spawn_all visit_multiple
  deliver sv (unicast key) =
      get_or_spawn sv key on_message >>= (λ (sv', actor). done (sv', visit_one actor))
  deliver sv (gentle_unicast key) = done (sv, visit_one (find sv.objects key))
  deliver sv (multicast keys) =
      spawn_all sv keys on_message
      >>= (λ sv'. done (sv', visit_multiple (actors_of sv'.objects keys)))
  deliver sv (gentle_multicast keys) = done (sv, visit_multiple (actors_of sv.objects keys))
  deliver sv broadcast = done (sv, visit_multiple (map (λ o. o.1) sv.objects))
  deliver sv discard = done (sv, visited_none ∷ [])
  deliver sv default = panic

  -- What a message leads to before it is delivered: the supervisor answers it, or it goes on with an
  -- outcome.
  pub data Prepared : Type 0 where
    answers : Supervisor floats → List Response → Prepared
    goes_on : Supervisor floats → Outcome ℕ → Prepared

  abbrev pub accept_first : Supervisor floats → AnyConfig floats → Option ℕ → Outcome ℕ → Prepared
  accept_first sv config none outcome = answers (set_config sv config) (accepted ∷ [])
  accept_first sv config (some user) outcome = goes_on sv (or_outcome outcome discard)

  abbrev pub is_unset : Option ℕ → Bool
  is_unset none = true
  is_unset (some user) = false

  -- An `UpdateConfig`: the state after the update, with the mark that the group is started.
  abbrev pub updated : Supervisor floats → AnyConfig floats → Supervisor floats
  updated sv config =
      let sv' =
        if sv.control.is_started || is_unset sv.control.user_config
        then set_config sv config
        else sv in
      record sv' { control = record (sv'.control) { is_started = true } }

  -- An update goes on to the actors of a group that was started before; else those are spawned that
  -- the router names.
  abbrev pub after_update : Bool → Supervisor floats → Outcome ℕ → Run Prepared
  after_update true sv outcome = done (goes_on sv (or_outcome outcome broadcast))
  after_update false sv outcome =
      spawn_on_group_mounted sv outcome >>= (λ sv'. done (answers sv' (accepted ∷ [])))

  unfoldable pub prepare :
      Supervisor floats → Message floats → Outcome ℕ → (Actor floats → Bool) → Run Prepared
  unfolding set_config subscribe or_outcome spawn_on_group_mounted
  prepare sv (validate_config none) outcome accepts = done (answers sv (rejected ∷ []))
  prepare sv (validate_config (some config)) outcome accepts =
      done (accept_first sv config sv.control.user_config outcome)
  prepare sv (update_config none) outcome accepts = done (answers sv (rejected ∷ []))
  prepare sv (update_config (some config)) outcome accepts =
      after_update sv.control.is_started (updated sv config) outcome
  prepare sv (subscribe_to_statuses sender forcing) outcome accepts =
      done (answers (subscribe sv sender forcing accepts).0 [])
  prepare sv terminate outcome accepts =
      let stop = sv.control.stop_spawning || sv.stop_on_terminate in
      done (
        goes_on (record sv { control = record (sv.control) { stop_spawning = stop } })
          (or_outcome outcome broadcast))
  prepare sv ping outcome accepts = done (goes_on sv (or_outcome outcome broadcast))
  prepare sv other outcome accepts = done (goes_on sv (or_outcome outcome discard))

  abbrev pub finish : Prepared → Run (Supervisor floats × (List Visit × List Response))
  finish (answers sv responses) = done (sv, (handled ∷ [], responses))
  finish (goes_on sv outcome) = deliver sv outcome >>= (λ (sv', visits). done (sv', (visits, [])))

  unfoldable pub handle :
      Supervisor floats
      → Message floats
      → Outcome ℕ
      → (Actor floats → Bool)
      → Run (Supervisor floats × (List Visit × List Response))
  unfolding prepare deliver
  handle sv message outcome accepts = prepare sv message outcome accepts >>= finish

  -- An actor of the supervisor has ended with a status: the status is set, and the policies decide on
  -- a restart after a delay.
  abbrev pub decide :
      Supervisor floats
      → ℕ
      → ActorStatusKind
      → RestartBackoff
      → ℕ
      → Option (Actor floats)
      → Run (Supervisor floats × (RestartBackoff × Option ℕ))
  decide sv key status b now none = panic
  decide sv key status b now (some actor) = done (
    record sv { objects = insert sv.objects key (record actor { status = status }) },
    restart_after floats actor.own_policy sv.control.system_config.restart_config sv.restart_policy
        sv.control.stop_spawning status b now,
  )

  unfoldable pub ended :
      Supervisor floats
      → ℕ
      → ActorStatusKind
      → RestartBackoff
      → ℕ
      → Run (Supervisor floats × (RestartBackoff × Option ℕ))
  unfolding restart_after
  ended sv key status b now = decide sv key status b now (find sv.objects key)

  abbrev pub put_back : Supervisor floats × Option (Actor floats) → ℕ → Supervisor floats
  put_back (sv, none) key = record sv { objects = delete sv.objects key }
  put_back (sv, some actor) key = record sv { objects = insert sv.objects key actor }

  abbrev pub if_known : Option (Actor floats) → Supervisor floats → Run (Supervisor floats)
  if_known none sv = panic
  if_known (some actor) sv = done sv

  -- What follows the delay, or the decision that there is no restart: another actor or none takes the
  -- place, and the address of the old one is given up. The code takes no lock around the three; here
  -- nothing comes between them.
  unfoldable pub replace : Supervisor floats → ℕ → ℕ → Bool → Run (Supervisor floats)
  unfolding spawn
  replace sv key addr restart =
      (if restart then spawn sv key on_restart else done (sv, none)) >>= (λ (sv', actor).
        if_known (find sv.objects key)
          (record (put_back (sv', actor) key) { book = remove addr sv'.book }))
