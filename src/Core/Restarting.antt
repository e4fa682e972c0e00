-- ===== src/Core/Restarting.antt =====
-- elfo-core/src/restarting, and the decision of elfo-core/src/supervisor.rs to restart an actor. Times
-- are numbers of nanoseconds; the floating-point arithmetic is in the parameter `Floats`. Counts of
-- u64 do not reach their bound. Logging and metrics are left out.
use elfo.Base.{
  ℕ, ◌+◌, ◌-◌, ◌^◌, max, Bool, true, false, not, ◌&&◌, ◌||◌, Option, none, some, ltb, leb,
  if◌then◌else◌,
}
pub mod Retries

pub data ActorStatusKind : Type 0 where
  normal initializing terminating terminated alarming failed : ActorStatusKind

abbrev pub is_failed : ActorStatusKind → Bool
is_failed failed = true
is_failed other = false

-- f64: 2.0, 0.0, `is_finite` and `is_sign_negative`, and the delay for a power of the factor within
-- the bounds of the backoff, if it is finite.
pub record Floats : Type 1 where
  pub F64 : Type 0
  pub two : F64
  pub zero_f64 : F64
  pub is_finite : F64 → Bool
  pub is_sign_negative : F64 → Bool
  pub clamped_delay : ℕ → ℕ → F64 → ℕ → Option ℕ

pub record RestartBackoff : Type 0 where
  pub start_time : ℕ
  pub restart_count : ℕ
  pub power : ℕ

-- `NonZeroU64::MAX`.
abbrev pub unlimited : ℕ
unlimited = 2 ^ 64 - 1

abbrev pub unwrap_or : {A : Type 0} → Option A → A → A
unwrap_or none a = a
unwrap_or (some b) a = b

-- `RestartBackoff::default` and `start`, with the time of the call.
unfoldable pub backoff_default : ℕ → RestartBackoff
backoff_default now = record { start_time = now; restart_count = 0; power = 0 }

unfoldable pub start : RestartBackoff → ℕ → RestartBackoff
start b now = record b { start_time = now }

module _ (floats : Floats) where
  open floats use {F64, two, zero_f64, is_finite, is_sign_negative, clamped_delay}

  pub record RestartParams : Type 0 where
    pub min_backoff : ℕ
    pub max_backoff : ℕ
    pub auto_reset : ℕ
    pub max_retries : ℕ
    pub factor : F64

  pub data RestartMode : Type 0 where
    always : RestartParams → RestartMode
    on_failure : RestartParams → RestartMode
    never : RestartMode

  unfoldable pub new_params : ℕ → ℕ → RestartParams
  new_params min_backoff max_backoff = record {
    min_backoff = min_backoff;
    max_backoff = max min_backoff max_backoff;
    auto_reset = min_backoff;
    max_retries = unlimited;
    factor = two;
  }

  unfoldable pub with_auto_reset : RestartParams → Option ℕ → RestartParams
  with_auto_reset p reset = record p { auto_reset = unwrap_or reset p.auto_reset }

  unfoldable pub with_factor : RestartParams → Option F64 → RestartParams
  with_factor p f =
      let f' = unwrap_or f p.factor in
      record p { factor = (if not (is_finite f') || is_sign_negative f' then zero_f64 else f') }

  unfoldable pub with_max_retries : RestartParams → Option ℕ → RestartParams
  with_max_retries p n = record p { max_retries = unwrap_or n p.max_retries }

  unfoldable pub restarting_allowed : RestartMode → ActorStatusKind → Bool
  restarting_allowed (always p) status = true
  restarting_allowed (on_failure p) status = is_failed status
  restarting_allowed never status = false

  unfoldable pub restart_params : RestartMode → Option RestartParams
  restart_params (always p) = some p
  restart_params (on_failure p) = some p
  restart_params never = none

  -- The configuration of the parameters and of the policy.
  pub record RestartParamsConfig : Type 0 where
    pub min_backoff_config : ℕ
    pub max_backoff_config : ℕ
    pub auto_reset_config : Option ℕ
    pub max_retries_config : Option ℕ
    pub factor_config : Option F64

  pub data WhenConfig : Type 0 where
    always_config : RestartParamsConfig → WhenConfig
    on_failure_config : RestartParamsConfig → WhenConfig
    never_config : WhenConfig

  unfoldable pub make_params : RestartParamsConfig → RestartParams
  make_params c =
      with_max_retries
        (with_auto_reset
          (with_factor (new_params c.min_backoff_config c.max_backoff_config) c.factor_config)
          c.auto_reset_config)
        c.max_retries_config

  unfoldable pub make_policy : Option WhenConfig → Option RestartMode
  make_policy none = none
  make_policy (some (always_config c)) = some (always (make_params c))
  make_policy (some (on_failure_config c)) = some (on_failure (make_params c))
  make_policy (some never_config) = some never

  -- `RestartBackoff::next`, at a time `now`.
  unfoldable pub next : RestartBackoff → RestartParams → ℕ → RestartBackoff × Option ℕ
  next b p now =
      if leb p.auto_reset (now - b.start_time)
      then (record b { restart_count = 1; power = 0 }, some 0)
      else (let b' = record b { restart_count = b.restart_count + 1 } in
          if ltb p.max_retries b'.restart_count then (b', none) else (
            record b' { power = b'.power + 1 },
            some (
                unwrap_or (clamped_delay p.min_backoff p.max_backoff p.factor b'.power)
                  p.max_backoff),
          ))

  -- `restart_params().and_then(|p| backoff.next(&p))`, if restarting is allowed.
  abbrev pub next_if : Bool → Option RestartParams → RestartBackoff → ℕ → RestartBackoff × Option ℕ
  next_if false params b now = (b, none)
  next_if true none b now = (b, none)
  next_if true (some p) b now = next b p now

  -- The supervisor's decision when an actor has ended: the policy of the actor is preferred to that
  -- of the configuration, and that to the policy of the blueprint.
  unfoldable pub restart_after :
      Option RestartMode
      → Option WhenConfig
      → RestartMode
      → Bool
      → ActorStatusKind
      → RestartBackoff
      → ℕ
      → RestartBackoff × Option ℕ
  restart_after own config blueprint stop_spawning status b now =
      let policy = unwrap_or own (unwrap_or (make_policy config) blueprint) in
      next_if (restarting_allowed policy status && not stop_spawning) (restart_params policy) b now
