-- ===== src/Core/Interval.antt =====
-- elfo-core/src/time/interval.rs: a source of messages in periods. Times and durations are numbers of
-- nanoseconds; the latest instant, whether a `Sleep` with a deadline has elapsed at a time and
-- `far_future` are parameters. A source that was terminated refuses its lock, which ends the methods early
-- (elfo-core/src/source.rs). Trace ids are left out.
use elfo.Base.{
  ℕ, suc, ◌+◌, ◌-◌, Bool, true, false, not, Option, none, some, List, [], ◌∷◌, ltb, ◌==◌, ◌||◌,
  if◌then◌else◌, Run, done, panic, ◌>>=◌,
}
pub mod Plan

pub record IntervalSource (M : Type 0) : Type 0 where
  pub message : M
  pub period : ℕ
  pub is_delayed : Bool
  pub deadline : ℕ
  pub is_terminated : Bool
  -- How often the stream has been woken.
  pub wakes : ℕ

abbrev pub never : ℕ
never = 0

-- The assertion that a period is not zero.
abbrev pub nonzero : {A : Type 0} → ℕ → Run A → Run A
nonzero period rest = if period == never then panic else rest

-- `Instant - Duration`.
abbrev pub instant_sub : ℕ → ℕ → Run ℕ
instant_sub t d = if ltb t d then panic else done (t - d)

-- `Instant + Duration`.
abbrev pub instant_add : ℕ → ℕ → ℕ → Run ℕ
instant_add latest t d = if ltb latest (t + d) then panic else done (t + d)

abbrev pub is_some : Option ℕ → Bool
is_some none = false
is_some (some t) = true

abbrev pub unwrap_or_else : Option ℕ → Run ℕ → Run ℕ
unwrap_or_else none t = t
unwrap_or_else (some t) u = done t

module _ {M : Type 0} (far_future : ℕ) where
  unfoldable pub new_interval : M → IntervalSource M
  new_interval message = record {
    message = message;
    period = never;
    is_delayed = false;
    deadline = far_future;
    is_terminated = false;
    wakes = 0;
  }

module _ {M : Type 0} where
  -- `ward!(self.source.lock())`.
  abbrev pub if_alive : IntervalSource M → IntervalSource M → IntervalSource M
  if_alive s s' = if s.is_terminated then s else s'

  unfoldable pub set_message : IntervalSource M → M → IntervalSource M
  set_message s message = if_alive s (record s { message = message })

  unfoldable pub terminate : IntervalSource M → IntervalSource M × Bool
  terminate s =
      if s.is_terminated
      then (s, false)
      else (record s { is_terminated = true; wakes = suc s.wakes }, true)

module _ {M : Type 0} (latest : ℕ) where
  abbrev pub move_deadline : IntervalSource M → ℕ → Run (IntervalSource M)
  move_deadline s period = instant_sub s.deadline s.period >>= (λ origin.
      instant_add latest origin period >>= (λ deadline.
        done (record s { deadline = deadline; period = period; wakes = suc s.wakes })))

  abbrev pub change_period : IntervalSource M → ℕ → Run (IntervalSource M)
  change_period s period =
      if s.period == never || period == s.period
      then done s
      else (if not s.is_delayed
          then move_deadline s period
          else done (record s { period = period }))

  unfoldable pub set_period : IntervalSource M → ℕ → Run (IntervalSource M)
  set_period s period = nonzero period (if s.is_terminated then done s else change_period s period)

  unfoldable pub schedule : IntervalSource M → Option ℕ → ℕ → ℕ → Run (IntervalSource M)
  schedule s when now period =
      if s.is_terminated
      then done s
      else (unwrap_or_else when (instant_add latest now period) >>= (λ deadline. done (record s {
        is_delayed = is_some when;
        period = period;
        deadline = deadline;
        wakes = suc s.wakes;
      })))

  unfoldable pub start : IntervalSource M → ℕ → ℕ → Run (IntervalSource M)
  unfolding schedule
  start s now period = nonzero period (schedule s none now period)

  unfoldable pub start_at : IntervalSource M → ℕ → ℕ → ℕ → Run (IntervalSource M)
  unfolding schedule
  start_at s when now period = nonzero period (schedule s (some when) now period)

  unfoldable pub start_after : IntervalSource M → ℕ → ℕ → ℕ → Run (IntervalSource M)
  unfolding start_at
  start_after s delay now period =
      instant_add latest now delay >>= (λ when. start_at s when now period)

  unfoldable pub stop : ℕ → IntervalSource M → ℕ → Run (IntervalSource M)
  unfolding schedule
  stop far_future s now = schedule s (some far_future) now never

  -- `poll_recv`; a tick is its message with the deadline at which it was due.
  unfoldable pub poll_recv :
      (ℕ → ℕ → Bool) → IntervalSource M → ℕ → Run (IntervalSource M × Option (ℕ × M))
  poll_recv elapsed s now =
      if s.period == never
      then done (s, none)
      else (if not (elapsed s.deadline now)
          then done (s, none)
          else (instant_add latest s.deadline s.period >>= (λ deadline. done (
            record s { is_delayed = false; deadline = deadline },
            some (s.deadline, s.message),
          ))))

  -- `UntypedSourceArc::poll_next`.
  unfoldable pub poll_next :
      (ℕ → ℕ → Bool) → IntervalSource M → ℕ → Run (IntervalSource M × Option (ℕ × M))
  unfolding poll_recv
  poll_next elapsed s now = if s.is_terminated then done (s, none) else poll_recv elapsed s now
