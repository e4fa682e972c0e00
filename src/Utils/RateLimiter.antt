-- ===== src/Utils/RateLimiter.antt =====
-- elfo-utils/src/rate_limiter.rs. Times are nanoseconds as u64; the time of a call is an argument.
-- Sums wrap as in a release build.
pub mod Rate
use elfo.Base.{ℕ, ◌+◌, ◌-◌, ◌/◌, ◌%◌, ◌^◌, max, Bool, true, false, ltb, leb, ◌==◌, if◌then◌else◌}

-- `Custom` has the period in nanoseconds, before it is cut to 64 bits.
pub data RateLimit : Type 0 where
  unlimited : RateLimit
  rps : ℕ → RateLimit
  custom : ℕ → ℕ → RateLimit

abbrev pub sec : ℕ
sec = 1_000_000_000

abbrev pub unlimited_step : ℕ
unlimited_step = 0

abbrev pub disabled_step : ℕ
disabled_step = 2 ^ 64 - 1

unfoldable pub calculate_step : ℕ → ℕ → ℕ
calculate_step max_rate period =
    if max_rate == 0
    then disabled_step
    else (if leb period max_rate then unlimited_step else (period - 1) / max_rate + 1)

unfoldable pub step_and_period : RateLimit → ℕ × ℕ
unfolding calculate_step
step_and_period unlimited = (calculate_step 1 1, 1)
step_and_period (rps n) = (calculate_step n sec, sec)
step_and_period (custom limit period) = (calculate_step limit (period % 2 ^ 64), period % 2 ^ 64)

pub record RateLimiter : Type 0 where
  pub step : ℕ
  pub period : ℕ
  pub vtime : ℕ

unfoldable pub new : RateLimit → RateLimiter
unfolding step_and_period
new limit =
    let (step, period) = step_and_period limit in record { step = step; period = period; vtime = 0 }

unfoldable pub configure : RateLimiter → RateLimit → RateLimiter
unfolding step_and_period
configure l limit =
    let (step, period) = step_and_period limit in record l { step = step; period = period }

unfoldable pub reset : RateLimiter → RateLimiter
reset l = record l { vtime = 0 }

-- The update of `vtime`, when the step is neither of the special ones.
unfoldable pub acquire_limited : RateLimiter → ℕ → RateLimiter × Bool
acquire_limited l now =
    if ltb l.vtime ((now + l.period) % 2 ^ 64)
    then (record l { vtime = (max l.vtime now + l.step) % 2 ^ 64 }, true)
    else (l, false)

unfoldable pub acquire : RateLimiter → ℕ → RateLimiter × Bool
unfolding acquire_limited
acquire l now =
    if l.step == unlimited_step
    then (l, true)
    else (if l.step == disabled_step then (l, false) else acquire_limited l now)
