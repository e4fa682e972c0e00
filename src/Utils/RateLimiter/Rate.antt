-- ===== src/Utils/RateLimiter/Rate.antt =====
-- How many permits a limiter gives out over a time.
use native.Mathlib.Nat.{mod-lt, mod-eq_of_lt, div-add-mod}
use elfo.Base.{
  ℕ, ◌+◌, ◌-◌, ◌*◌, ◌/◌, ◌^◌, ◌≤◌, ◌<◌, max, ◌≡◌, subst, Bool, true, false, List, [], ◌∷◌, arith,
  if◌then◌else◌,
}
use elfo.Utils.RateLimiter.{
  custom, disabled_step, calculate_step, step_and_period, RateLimiter, new, acquire,
}

-- The permits of the calls at the given times.
abbrev pub granted : RateLimiter → List ℕ → ℕ
granted l [] = 0
granted l (now ∷ ts) = (if (acquire l now).1 then 1 else 0) + granted (acquire l now).0 ts

abbrev pub Within : ℕ → ℕ → List ℕ → Type 0
Within start last [] = Unit {0}
Within start last (t ∷ ts) = (start ≤ t) × (t ≤ last) × Within start last ts

-- A limiter with a step of its own, and numbers that do not reach 2^64 up to the time `last`.
pub record IsLimited (last : ℕ) (l : RateLimiter) : Type 0 where
  pub positive : 0 < l.step
  pub positive_period : 0 < l.period
  pub enabled : l.step < disabled_step
  pub vtime_bounded : l.vtime < last + l.period + l.step
  pub no_overflow : last + l.period + l.step < 2 ^ 64

acquire_lem :
    (start last now : ℕ) (l : RateLimiter)
    → IsLimited last l
    → start ≤ now
    → now ≤ last
    → let (l', ok) = acquire l now in
      (IsLimited last l')
      × (l'.step ≡ l.step)
      × (l'.period ≡ l.period)
      × ((if ok then l.step else 0) + max l.vtime start ≤ max l'.vtime start)
unfolding acquire
acquire_lem start last now l v p q = ground arith

-- One permit more takes one step more of the virtual time.
spend :
    (ok : Bool) (g step v v' last : ℕ) {period period' : ℕ}
    → (if ok then step else 0) + v ≤ v'
    → g * step + v' < last + period' + step
    → period' ≡ period
    → ((if ok then 1 else 0) + g) * step + v < last + period + step
spend true g step v v' last a b c = grind arith
spend false g step v v' last a b c = grind arith

-- The permits given out between two times, each of them a step long, fit between the first time
-- (or the virtual time that the limiter starts from, if it is later) and the last time, with one
-- period and one step more. The limiter must be neither unlimited nor disabled and its numbers must
-- not overflow.
pub granted-bounded :
    (start last : ℕ) (l : RateLimiter) (ts : List ℕ)
    → IsLimited last l
    → start ≤ last
    → Within start last ts
    → granted l ts * l.step + max l.vtime start < last + l.period + l.step
granted-bounded start last l [] v p w = omega (arith, v.positive)
granted-bounded start last l (now ∷ ts) v p w =
    let (v', same_step, same_period, gained) = acquire_lem start last now l v w.0 w.1 in
    spend (acquire l now).1 (granted (acquire l now).0 ts) l.step (max l.vtime start)
      (max (acquire l now).0.vtime start) last gained
      (subst
        (λ (k : ℕ).
          granted (acquire l now).0 ts * k + max (acquire l now).0.vtime start
          < last + (acquire l now).0.period + k)
        same_step (granted-bounded start last (acquire l now).0 ts v' p w.2))
      same_period

div_le : (d n : ℕ) → 0 < d → n / d ≤ n
div_le d n h = grind (arith, div-add-mod n d)

ceiling : (n d : ℕ) → 0 < d → n ≤ ((n - 1) / d + 1) * d
ceiling n d h = grind (arith, div-add-mod (n - 1) d, mod-lt (n - 1) h)

few :
    (g step limit period now : ℕ)
    → g * step + max 0 now < now + period + step
    → period ≤ step * limit
    → g ≤ limit
few g step limit period now a b = grind arith

calculate_step_covers :
    (limit period : ℕ) → 0 < limit → limit < period → period ≤ calculate_step limit period * limit
unfolding calculate_step
calculate_step_covers limit period p q = ground (arith, ceiling period limit)

calculate_step_bounds :
    (limit period : ℕ)
    → 0 < limit
    → limit < period
    → (0 < calculate_step limit period) × (calculate_step limit period ≤ period)
unfolding calculate_step
calculate_step_bounds limit period p q = ground (arith, div_le limit (period - 1) p)

period_fits : (period now : ℕ) → now + period + period < 2 ^ 64 → period < 2 ^ 64
period_fits period now h = omega arith

-- A new limiter for `limit` requests in a period of `period` nanoseconds gives out no more than
-- `limit` permits at one moment, however often it is asked.
burst-le-limit :
    (limit period now : ℕ) (ts : List ℕ)
    → 0 < limit
    → limit < period
    → now + period + period < 2 ^ 64
    → Within now now ts
    → granted (new (custom limit period)) ts ≤ limit
unfolding new step_and_period
burst-le-limit limit period now ts p q h w =
    let step = calculate_step limit period in
    let l : RateLimiter = record { step = step; period = period; vtime = 0 } in
    let (some_step, le_period) = calculate_step_bounds limit period p q in
    let limited : IsLimited now l = record {
      positive = some_step;
      positive_period = omega arith;
      enabled = omega arith;
      vtime_bounded = omega arith;
      no_overflow = omega arith;
    } in
    rw (mod-eq_of_lt (period_fits period now h)) (
      few (granted l ts) step limit period now
        (granted-bounded now now l ts limited (omega arith) w)
        (calculate_step_covers limit period p q))
