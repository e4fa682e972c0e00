-- ===== src/Utils/Examples.antt =====
-- The theorems about elfo-utils at concrete inputs.
use elfo.Base.{◌+◌, ◌*◌, ◌<◌, max, [], ◌∷◌, arith}
use elfo.Utils.RateLimiter.{sec, RateLimiter}
use elfo.Utils.RateLimiter.Rate.{granted, granted-bounded}

-- Ten requests in a second, and a limiter that gave out the first of them at 5 s.
abbrev ten_rps : RateLimiter
ten_rps = record { step = 100_000_000; period = sec; vtime = 5_100_000_000 }

granted-bounded_example :
    granted ten_rps (5_200_000_000 ∷ 6_000_000_000 ∷ []) * ten_rps.step
      + max ten_rps.vtime 5_000_000_000
    < 6_000_000_000 + ten_rps.period + ten_rps.step
granted-bounded_example =
    granted-bounded 5_000_000_000 6_000_000_000 ten_rps (5_200_000_000 ∷ 6_000_000_000 ∷ [])
      (record {
        positive = omega arith;
        positive_period = omega arith;
        enabled = omega arith;
        vtime_bounded = omega arith;
        no_overflow = omega arith;
      })
      (omega arith) (omega arith, omega arith, (omega arith, omega arith, tt))
