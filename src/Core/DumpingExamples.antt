-- ===== src/Core/DumpingExamples.antt =====
-- The theorem about dumping at a class that is checked before and after dumping is disabled.
use elfo.Base.{◌≡◌, true, List, [], ◌∷◌, done}
use elfo.Core.DumpingControl.{passed, not_interested, new_control}
use elfo.Core.DumpingControl.Lazy.{classes_seem_eager}
use elfo.Core.DumpingControl.Limiters.{Call, configures, checks, results}
use elfo.Utils.RateLimiter

abbrev some_calls : List Call
some_calls =
    checks 3 1000
    ∷ configures (record { disabled = true; max_rate = 5 })
    ∷ checks 3 2000
    ∷ checks 4 2000
    ∷ []

classes_seem_eager_example :
    results new_control some_calls ≡ done (passed ∷ not_interested ∷ not_interested ∷ [])
unfolding RateLimiter.acquire RateLimiter.acquire_limited RateLimiter.configure RateLimiter.new
    RateLimiter.step_and_period RateLimiter.calculate_step
classes_seem_eager_example = classes_seem_eager some_calls
