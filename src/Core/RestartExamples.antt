-- ===== src/Core/RestartExamples.antt =====
-- The theorem about restarts at a concrete run; a factor is a natural number.
use elfo.Base.{ℕ, ◌*◌, ◌^◌, min, max, ◌≡◌, refl, true, false, none, some, [], ◌∷◌, arith}
use elfo.Core.Restarting.{
  failed, Floats, backoff_default, RestartParams, on_failure, restarting_allowed, restart_params,
  make_policy,
}
use elfo.Core.Restarting.Retries.{restarts, restarts_counted}

abbrev pub whole_floats : Floats
whole_floats = record {
  F64 = ℕ;
  two = 2;
  zero_f64 = 0;
  is_finite = λ f. true;
  is_sign_negative = λ f. false;
  clamped_delay = λ lo hi f power. some (min (max lo (lo * f ^ power)) hi);
}

abbrev two_retries : RestartParams whole_floats
two_retries = record {
  min_backoff = 5;
  max_backoff = 30;
  auto_reset = 5;
  max_retries = 2;
  factor = 2;
}

-- An actor that fails three times, each time soon after its start.
restarts_counted_example :
    restarts whole_floats none none
      (on_failure two_retries)
      false
      failed
      (1 ∷ 2 ∷ 3 ∷ [])
      (backoff_default 7)
    ≡ 2
unfolding backoff_default restarting_allowed restart_params make_policy
restarts_counted_example =
    restarts_counted whole_floats none none (on_failure two_retries) false failed two_retries
      (1 ∷ 2 ∷ 3 ∷ []) (backoff_default 7) refl refl refl (omega arith)
