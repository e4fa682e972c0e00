-- ===== src/Core/Tracing/Accepted.antt =====
-- elfo-core/src/tracing/validator.rs: what the validator accepts.
use elfo.Core.Tracing.Layouts.{timestamp_field}
use elfo.Base.{
  ℕ, zero, suc, ◌/◌, ◌%◌, ◌^◌, ◌≤◌, ◌<◌, ◌≡◌, refl, ◌∙◌, ◌⊎◌, inl, inr, false, Option, some, arith,
  ltb, leb, ◌==◌, Bool-cases,
}
use elfo.Base.Bits.{bit_and-above, bit_and-highest}
use elfo.Core.Tracing.{
  try_from, as_secs, truncated, abs_delta, cannot_be_zero, highest_bit_must_be_zero,
  invalid_timestamp, exceeds, check_time, validate,
}

zero-rejected : (lag : Option ℕ) (now : ℕ) → validate lag now 0 ≡ inl cannot_be_zero
unfolding validate try_from
zero-rejected lag now = refl

high-rejected :
    (lag : Option ℕ) (now raw : ℕ)
    → 2 ^ 63 ≤ raw
    → raw < 2 ^ 64
    → validate lag now raw ≡ inl highest_bit_must_be_zero
unfolding validate try_from
high-rejected lag now raw p q =
    let not_zero : (raw == 0) ≡ false = ground arith in
    let high = bit_and-highest 63 raw p q in rw not_zero (rw high refl)

timed :
    (lag : Option ℕ) (now raw : ℕ)
    → 0 < raw
    → raw < 2 ^ 63
    → validate lag now raw ≡ check_time lag now raw
unfolding validate try_from
timed lag now raw p q =
    let not_zero : (raw == 0) ≡ false = ground arith in
    let low = bit_and-above 63 raw q in rw not_zero (rw low refl)

check_time-cases :
    (time_lag now raw : ℕ)
    → let delta = abs_delta (truncated now) (raw / 2 ^ 38 % 2 ^ 25) in
      let result = check_time (some time_lag) now raw in
      (((2 ^ 63 ≤ time_lag / 1000000000) ⊎ (time_lag / 1000000000 < delta))
        × (result ≡ inl invalid_timestamp))
      ⊎ ((time_lag / 1000000000 < 2 ^ 63) × (delta ≤ time_lag / 1000000000) × (result ≡ inr raw))
unfolding exceeds
check_time-cases time_lag now raw =
    let delta = abs_delta (truncated now) (raw / 2 ^ 38 % 2 ^ 25) in
    let stamp = timestamp_field raw in
    elim (Bool-cases (leb (2 ^ 63) (as_secs time_lag))) [
      | inl negative ↦ inl (inl (ground arith), rw (stamp, negative) refl)
      | inr fits ↦ elim (Bool-cases (ltb (as_secs time_lag) delta)) [
        | inl far ↦ inl (inr (ground arith), rw (stamp, fits, far) refl)
        | inr near ↦ inr (ground arith, ground arith, rw (stamp, fits, near) refl)
      ]
    ]

-- A raw trace id of 64 bits is rejected when it is 0 or its highest bit is set, and also when the
-- time in it differs from the current time, both truncated, by more seconds than those of the
-- allowed difference, or when the latter are at least 2^63. It is accepted unchanged otherwise, whatever node number it
-- has.
pub validate_cases :
    (time_lag now raw : ℕ)
    → raw < 2 ^ 64
    → let delta = abs_delta (truncated now) (raw / 2 ^ 38 % 2 ^ 25) in
      let result = validate (some time_lag) now raw in
      ((raw ≡ 0) × (result ≡ inl cannot_be_zero))
      ⊎ ((2 ^ 63 ≤ raw) × (result ≡ inl highest_bit_must_be_zero))
      ⊎ ((0 < raw)
          × (raw < 2 ^ 63)
          × ((2 ^ 63 ≤ time_lag / 1000000000) ⊎ (time_lag / 1000000000 < delta))
          × (result ≡ inl invalid_timestamp))
      ⊎ ((0 < raw)
          × (raw < 2 ^ 63)
          × (time_lag / 1000000000 < 2 ^ 63)
          × (delta ≤ time_lag / 1000000000)
          × (result ≡ inr raw))
validate_cases time_lag now zero fits = inl (refl, zero-rejected (some time_lag) now)
validate_cases time_lag now (suc n) fits = elim (Bool-cases (leb (2 ^ 63) (suc n))) [
  | inl high ↦
      let p : 2 ^ 63 ≤ suc n = ground arith in
      inr (inl (p, high-rejected (some time_lag) now (suc n) p fits))
  | inr low ↦
      let pos : 0 < suc n = omega arith in
      let q : suc n < 2 ^ 63 = ground arith in
      let same = timed (some time_lag) now (suc n) pos q in
      elim (check_time-cases time_lag now (suc n)) [
        | inl (why, fails) ↦ inr (inr (inl (pos, q, why, same ∙ fails)))
        | inr (small, near, passes) ↦ inr (inr (inr (pos, q, small, near, same ∙ passes)))
      ]
]
