-- ===== src/Core/TracingExamples.antt =====
-- The theorems about trace ids at concrete inputs.
use elfo.Base.{
  ℕ, ◌+◌, ◌-◌, ◌*◌, ◌/◌, ◌%◌, ◌^◌, ◌≤◌, ◌<◌, ◌≡◌, refl, ◌⊎◌, inl, inr, none, some, arith, done,
}
use elfo.Core.Tracing.{
  TraceId, try_from, from_layout, truncated, abs_delta, make_bottom, Generator, get_time,
  generator_default, next_chunk, generate, cannot_be_zero, highest_bit_must_be_zero,
  invalid_timestamp, exceeds, validate,
}
use elfo.Core.Tracing.Accepted.{validate_cases}
use elfo.Core.Tracing.Validity.{IsGenerator, generated_is_valid}

abbrev some_id : TraceId
some_id = 5 * 2 ^ 38 + 3 * 2 ^ 22 + 7

-- One second before the truncated time wraps around.
abbrev before_wrap : ℕ
before_wrap = (2 ^ 25 - 1) * 1000000000

abbrev fresh : Generator
fresh = generator_default 0 before_wrap

fresh-IsGenerator : IsGenerator fresh before_wrap
unfolding generator_default
fresh-IsGenerator = record {
  current = refl;
  node_fits = omega arith;
  chunk_fits = omega arith;
  counter_fits = omega arith;
}

generated_is_valid_example :
    (g' : Generator) × (registry' : ℕ) × (id : TraceId) × (time : ℕ) × (generate fresh 4097
        (some 3)
        2000000000
        (before_wrap + 2000000000)
      ≡ done ((g', registry'), id))
    × (validate (some 5000000000) (before_wrap + 4000000000) id ≡ inr id)
    × ((time ≡ before_wrap) ⊎ (time ≡ before_wrap + 2000000000))
    × IsGenerator g' time
generated_is_valid_example =
    generated_is_valid fresh 4097 (some 3) 5000000000 before_wrap 2000000000
      (before_wrap + 2000000000) (before_wrap + 4000000000) fresh-IsGenerator (omega arith)
      (omega arith) (omega arith) (omega arith) (omega arith)

-- The first trace id of a generator without a node number, in full.
generate_test :
    generate fresh 4097 none 0 before_wrap
    ≡ done ((record fresh { chunk_no = 1; counter = 1 }, 4098), 1025 + (2 ^ 25 - 1) * 2 ^ 38)
unfolding generate generator_default get_time next_chunk make_bottom from_layout truncated try_from
generate_test = refl

-- A difference of 2^63 seconds is negative as an i64, and every trace id is rejected.
huge_lag_test :
    validate (some (2 ^ 63 * 1000000000)) (5 * 1000000000) some_id ≡ inl invalid_timestamp
unfolding validate exceeds try_from
huge_lag_test = refl

-- A trace id of the sixth second is too new at the start, with five seconds allowed.
validate_cases_example :
    let raw = 6 * 2 ^ 38 in
    let delta = abs_delta (truncated 0) (raw / 2 ^ 38 % 2 ^ 25) in
    let result = validate (some 5000000000) 0 raw in
    ((raw ≡ 0) × (result ≡ inl cannot_be_zero))
    ⊎ ((2 ^ 63 ≤ raw) × (result ≡ inl highest_bit_must_be_zero))
    ⊎ ((0 < raw)
        × (raw < 2 ^ 63)
        × ((2 ^ 63 ≤ 5000000000 / 1000000000) ⊎ (5000000000 / 1000000000 < delta))
        × (result ≡ inl invalid_timestamp))
    ⊎ ((0 < raw)
        × (raw < 2 ^ 63)
        × (5000000000 / 1000000000 < 2 ^ 63)
        × (delta ≤ 5000000000 / 1000000000)
        × (result ≡ inr raw))
validate_cases_example = validate_cases 5000000000 0 (6 * 2 ^ 38) (omega arith)
