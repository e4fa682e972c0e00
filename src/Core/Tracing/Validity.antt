-- ===== src/Core/Tracing/Validity.antt =====
-- elfo-core/src/tracing: what the generator makes, under the validator.
use elfo.Core.Addr.{NodeNo}
use elfo.Core.Tracing.Layouts.{timestamp_field, from_layout-eq}
use Prim.Native.Nat.{bit_or}
use elfo.Base.{
  ℕ, ◌+◌, ◌-◌, ◌*◌, ◌/◌, ◌%◌, ◌^◌, ◌≤◌, ◌<◌, ◌≡◌, refl, ◌⊎◌, inl, inr, false, Option, none, some,
  arith, leb, ◌==◌, Bool-cases, done,
}
use elfo.Base.Bits.{bit_or-disjoint, bit_and-ones, bit_or_comm, bit_and-above}
use elfo.Core.Tracing.{
  TraceId, TraceIdLayout, node_bits, try_from, to_layout, truncated, abs_delta, make_bottom,
  CachedTruncatedTime, Generator, get_time, next_chunk, with_chunk, or_node, generate, exceeds,
  validate,
}

-- A generator whose numbers fit their fields, with a time taken at `since`.
pub record IsGenerator (g : Generator) (since : ℕ) : Type 0 where
  pub current : g.clock.cached ≡ truncated since
  pub node_fits : node_bits g.own_node < 2 ^ 16
  pub chunk_fits : g.chunk_no < 2 ^ 12
  pub counter_fits : g.counter < 2 ^ 10

truncated-eq : (now : ℕ) → truncated now ≡ now / 1000000000 % 2 ^ 25
unfolding truncated
truncated-eq now = omega (arith, bit_and-ones 25 (now / 1000000000 % 2 ^ 32))

abs_delta-le :
    (now since lag : ℕ)
    → since / 1000000000 ≤ now / 1000000000
    → now / 1000000000 ≤ since / 1000000000 + lag
    → abs_delta (truncated now) (truncated since) ≤ lag
unfolding abs_delta
abs_delta-le now since lag p q =
    let a = truncated now in
    let b = truncated since in
    omega (arith, truncated-eq now, truncated-eq since, bit_and-ones 25 ((a + 2 ^ 32 - b) % 2 ^ 32))

exceeds-within :
    (delta time_lag : ℕ)
    → time_lag / 1000000000 < 2 ^ 63
    → delta ≤ time_lag / 1000000000
    → exceeds delta time_lag ≡ false
unfolding exceeds
exceeds-within delta time_lag p q = ground arith

make_bottom-eq :
    (chunk count : ℕ)
    → chunk < 2 ^ 12
    → 0 < count
    → count < 2 ^ 10
    → make_bottom (bit_or (chunk * 2 ^ 10 % 2 ^ 32) count) ≡ done (count + chunk * 2 ^ 10)
unfolding make_bottom
make_bottom-eq chunk count p pos q =
    let fits : chunk * 2 ^ 10 % 2 ^ 32 ≡ chunk * 2 ^ 10 = omega arith in
    rw (fits, bit_or_comm (chunk * 2 ^ 10) count, bit_or-disjoint 10 count chunk q) (ground arith)

validate-valid :
    (id : TraceId) (time_lag since later : ℕ)
    → 0 < id
    → id < 2 ^ 63
    → (to_layout id).timestamp ≡ truncated since
    → since ≤ later
    → time_lag / 1000000000 < 2 ^ 63
    → later / 1000000000 ≤ since / 1000000000 + time_lag / 1000000000
    → validate (some time_lag) later id ≡ inr id
unfolding validate try_from
validate-valid id time_lag since later pos high stamp order small near =
    let not_zero : (id == 0) ≡ false = ground arith in
    let le = abs_delta-le later since (time_lag / 1000000000) (omega arith) near in
    let within = exceeds-within (abs_delta (truncated later) (truncated since)) time_lag small le in
    rw not_zero (rw (bit_and-above 63 id high, stamp, within) refl)

with_chunk-fits :
    (g : Generator) (registry : ℕ)
    → g.chunk_no < 2 ^ 12
    → g.counter < 2 ^ 10
    → let g' = (with_chunk g registry).0 in
      (g'.chunk_no < 2 ^ 12)
      × (g'.counter < 2 ^ 10 - 1)
      × (g'.own_node ≡ g.own_node)
      × (g'.clock ≡ g.clock)
unfolding next_chunk
with_chunk-fits g registry p q =
    let masked = bit_and-ones 12 (registry % 2 ^ 32) in
    elim (Bool-cases (g.counter == 1023)) [
      | inl full ↦ rw full (omega arith, omega arith, refl, refl)
      | inr free ↦ rw free (p, ground arith, refl, refl)
    ]

get_time-truncated :
    (c : CachedTruncatedTime) (mono now since : ℕ)
    → c.cached ≡ truncated since
    → (time : ℕ) × ((time ≡ since) ⊎ (time ≡ now)) × ((get_time c mono now).cached ≡ truncated time)
unfolding get_time
get_time-truncated c mono now since h = elim (Bool-cases (leb 1000000000 (mono - c.when))) [
  | inl old ↦ (now, inr refl, rw old refl)
  | inr recent ↦ (since, inl refl, rw recent h)
]

-- The generator after a call, and the trace id that it returns.
abbrev advanced : Generator → Option NodeNo → ℕ → ℕ → Generator
advanced g scope mono now = record {
  own_node = or_node g.own_node scope;
  clock = get_time g.clock mono now;
  chunk_no = g.chunk_no;
  counter = g.counter + 1;
}

abbrev bits_of : Generator → ℕ
bits_of g =
    g.counter + g.chunk_no * 2 ^ 10 + node_bits g.own_node * 2 ^ 22 + g.clock.cached * 2 ^ 38

generate-eq :
    (g : Generator) (registry : ℕ) (scope : Option NodeNo) (mono now : ℕ)
    → let g₁ = (with_chunk g registry).0 in
      let g₂ = advanced g₁ scope mono now in
      g₁.chunk_no < 2 ^ 12
      → g₁.counter < 2 ^ 10 - 1
      → node_bits g₂.own_node < 2 ^ 16
      → g₂.clock.cached < 2 ^ 25
      → generate g registry scope mono now ≡ done ((g₂, (with_chunk g registry).1), bits_of g₂)
unfolding generate
generate-eq g registry scope mono now p q n t =
    let g₁ = (with_chunk g registry).0 in
    let g₂ = advanced g₁ scope mono now in
    let bottom = g₂.counter + g₂.chunk_no * 2 ^ 10 in
    let layout : TraceIdLayout = record {
      timestamp = g₂.clock.cached;
      node_part = g₂.own_node;
      bottom = bottom;
    } in
    rw (make_bottom-eq g₂.chunk_no g₂.counter p (omega arith) (omega arith))
      (rw (from_layout-eq layout t n (omega arith) (omega arith)) refl)

or_node-fits :
    (own scope : Option NodeNo)
    → node_bits own < 2 ^ 16
    → node_bits scope < 2 ^ 16
    → node_bits (or_node own scope) < 2 ^ 16
or_node-fits none scope p q = q
or_node-fits (some n) scope p q = p

-- A generator makes a trace id, and the validator accepts it at any later time within the allowed
-- difference, also where the truncated time has wrapped around. The times are since the Unix epoch,
-- the generator has taken its cached time at `since`, and the whole seconds of the difference are
-- below 2^63. The validator does not look at the node number. The generator after is again one whose numbers fit, with a time of `since` or of the
-- call.
pub generated_is_valid :
    (g : Generator) (registry : ℕ) (scope : Option NodeNo) (time_lag since mono now later : ℕ)
    → IsGenerator g since
    → node_bits scope < 2 ^ 16
    → since ≤ now
    → now ≤ later
    → time_lag / 1000000000 < 2 ^ 63
    → later / 1000000000 ≤ since / 1000000000 + time_lag / 1000000000
    → (g' : Generator) × (registry' : ℕ) × (id : TraceId) × (time : ℕ) × (generate g registry scope
          mono now
        ≡ done ((g', registry'), id))
      × (validate (some time_lag) later id ≡ inr id)
      × ((time ≡ since) ⊎ (time ≡ now))
      × IsGenerator g' time
generated_is_valid g registry scope time_lag since mono now later ok node order after small near =
    let g₁ = (with_chunk g registry).0 in
    let g₂ = advanced g₁ scope mono now in
    let (chunk, count, own, clock) = with_chunk-fits g registry ok.chunk_fits ok.counter_fits in
    let cached : g₁.clock.cached ≡ truncated since = rw clock ok.current in
    let (time, when, stamp) = get_time-truncated g₁.clock mono now since cached in
    let own_fits : node_bits g₁.own_node < 2 ^ 16 = rw own ok.node_fits in
    let node_fits = or_node-fits g₁.own_node scope own_fits node in
    let cut = truncated-eq time in
    let made = generate-eq g registry scope mono now chunk count node_fits (omega arith) in
    let id = bits_of g₂ in
    let field = timestamp_field id in
    let accepted =
      validate-valid id time_lag time later (omega arith) (omega arith) (omega arith) (ground arith)
        small (ground arith) in
    (
      g₂,
      (with_chunk g registry).1,
      id,
      time,
      made,
      accepted,
      when,
      record {
        current = stamp;
        node_fits = node_fits;
        chunk_fits = chunk;
        counter_fits = omega arith;
      },
    )
