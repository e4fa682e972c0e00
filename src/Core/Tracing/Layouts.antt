-- ===== src/Core/Tracing/Layouts.antt =====
-- elfo-core/src/tracing/trace_id.rs: the fields of a trace id.
use Prim.Native.Nat.{bit_and, bit_or}
use elfo.Base.{ℕ, ◌+◌, ◌-◌, ◌*◌, ◌/◌, ◌%◌, ◌^◌, ◌<◌, ◌≡◌, ap, ◌∙◌, arith, done}
use elfo.Base.Bits.{bit_or-disjoint, bit_and-ones, bit_or_comm}
use elfo.Core.Addr.{non_zero}
use elfo.Core.Tracing.{TraceId, TraceIdLayout, node_bits, from_layout, to_layout}

-- Three fields side by side.
pub join_fields :
    (t n b : ℕ)
    → n < 2 ^ 16
    → b < 2 ^ 22
    → bit_or (bit_or (t * 2 ^ 38) (n * 2 ^ 22)) b ≡ b + n * 2 ^ 22 + t * 2 ^ 38
join_fields t n b p q =
    let inner = bit_or_comm (t * 2 ^ 38) (n * 2 ^ 22) in
    let middle = bit_or-disjoint 38 (n * 2 ^ 22) t (omega arith) in
    let low = bit_or-disjoint 22 b (n + t * 2 ^ 16) q in
    let outer = bit_or_comm ((n + t * 2 ^ 16) * 2 ^ 22) b in
    let same : n * 2 ^ 22 + t * 2 ^ 38 ≡ (n + t * 2 ^ 16) * 2 ^ 22 = omega arith in
    rw (inner, middle, same, outer, low) (omega arith)

pub timestamp_field : (raw : ℕ) → (to_layout raw).timestamp ≡ raw / 2 ^ 38 % 2 ^ 25
unfolding to_layout
timestamp_field raw = omega (arith, bit_and-ones 25 (raw / 2 ^ 38 % 2 ^ 32))

bottom_field : (raw : ℕ) → (to_layout raw).bottom ≡ raw % 2 ^ 22
unfolding to_layout
bottom_field raw = omega (arith, bit_and-ones 22 raw)

node_bits-non_zero : (n : ℕ) → node_bits (non_zero n) ≡ n
node_bits-non_zero n = ground arith

node_field : (raw : ℕ) → node_bits (to_layout raw).node_part ≡ raw / 2 ^ 22 % 2 ^ 16
unfolding to_layout
node_field raw =
    let bits = bit_and (raw / 2 ^ 22) (2 ^ 16 - 1) % 2 ^ 16 in
    omega (arith, bit_and-ones 16 (raw / 2 ^ 22), node_bits-non_zero bits)

pub from_layout-eq :
    (layout : TraceIdLayout)
    → layout.timestamp < 2 ^ 25
    → node_bits layout.node_part < 2 ^ 16
    → 0 < layout.bottom
    → layout.bottom < 2 ^ 22
    → from_layout layout
      ≡ done (layout.bottom + node_bits layout.node_part * 2 ^ 22 + layout.timestamp * 2 ^ 38)
unfolding from_layout
from_layout-eq layout t n pos b =
    let fits : layout.timestamp * 2 ^ 38 % 2 ^ 64 ≡ layout.timestamp * 2 ^ 38 = omega arith in
    rw (fits, join_fields layout.timestamp (node_bits layout.node_part) layout.bottom n b)
      (ground arith)

-- The layout of a trace id of 63 bits whose bottom part is not 0 makes the same trace id.
layout_round_trip :
    (id : TraceId) → id < 2 ^ 63 → 0 < id % 2 ^ 22 → from_layout (to_layout id) ≡ done id
layout_round_trip id h pos =
    let t = timestamp_field id in
    let n = node_field id in
    let b = bottom_field id in
    from_layout-eq (to_layout id) (omega arith) (omega arith) (omega arith) (omega arith)
    ∙ ap done (omega arith)
