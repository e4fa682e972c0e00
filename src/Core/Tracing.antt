-- ===== src/Core/Tracing.antt =====
-- elfo-core/src/tracing: trace ids, their layout, generation and validation. A trace id is its bits;
-- times are numbers of nanoseconds, system times since the Unix epoch. The node number of the scope is
-- an argument. The debug assertion on the bottom part is a panic.
use Prim.Native.Nat.{bit_and, bit_or}
use elfo.Base.{
  ℕ, ◌+◌, ◌-◌, ◌*◌, ◌/◌, ◌%◌, ◌^◌, min, ◌⊎◌, inl, inr, Bool, ◌&&◌, ◌||◌, Option, none, some, ltb,
  leb, ◌==◌, if◌then◌else◌, Run, done, panic, ◌>>=◌,
}
use elfo.Core.Addr.{NodeNo, non_zero}
pub mod Layouts
pub mod Validity
pub mod Accepted

abbrev pub TraceId : Type 0
TraceId = ℕ

pub record TraceIdLayout : Type 0 where
  pub timestamp : ℕ
  pub node_part : Option NodeNo
  pub bottom : ℕ

-- `NodeNo::into_bits`, or 0.
abbrev pub node_bits : Option NodeNo → ℕ
node_bits none = 0
node_bits (some n) = n

unfoldable pub try_from : ℕ → Option TraceId
try_from raw = non_zero raw

-- `unwrap`.
abbrev pub unwrap : {A : Type 0} → Option A → Run A
unwrap none = panic
unwrap (some a) = done a

unfoldable pub from_layout : TraceIdLayout → Run TraceId
unfolding try_from
from_layout layout = unwrap (
    try_from (
      bit_or (bit_or (layout.timestamp * 2 ^ 38 % 2 ^ 64) (node_bits layout.node_part * 2 ^ 22))
        layout.bottom))

unfoldable pub to_layout : TraceId → TraceIdLayout
to_layout raw = record {
  timestamp = bit_and (raw / 2 ^ 38 % 2 ^ 32) (2 ^ 25 - 1);
  node_part = non_zero (bit_and (raw / 2 ^ 22) (2 ^ 16 - 1) % 2 ^ 16);
  bottom = bit_and raw (2 ^ 22 - 1) % 2 ^ 32;
}

-- `SystemTime::to_unix_time_secs` and `Duration::as_secs`.
abbrev pub as_secs : ℕ → ℕ
as_secs nanos = nanos / 1000000000

-- `TruncatedTime::now` at a system time.
unfoldable pub truncated : ℕ → ℕ
truncated now = bit_and (as_secs now % 2 ^ 32) (2 ^ 25 - 1)

-- `u32::wrapping_sub`.
abbrev pub wrapping_sub : ℕ → ℕ → ℕ
wrapping_sub a b = (a + 2 ^ 32 - b) % 2 ^ 32

unfoldable pub abs_delta : ℕ → ℕ → ℕ
abs_delta a b =
    min (bit_and (wrapping_sub a b) (2 ^ 25 - 1)) (bit_and (wrapping_sub b a) (2 ^ 25 - 1))

-- `Bottom::from`.
unfoldable pub make_bottom : ℕ → Run ℕ
make_bottom value = if leb 1 value && leb value (2 ^ 22 - 1) then done value else panic

pub record CachedTruncatedTime : Type 0 where
  pub cached : ℕ
  pub when : ℕ

pub record Generator : Type 0 where
  pub own_node : Option NodeNo
  pub clock : CachedTruncatedTime
  pub chunk_no : ℕ
  pub counter : ℕ

-- `CachedTruncatedTime::now` and `get`, at a monotonic and a system time.
abbrev pub cached_now : ℕ → ℕ → CachedTruncatedTime
cached_now mono now = record { cached = truncated now; when = mono }

unfoldable pub get_time : CachedTruncatedTime → ℕ → ℕ → CachedTruncatedTime
get_time c mono now = if leb 1000000000 (mono - c.when) then cached_now mono now else c

unfoldable pub generator_default : ℕ → ℕ → Generator
generator_default mono now = record {
  own_node = none;
  clock = cached_now mono now;
  chunk_no = 0;
  counter = 1023;
}

-- The chunk, and the registry after it.
unfoldable pub next_chunk : ℕ → ℕ × ℕ
next_chunk registry = (bit_and (registry % 2 ^ 32) (2 ^ 12 - 1), (registry + 1) % 2 ^ 64)

-- A new chunk when the old one is exhausted.
abbrev pub with_chunk : Generator → ℕ → Generator × ℕ
with_chunk g registry =
    if g.counter == 1023
    then (record g { chunk_no = (next_chunk registry).0; counter = 0 }, (next_chunk registry).1)
    else (g, registry)

-- The node number of the scope, unless there is one already.
abbrev pub or_node : Option NodeNo → Option NodeNo → Option NodeNo
or_node none scope = scope
or_node (some n) scope = some n

unfoldable pub generate : Generator → ℕ → Option NodeNo → ℕ → ℕ → Run ((Generator × ℕ) × TraceId)
generate g registry scope mono now =
    let (g₁, registry') = with_chunk g registry in
    let g₂ = record g₁ {
      own_node = or_node g₁.own_node scope;
      clock = get_time g₁.clock mono now;
      counter = g₁.counter + 1;
    } in
    make_bottom (bit_or (g₂.chunk_no * 2 ^ 10 % 2 ^ 32) g₂.counter) >>= (λ bottom.
      from_layout (record { timestamp = g₂.clock.cached; node_part = g₂.own_node; bottom = bottom })
      >>= (λ id. done ((g₂, registry'), id)))

pub data TraceIdError : Type 0 where
  cannot_be_zero highest_bit_must_be_zero invalid_timestamp : TraceIdError

-- `i64::from(delta) > time_lag.as_secs() as i64`, with the wrap-around of the cast.
unfoldable pub exceeds : ℕ → ℕ → Bool
exceeds delta time_lag = leb (2 ^ 63) (as_secs time_lag) || ltb (as_secs time_lag) delta

abbrev pub check_time : Option ℕ → ℕ → TraceId → TraceIdError ⊎ TraceId
check_time none now id = inr id
check_time (some time_lag) now id =
    if exceeds (abs_delta (truncated now) (to_layout id).timestamp) time_lag
    then inl invalid_timestamp
    else inr id

abbrev pub check_layout : Option ℕ → ℕ → Option TraceId → TraceIdError ⊎ TraceId
check_layout lag now none = inl cannot_be_zero
check_layout lag now (some id) =
    if bit_and id (2 ^ 63) == 0 then check_time lag now id else inl highest_bit_must_be_zero

-- `validate` with the allowed time difference, at a system time.
unfoldable pub validate : Option ℕ → ℕ → ℕ → TraceIdError ⊎ TraceId
unfolding try_from
validate max_time_difference now raw = check_layout max_time_difference now (try_from raw)
