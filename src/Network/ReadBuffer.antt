-- ===== src/Network/ReadBuffer.antt =====
-- elfo-network/src/frame/buffers.rs: the buffer that a reader fills from a socket. A violated
-- assertion is a panic; a shift of bytes within the buffer is a list.
use elfo.Base.{
  ℕ, zero, suc, ◌+◌, ◌-◌, ◌≤◌, ◌≡◌, refl, ap, ◌∙◌, true, ◌&&◌, List, ◌++◌, append_assoc, arith, ltb,
  leb, ◌==◌, if◌then◌else◌, length, length-append, take, drop, replicate, length-take, length-drop,
  length-replicate, take-take, take-append_le, Run, done, panic,
}
pub mod Consume

pub record ReadBuffer : Type 0 where
  pub buffer : List ℕ
  pub filled_start : ℕ
  pub filled_end : ℕ

unfoldable pub with_capacity : ℕ → ReadBuffer
with_capacity n = record { buffer = replicate n 0; filled_start = 0; filled_end = 0 }

unfoldable pub filled_len : ReadBuffer → ℕ
filled_len b = b.filled_end - b.filled_start

unfoldable pub filled_slice : ReadBuffer → List ℕ
filled_slice b = take (b.filled_end - b.filled_start) (drop b.filled_start b.buffer)

unfoldable pub extend_filled : ReadBuffer → ℕ → Run ReadBuffer
extend_filled b count =
    if leb (b.filled_end + count) (length b.buffer)
    then done (record b { filled_end = b.filled_end + count })
    else panic

unfoldable pub consume_filled : ReadBuffer → ℕ → Run ReadBuffer
consume_filled b count =
    if leb (b.filled_start + count) b.filled_end
    then (if b.filled_start + count == b.filled_end
        then done (record b { filled_start = 0; filled_end = 0 })
        else done (record b { filled_start = b.filled_start + count }))
    else panic

-- The copy of `len` bytes from `start` to the front of the buffer.
abbrev pub shifted : List ℕ → ℕ → ℕ → List ℕ
shifted bytes start len = take len (drop start bytes) ++ drop len bytes

-- `resize`, if the buffer is smaller than the capacity.
abbrev pub resized : List ℕ → ℕ → List ℕ
resized bytes capacity = bytes ++ replicate (capacity - length bytes) 0

-- `extend_to_contain`; the slice that it returns begins at `filled_end`.
unfoldable pub extend_to_contain : ReadBuffer → ℕ → Run ReadBuffer
unfolding filled_len
extend_to_contain b capacity =
    let len = filled_len b in
    if len == 0
    then done (record { buffer = resized b.buffer capacity; filled_start = 0; filled_end = len })
    else (if ltb b.filled_start (length b.buffer) && leb (b.filled_start + len) (length b.buffer)
        then done (record {
          buffer = resized (shifted b.buffer b.filled_start len) capacity;
          filled_start = 0;
          filled_end = len;
        })
        else panic)

pub record IsValid (b : ReadBuffer) : Type 0 where
  pub ordered : b.filled_start ≤ b.filled_end
  pub inside : b.filled_end ≤ length b.buffer

-- Nothing is filled, so nothing is moved.
shifted-zero :
    (bytes : List ℕ) (start len : ℕ) → (len == 0) ≡ true → shifted bytes start len ≡ bytes
shifted-zero bytes start zero h = refl
shifted-zero bytes start (suc len) h = absurd (ground arith)

abbrev extended : ReadBuffer → ℕ → ReadBuffer
extended b capacity =
    let len = b.filled_end - b.filled_start in
    record {
      buffer = resized (shifted b.buffer b.filled_start len) capacity;
      filled_start = 0;
      filled_end = len;
    }

extend_to_contain_lem :
    (b : ReadBuffer) (capacity : ℕ)
    → IsValid b
    → extend_to_contain b capacity ≡ done (extended b capacity)
unfolding extend_to_contain filled_len
extend_to_contain_lem b capacity v =
    let len = b.filled_end - b.filled_start in
    ground (arith, v.ordered, v.inside, shifted-zero b.buffer b.filled_start len)

length-shifted :
    (bytes : List ℕ) (start len : ℕ)
    → start + len ≤ length bytes
    → length (shifted bytes start len) ≡ length bytes
length-shifted bytes start len h = omega (
  arith,
  length-append (take len (drop start bytes)) (drop len bytes),
  length-take len (drop start bytes),
  length-drop start bytes,
  length-drop len bytes,
)

slice-shifted :
    (bytes : List ℕ) (start len capacity : ℕ)
    → start + len ≤ length bytes
    → take len (resized (shifted bytes start len) capacity) ≡ take len (drop start bytes)
slice-shifted bytes start len capacity h =
    let slice = take len (drop start bytes) in
    let room : len ≤ length slice =
      omega (arith, length-take len (drop start bytes), length-drop start bytes) in
    let fill : List ℕ = replicate (capacity - length (shifted bytes start len)) 0 in
    ap (take len) (append_assoc slice (drop len bytes) fill)
    ∙ take-append_le len slice (drop len bytes ++ fill) room
    ∙ take-take len len (drop start bytes) (omega arith)

abbrev zeros : ℕ → List ℕ
zeros n = replicate n 0

length-resized :
    (bytes : List ℕ) (capacity : ℕ)
    → (capacity ≤ length (resized bytes capacity))
      × (length bytes ≤ length (resized bytes capacity))
length-resized bytes capacity =
    let n = capacity - length bytes in
    let grown = length-append bytes (zeros n) in
    let filler : length (zeros n) ≡ n = length-replicate n 0 in
    (omega (arith, grown, filler), omega (arith, grown, filler))

-- Making room in a valid buffer does not panic, keeps the bytes that are filled, moves them to the
-- front, and leaves a valid buffer of at least the capacity that was asked for.
pub extend_to_contain_keeps :
    (b : ReadBuffer) (capacity : ℕ)
    → IsValid b
    → (b' : ReadBuffer) × (extend_to_contain b capacity ≡ done b')
      × (filled_slice b' ≡ filled_slice b)
      × (b'.filled_start ≡ 0)
      × (capacity ≤ length b'.buffer)
      × IsValid b'
unfolding filled_slice
extend_to_contain_keeps b capacity v =
    let len = b.filled_end - b.filled_start in
    let bytes = shifted b.buffer b.filled_start len in
    let fits : b.filled_start + len ≤ length b.buffer = omega (arith, v.ordered, v.inside) in
    let whole : len - 0 ≡ len = omega arith in
    let (enough, grown) = length-resized bytes capacity in
    let moved = length-shifted b.buffer b.filled_start len fits in
    (
      extended b capacity,
      extend_to_contain_lem b capacity v,
      ap (λ n. take n (resized bytes capacity)) whole
          ∙ slice-shifted b.buffer b.filled_start len capacity fits,
      refl,
      enough,
      record { ordered = omega arith; inside = omega (arith, v.ordered, v.inside) },
    )
