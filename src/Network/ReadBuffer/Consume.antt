-- ===== src/Network/ReadBuffer/Consume.antt =====
-- elfo-network/src/frame/buffers.rs: what consuming and filling do to the bytes of a valid buffer.
use elfo.Base.{
  ℕ, ◌+◌, ◌-◌, ◌≤◌, ◌≡◌, refl, sym, ap, ◌∙◌, Bool, true, false, arith, ◌==◌, if◌then◌else◌, length,
  take, drop, length-take, length-drop, drop-take, drop-drop, done,
}
use elfo.Network.ReadBuffer.{ReadBuffer, filled_len, filled_slice, consume_filled, IsValid}

pub length-filled_slice : (b : ReadBuffer) → IsValid b → length (filled_slice b) ≡ filled_len b
unfolding filled_slice filled_len
length-filled_slice b v = omega (
  arith,
  length-take (b.filled_end - b.filled_start) (drop b.filled_start b.buffer),
  length-drop b.filled_start b.buffer,
  v.ordered,
  v.inside,
)

drop-slice :
    (b : ReadBuffer) (count : ℕ)
    → b.filled_start + count ≤ b.filled_end
    → take (b.filled_end - (b.filled_start + count)) (drop (b.filled_start + count) b.buffer)
      ≡ drop count (filled_slice b)
unfolding filled_slice
drop-slice b count h =
    let left = b.filled_end - (b.filled_start + count) in
    sym (
      drop-take (b.filled_end - b.filled_start) count left (drop b.filled_start b.buffer)
        (omega arith)
      ∙ ap (take left) (drop-drop (b.filled_start + count) b.filled_start count b.buffer refl))

-- What `consume_filled` leaves, when all that is filled is consumed and when not.
consumed_keeps :
    (b : ReadBuffer) (count : ℕ) (all : Bool)
    → IsValid b
    → b.filled_start + count ≤ b.filled_end
    → (b.filled_start + count == b.filled_end) ≡ all
    → let b' : ReadBuffer =
        if all
        then record b { filled_start = 0; filled_end = 0 }
        else record b { filled_start = b.filled_start + count } in
      (filled_slice b' ≡ drop count (filled_slice b)) × IsValid b'
unfolding filled_slice
consumed_keeps b count true v h e =
    let same : b.filled_start + count ≡ b.filled_end = ground arith in
    let none_left : b.filled_end - (b.filled_start + count) ≡ 0 = omega arith in
    let gone = drop-slice b count h in
    (rw none_left at gone, record { ordered = omega arith; inside = omega arith })
consumed_keeps b count false v h e =
    (drop-slice b count h, record { ordered = h; inside = v.inside })

pub consume_filled_keeps :
    (b : ReadBuffer) (count : ℕ)
    → IsValid b
    → count ≤ filled_len b
    → (b' : ReadBuffer) × (consume_filled b count ≡ done b')
      × (filled_slice b' ≡ drop count (filled_slice b))
      × IsValid b'
unfolding filled_len consume_filled
consume_filled_keeps b count v h =
    let fits : b.filled_start + count ≤ b.filled_end = omega (arith, v.ordered) in
    let all = b.filled_start + count == b.filled_end in
    let (slice, valid) = consumed_keeps b count all v fits refl in
    (
      (if all
          then record b { filled_start = 0; filled_end = 0 }
          else record b { filled_start = b.filled_start + count }),
      ground arith,
      slice,
      valid,
    )
