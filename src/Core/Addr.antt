-- ===== src/Core/Addr.antt =====
-- elfo-core/src/addr.rs, with the `network` feature and without `network-2`: the layout of an
-- address in 64 bits. An address, a node number and the like are their bits.
use mathlib.Core.Bool.{xor}
use Prim.Native.Nat.{bit_and, bit_or, bit_xor}
use elfo.Base.{
  ℕ, ◌+◌, ◌-◌, ◌*◌, ◌/◌, ◌%◌, ◌^◌, ◌<◌, ◌≡◌, ap, ◌∙◌, Bool, true, false, not, ◌&&◌, Option, none,
  some, arith, ◌==◌, if◌then◌else◌,
}
use elfo.Base.Bits.{bit_or-disjoint, bit_and-ones, bit_xor-mod, bit_xor_cancel, bit_or_comm}

abbrev pub Addr : Type 0
Addr = ℕ

abbrev pub NodeNo : Type 0
NodeNo = ℕ

abbrev pub GroupNo : Type 0
GroupNo = ℕ

-- `NonZeroU16::new`, `NonZeroU8::new`, `NonZeroU64::new`.
abbrev pub non_zero : ℕ → Option ℕ
non_zero n = if n == 0 then none else some n

abbrev pub is_some : {A : Type 0} → Option A → Bool
is_some none = false
is_some (some _) = true

unfoldable pub node_no : Addr → Option NodeNo
node_no a = non_zero (a / 2 ^ 48 % 2 ^ 16)

unfoldable pub group_no : Addr → Option GroupNo
group_no a = non_zero (a / 2 ^ 40 % 2 ^ 8)

abbrev pub null : Addr
null = 0

unfoldable pub is_null : Addr → Bool
is_null a = a == null

unfoldable pub is_local : Addr → Bool
unfolding is_null node_no
is_local a = not (is_null a) && not (is_some (node_no a))

unfoldable pub is_remote : Addr → Bool
unfolding node_no
is_remote a = is_some (node_no a)

-- `addr.is_null() ^ addr.group_no().is_some()`.
unfoldable pub from_bits : ℕ → Option Addr
unfolding is_null group_no xor
from_bits bits = if xor (is_null bits) (is_some (group_no bits)) then some bits else none

unfoldable pub into_remote : Addr → NodeNo → Addr
unfolding is_local
into_remote a node = if is_local a then bit_or a (node * 2 ^ 48) else a

unfoldable pub into_local : Addr → Addr
into_local a = bit_and a (2 ^ 48 - 1)

-- `new_local`; the slot key is 40 bits of an IDR key.
unfoldable pub new_local : ℕ → GroupNo → ℕ → Addr
new_local slot_key group launch_id =
    bit_or (group * 2 ^ 40) (bit_and (bit_xor slot_key launch_id) (2 ^ 40 - 1))

-- `slot_key` before the conversion into an IDR key, which reads the lowest 40 bits.
unfoldable pub slot_bits : Addr → ℕ → ℕ
slot_bits a launch_id = bit_xor a launch_id

into_local-eq : (a : Addr) → into_local a ≡ a % 2 ^ 48
unfolding into_local
into_local-eq a = bit_and-ones 48 a

-- A local address made remote and local again is the same address, is remote in between and keeps
-- its group; making it remote a second time changes nothing. The node number must not be 0.
into_remote_round_trip :
    (a : Addr) (n m : NodeNo)
    → a < 2 ^ 64
    → is_local a ≡ true
    → 0 < n
    → n < 2 ^ 16
    → (into_local (into_remote a n) ≡ a)
      × (node_no (into_remote a n) ≡ some n)
      × (group_no (into_remote a n) ≡ group_no a)
      × (into_remote (into_remote a n) m ≡ into_remote a n)
unfolding into_remote node_no group_no
into_remote_round_trip a n m h l p q =
    ground (arith, bit_or-disjoint 48 a n, into_local-eq (a + n * 2 ^ 48))

-- The randomised slot key is below the group number.
new_local-eq :
    (key : ℕ) (group : GroupNo) (launch_id : ℕ)
    → new_local key group launch_id ≡ bit_xor key launch_id % 2 ^ 40 + group * 2 ^ 40
unfolding new_local
new_local-eq key group launch_id = rw (bit_or_comm (group * 2 ^ 40)) (
    rw (bit_and-ones 40 (bit_xor key launch_id))
      (bit_or-disjoint 40 (bit_xor key launch_id % 2 ^ 40) group (omega arith)))

slot_key_found :
    (key : ℕ) (group : GroupNo) (launch_id : ℕ)
    → key < 2 ^ 40
    → slot_bits (new_local key group launch_id) launch_id % 2 ^ 40 ≡ key
unfolding slot_bits
slot_key_found key group launch_id k =
    let a = new_local key group launch_id in
    bit_xor-mod 40 a launch_id
    ∙ ap (λ t. bit_xor t (launch_id % 2 ^ 40))
        (omega (arith, new_local-eq key group launch_id, bit_xor-mod 40 key launch_id))
    ∙ bit_xor_cancel 40 (key % 2 ^ 40) (launch_id % 2 ^ 40) (omega arith) (omega arith)
    ∙ omega arith

-- An address made from a slot key is a valid local one of the given group, and the slot key is
-- found in it again with the launch id of the node, which randomises it. The key must have 40 bits
-- and the group number 8 and not be 0; the launch id is any number.
new_local_round_trip :
    (key : ℕ) (group : GroupNo) (launch_id : ℕ)
    → key < 2 ^ 40
    → 0 < group
    → group < 2 ^ 8
    → let a = new_local key group launch_id in
      (slot_bits a launch_id % 2 ^ 40 ≡ key)
      × (from_bits a ≡ some a)
      × (is_local a ≡ true)
      × (group_no a ≡ some group)
unfolding slot_bits from_bits is_local
new_local_round_trip key group launch_id k p q =
    let e = new_local-eq key group launch_id in
    (slot_key_found key group launch_id k, ground arith, ground arith, ground arith)
