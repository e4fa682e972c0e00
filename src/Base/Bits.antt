-- ===== src/Base/Bits.antt =====
-- `&` and `|` at variables, for shifted fields and masks of ones: the laws for the lowest digit,
-- and what follows by induction on the width.
use Prim.Native.Nat.{
  ℕ, zero, suc, ◌+◌, ◌-◌, ◌*◌, ◌/◌, ◌%◌, ◌^◌, ◌≤◌, ◌<◌, min, max, bit_and, bit_or, bit_xor, digits,
  differ, bit_xor-bitwise, bit_and-bitwise, bit_or-bitwise,
}
use native.Mathlib.Nat.{pow-suc}
use mathlib.Core.Path.{◌≡◌, refl, ap, ap₂, sym}
use native.Mathlib.Omega.{arith}

-- `digits` counts down from at least its first number; how far above it begins does not matter.
same_digits :
    (low : ℕ → ℕ) (join : ℕ → ℕ → ℕ) (i j x y : ℕ)
    → x ≤ i
    → x ≤ j
    → digits low join i x y ≡ digits low join j x y
same_digits low join zero zero zero y s t = refl
same_digits low join zero (suc j) zero y s t = refl
same_digits low join (suc i) zero zero y s t = refl
same_digits low join (suc i) (suc j) zero y s t = refl
same_digits low join i zero (suc x) y s t = absurd (omega arith)
same_digits low join zero j (suc x) y s t = absurd (omega arith)
same_digits low join (suc i) (suc j) (suc x) y s t =
    let rest = same_digits low join i j (suc x / 2) (y / 2) (omega arith) (omega arith) in
    omega (arith, rest)

none_in : (y : ℕ) → bit_and 0 y ≡ 0
none_in y = bit_and-bitwise 0 y

pub zero-bit_or : (y : ℕ) → bit_or 0 y ≡ y
zero-bit_or y = bit_or-bitwise 0 y

low_and : (x y : ℕ) → bit_and x y ≡ bit_and (x / 2) (y / 2) * 2 + min (x % 2) (y % 2)
low_and zero y = omega (arith, none_in y, none_in (y / 2))
low_and (suc x) y =
    let rest =
      same_digits (λ t. zero) min x (suc x / 2) (suc x / 2) (y / 2) (omega arith) (omega arith) in
    omega (arith, rest, bit_and-bitwise (suc x / 2) (y / 2), bit_and-bitwise (suc x) y)

low_or : (x y : ℕ) → bit_or x y ≡ bit_or (x / 2) (y / 2) * 2 + max (x % 2) (y % 2)
low_or zero y = omega (arith, zero-bit_or y, zero-bit_or (y / 2))
low_or (suc x) y =
    let rest =
      same_digits (λ t. t) max x (suc x / 2) (suc x / 2) (y / 2) (omega arith) (omega arith) in
    omega (arith, rest, bit_or-bitwise (suc x / 2) (y / 2), bit_or-bitwise (suc x) y)

double-div : (c : ℕ) → c * 2 / 2 ≡ c
double-div c = omega arith

odd-div : (m : ℕ) → (m * 2 + 1) / 2 ≡ m
odd-div m = omega arith

bit_or-double : (a c : ℕ) → bit_or a (c * 2) ≡ bit_or (a / 2) c * 2 + a % 2
bit_or-double a c = omega (arith, low_or a (c * 2), ap (bit_or (a / 2)) (double-div c))

bit_and-odd : (a m : ℕ) → bit_and a (m * 2 + 1) ≡ bit_and (a / 2) m * 2 + a % 2
bit_and-odd a m = omega (arith, low_and a (m * 2 + 1), ap (bit_and (a / 2)) (odd-div m))

shift_suc : (k b : ℕ) → b * 2 ^ suc k ≡ b * 2 ^ k * 2
shift_suc k b = rw pow-suc (omega arith)

one_le_pow : (k : ℕ) → 1 ≤ 2 ^ k
one_le_pow zero = omega arith
one_le_pow (suc k) = rw pow-suc (omega (arith, one_le_pow k))

ones_suc : (k : ℕ) → 2 ^ suc k - 1 ≡ (2 ^ k - 1) * 2 + 1
ones_suc k = rw pow-suc (omega (arith, one_le_pow k))

-- A field above the digits of another is joined by addition.
pub bit_or-disjoint : (k a b : ℕ) → a < 2 ^ k → bit_or a (b * 2 ^ k) ≡ a + b * 2 ^ k
bit_or-disjoint zero zero b h = omega (arith, zero-bit_or (b * 2 ^ 0))
bit_or-disjoint zero (suc a) b h = absurd (omega arith)
bit_or-disjoint (suc k) a b h =
    let small : a < 2 ^ k * 2 = rw pow-suc at h in
    rw (shift_suc k b)
      (omega (arith, bit_or-double a (b * 2 ^ k), bit_or-disjoint k (a / 2) b (omega arith)))

mod-double : (a p : ℕ) → 1 ≤ p → a / 2 % p * 2 + a % 2 ≡ a % (p * 2)
mod-double a p h = grind arith

none_out : (i x : ℕ) → x ≤ i → bit_and x 0 ≡ 0
none_out i zero s = refl
none_out zero (suc x) s = absurd (omega arith)
none_out (suc i) (suc x) s =
    let rest = none_out i (suc x / 2) (omega arith) in omega (arith, rest, low_and (suc x) 0)

-- A mask of k ones keeps the lowest k digits.
pub bit_and-ones : (k a : ℕ) → bit_and a (2 ^ k - 1) ≡ a % 2 ^ k
bit_and-ones zero a = omega (arith, none_out a a (omega arith))
bit_and-ones (suc k) a =
    rw (ones_suc k, pow-suc)
      (omega (
        arith,
        bit_and-odd a (2 ^ k - 1),
        bit_and-ones k (a / 2),
        mod-double a (2 ^ k) (one_le_pow k),
      ))

zero-bit_xor : (b : ℕ) → bit_xor 0 b ≡ b
zero-bit_xor b = bit_xor-bitwise 0 b

differ_lem : (x y : ℕ) → x < 2 → y < 2 → differ x y ≡ (x + y) % 2
differ_lem zero y p q = omega arith
differ_lem (suc zero) zero p q = refl
differ_lem (suc zero) (suc zero) p q = refl
differ_lem (suc zero) (suc (suc y)) p q = absurd (omega arith)
differ_lem (suc (suc x)) y p q = absurd (omega arith)

low_xor : (a b : ℕ) → bit_xor a b ≡ bit_xor (a / 2) (b / 2) * 2 + (a + b) % 2
low_xor zero b = omega (arith, zero-bit_xor b, zero-bit_xor (b / 2))
low_xor (suc a) b =
    let rest =
      same_digits (λ t. t) differ a (suc a / 2) (suc a / 2) (b / 2) (omega arith) (omega arith) in
    let last = differ_lem (suc a % 2) (b % 2) (omega arith) (omega arith) in
    omega (arith, rest, last, bit_xor-bitwise (suc a / 2) (b / 2), bit_xor-bitwise (suc a) b)

join_xor :
    (m n e f : ℕ) → e < 2 → f < 2 → bit_xor (m * 2 + e) (n * 2 + f) ≡ bit_xor m n * 2 + (e + f) % 2
join_xor m n e f p q =
    let hm : (m * 2 + e) / 2 ≡ m = omega arith in
    let hn : (n * 2 + f) / 2 ≡ n = omega arith in
    omega (arith, low_xor (m * 2 + e) (n * 2 + f), ap₂ bit_xor hm hn)

xor_half : (a b : ℕ) → bit_xor a b / 2 ≡ bit_xor (a / 2) (b / 2)
xor_half a b = omega (arith, low_xor a b)

split_mod : (a p : ℕ) → 1 ≤ p → a % (p * 2) ≡ a / 2 % p * 2 + a % 2
split_mod a p h = sym (mod-double a p h)

mod_one : (a : ℕ) → a % 1 ≡ 0
mod_one a = omega arith

-- The lowest digits of an exclusive or are those of its arguments'.
pub bit_xor-mod : (k a b : ℕ) → bit_xor a b % 2 ^ k ≡ bit_xor (a % 2 ^ k) (b % 2 ^ k)
bit_xor-mod zero a b = omega (arith, ap₂ bit_xor (mod_one a) (mod_one b), zero-bit_xor 0)
bit_xor-mod (suc k) a b = rw pow-suc (
    rw (split_mod a (2 ^ k) (one_le_pow k), split_mod b (2 ^ k) (one_le_pow k))
      (omega (
        arith,
        join_xor (a / 2 % 2 ^ k) (b / 2 % 2 ^ k) (a % 2) (b % 2) (omega arith) (omega arith),
        split_mod (bit_xor a b) (2 ^ k) (one_le_pow k),
        low_xor a b,
        ap (λ (t : ℕ). t % 2 ^ k) (xor_half a b),
        bit_xor-mod k (a / 2) (b / 2),
      )))

-- Twice the same mask is none.
pub bit_xor_cancel : (k a b : ℕ) → a < 2 ^ k → b < 2 ^ k → bit_xor (bit_xor a b) b ≡ a
bit_xor_cancel zero zero zero p q = refl
bit_xor_cancel zero zero (suc b) p q = absurd (omega arith)
bit_xor_cancel zero (suc a) b p q = absurd (omega arith)
bit_xor_cancel (suc k) a b p q =
    let small_a : a < 2 ^ k * 2 = rw pow-suc at p in
    let small_b : b < 2 ^ k * 2 = rw pow-suc at q in
    omega (
      arith,
      low_xor (bit_xor a b) b,
      low_xor a b,
      ap (λ (t : ℕ). bit_xor t (b / 2)) (xor_half a b),
      bit_xor_cancel k (a / 2) (b / 2) (omega arith) (omega arith),
    )

or_zero_below : (n a : ℕ) → a ≤ n → bit_or a 0 ≡ a
or_zero_below n zero h = zero-bit_or 0
or_zero_below zero (suc a) h = absurd (omega arith)
or_zero_below (suc n) (suc a) h =
    omega (arith, low_or (suc a) 0, or_zero_below n (suc a / 2) (omega arith))

bit_or-zero : (a : ℕ) → bit_or a 0 ≡ a
bit_or-zero zero = zero-bit_or 0
bit_or-zero (suc a) = or_zero_below (suc a) (suc a) (omega arith)

or_comm_below : (n a b : ℕ) → a + b ≤ n → bit_or a b ≡ bit_or b a
or_comm_below n zero b h = omega (arith, zero-bit_or b, bit_or-zero b)
or_comm_below zero (suc a) b h = absurd (omega arith)
or_comm_below (suc n) (suc a) b h =
    omega
      (arith, low_or (suc a) b, low_or b (suc a), or_comm_below n (suc a / 2) (b / 2) (omega arith))

-- The order of the arguments of `|` is the other where the field comes first.
pub bit_or_comm : (a b : ℕ) → bit_or a b ≡ bit_or b a
bit_or_comm a b = or_comm_below (a + b) a b (omega arith)

two_halves : (k : ℕ) → 2 ^ suc k / 2 ≡ 2 ^ k
two_halves k = rw (pow-suc) (omega arith)

-- A bit above the digits of a number is not set in it.
pub bit_and-above : (k a : ℕ) → a < 2 ^ k → bit_and a (2 ^ k) ≡ 0
bit_and-above zero zero h = none_in (2 ^ 0)
bit_and-above zero (suc a) h = absurd (omega arith)
bit_and-above (suc k) a h =
    let small : a < 2 ^ k * 2 = rw pow-suc at h in
    let rest = bit_and-above k (a / 2) (omega arith) in
    let even : 2 ^ suc k % 2 ≡ 0 = rw pow-suc (omega arith) in
    omega (arith, low_and a (2 ^ suc k), ap (bit_and (a / 2)) (two_halves k), rest, even)

-- The highest bit of a number is set in it.
pub bit_and-highest : (k a : ℕ) → 2 ^ k ≤ a → a < 2 ^ suc k → bit_and a (2 ^ k) ≡ 2 ^ k
bit_and-highest zero zero p h = absurd (omega arith)
bit_and-highest zero (suc zero) p h = refl
bit_and-highest zero (suc (suc a)) p h = absurd (omega arith)
bit_and-highest (suc k) a p h =
    let double : 2 ^ suc k ≡ 2 ^ k * 2 = pow-suc 2 k in
    let double' : 2 ^ suc (suc k) ≡ 2 ^ suc k * 2 = pow-suc 2 (suc k) in
    let rest = bit_and-highest k (a / 2) (omega arith) (omega arith) in
    omega (arith, low_and a (2 ^ suc k), ap (bit_and (a / 2)) (two_halves k), rest, double)
