-- ===== src/Base/Bytes.antt =====
-- Words as bytes, lowest first, and a cursor that reads them: a `read` takes what it reads off the
-- front of the bytes left, or fails at their end.
use elfo.Base.Lists.{length}
use Prim.Native.Nat.{ℕ, zero, suc, ◌+◌, ◌*◌, ◌/◌, ◌%◌, ◌^◌, ◌<◌}
use native.Mathlib.Nat.{pow-suc}
use mathlib.Core.Path.{◌≡◌, refl}
use mathlib.Core.List.{List, [], ◌∷◌, ◌++◌}
use mathlib.Core.Option.{Option, none, some}
use native.Mathlib.Omega.{arith}

unfoldable pub write_le : ℕ → ℕ → List ℕ
write_le zero n = []
write_le (suc k) n = n % 256 ∷ write_le k (n / 256)

-- `n` behind its lowest byte `b`.
abbrev above : ℕ → Option (ℕ × List ℕ) → Option (ℕ × List ℕ)
above b none = none
above b (some (n, rest)) = some (b + 256 * n, rest)

unfoldable pub read_le : ℕ → List ℕ → Option (ℕ × List ℕ)
read_le zero bs = some (0, bs)
read_le (suc k) [] = none
read_le (suc k) (b ∷ bs) = above b (read_le k bs)

pub length-write_le : (k n : ℕ) → length (write_le k n) ≡ k
unfolding write_le
length-write_le zero n = refl
length-write_le (suc k) n = omega (arith, length-write_le k (n / 256))

pub read_le-write_le :
    (k n : ℕ) (rest : List ℕ) → n < 256 ^ k → read_le k (write_le k n ++ rest) ≡ some (n, rest)
unfolding read_le write_le
read_le-write_le zero n rest h = ground arith
read_le-write_le (suc k) n rest h =
    let small : n < 256 ^ k * 256 = rw pow-suc at h in
    rw (read_le-write_le k (n / 256) rest (omega arith)) (ground arith)

-- A read fails only at the end of the bytes.
pub read_le-short : (k : ℕ) (bs : List ℕ) → read_le k bs ≡ none → length bs < k
unfolding read_le
read_le-short zero bs h = absurd (ground arith)
read_le-short (suc k) [] h = omega arith
read_le-short (suc k) (b ∷ bs) h =
    let left : read_le k bs ≡ none = ground arith in omega (arith, read_le-short k bs left)
