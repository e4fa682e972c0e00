-- ===== src/Base/Assoc.antt =====
-- Maps with keys that are numbers, as association lists.
use Prim.Native.Nat.{ℕ}
use mathlib.Core.Path.{◌≡◌}
use mathlib.Core.Logic.{inl, inr}
use mathlib.Core.List.{List, [], ◌∷◌}
use mathlib.Core.Option.{Option, none, some}
use native.Mathlib.Omega.{arith}
use elfo.Base.Tests.{◌==◌, if◌then◌else◌, Bool-cases}

module _ {A : Type 0} where
  abbrev pub find : List (ℕ × A) → ℕ → Option A
  find [] k = none
  find ((j, a) ∷ m) k = let rest = find m k in if j == k then some a else rest

  abbrev pub delete : List (ℕ × A) → ℕ → List (ℕ × A)
  delete [] k = []
  delete ((j, a) ∷ m) k = let rest = delete m k in if j == k then rest else (j, a) ∷ rest

  abbrev pub insert : List (ℕ × A) → ℕ → A → List (ℕ × A)
  insert m k a = (k, a) ∷ delete m k

  pub find-delete :
      (m : List (ℕ × A)) (k j : ℕ) → find (delete m k) j ≡ (if k == j then none else find m j)
  find-delete [] k j = elim (Bool-cases (k == j)) [ inl e ↦ rw e | inr e ↦ rw e ]
  find-delete ((i, a) ∷ m) k j = ground (arith, find-delete m k j)

  pub find-insert :
      (m : List (ℕ × A)) (k j : ℕ) (a : A)
      → find (insert m k a) j ≡ (if k == j then some a else find m j)
  find-insert m k j a = ground (arith, find-delete m k j)
