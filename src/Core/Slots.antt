-- ===== src/Core/Slots.antt =====
-- A slot map of which no slot is used twice: the laws of `SlotMap` can hold.
use elfo.Base.{
  ℕ, zero, suc, ◌≡◌, refl, ap, inl, inr, Option, none, some, List, [], ◌∷◌, ◌++◌, arith, ltb, ◌==◌,
  if◌then◌else◌, Bool-cases, length, length-append,
}
use elfo.Core.RequestTable.{SlotMap}

module _ {V : Type 0} where
  abbrev pub slot : List (Option V) → ℕ → Option V
  slot [] k = none
  slot (v ∷ vs) zero = v
  slot (v ∷ vs) (suc k) = slot vs k

  abbrev pub put : List (Option V) → ℕ → Option V → List (Option V)
  put [] k w = []
  put (v ∷ vs) zero w = w ∷ vs
  put (v ∷ vs) (suc k) w = v ∷ put vs k w

  pub slot-append :
      (vs : List (Option V)) (w : V) (j : ℕ)
      → slot (vs ++ some w ∷ []) j ≡ (if length vs == j then some w else slot vs j)
  slot-append [] w zero = refl
  slot-append [] w (suc j) = ground arith
  slot-append (v ∷ vs) w zero = ground arith
  slot-append (v ∷ vs) w (suc j) = ground (arith, slot-append vs w j)

  pub slot-put :
      (vs : List (Option V)) (k : ℕ) (w u : V) (j : ℕ)
      → slot vs k ≡ some u
      → slot (put vs k (some w)) j ≡ (if k == j then some w else slot vs j)
  slot-put [] k w u j h = ground arith
  slot-put (v ∷ vs) zero w u zero h = ground arith
  slot-put (v ∷ vs) zero w u (suc j) h = ground arith
  slot-put (v ∷ vs) (suc k) w u zero h = ground arith
  slot-put (v ∷ vs) (suc k) w u (suc j) h = ground (arith, slot-put vs k w u j h)

  pub slot-clear :
      (vs : List (Option V)) (k j : ℕ)
      → slot (put vs k none) j ≡ (if k == j then none else slot vs j)
  slot-clear [] k j = elim (Bool-cases (k == j)) [ inl same ↦ rw same | inr other ↦ rw other ]
  slot-clear (v ∷ vs) zero zero = ground arith
  slot-clear (v ∷ vs) zero (suc j) = ground arith
  slot-clear (v ∷ vs) (suc k) zero = ground arith
  slot-clear (v ∷ vs) (suc k) (suc j) = ground (arith, slot-clear vs k j)

  pub length-put : (vs : List (Option V)) (k : ℕ) (w : Option V) → length (put vs k w) ≡ length vs
  length-put [] k w = refl
  length-put (v ∷ vs) zero w = refl
  length-put (v ∷ vs) (suc k) w = ap suc (length-put vs k w)

  abbrev pub slots : SlotMap V
  slots = record {
    Key = ℕ;
    Map = List (Option V);
    same = λ k j. k == j;
    same_iff = λ k j. (λ h. ground arith, λ h. ground arith);
    empty = [];
    get = slot;
    insert = λ vs w. (vs ++ some w ∷ [], length vs);
    write = λ vs k w. put vs k (some w);
    remove = λ vs k. put vs k none;
    issued = λ vs k. ltb k (length vs);
    get-empty = λ k. refl;
    get-insert = slot-append;
    get-write = λ vs k w u j h. slot-put vs k w u j h;
    get-remove = slot-clear;
    insert-fresh = λ vs w. ground arith;
    issued-insert = λ vs w j. ground (arith, length-append vs (some w ∷ []));
    issued-write = λ vs k w j. rw (length-put vs k (some w));
    issued-remove = λ vs k j. rw (length-put vs k none);
  }
