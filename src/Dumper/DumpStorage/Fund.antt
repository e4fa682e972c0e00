-- ===== src/Dumper/DumpStorage/Fund.antt =====
-- `Fund` and `Part` of elfo-dumper/src/dump_storage.rs. Parts that are empty are a stack.
use elfo.Base.{
  ℕ, zero, suc, ◌+◌, ◌-◌, Bool, true, false, Option, none, some, List, [], ◌∷◌, ◌++◌, ltb, leb,
  ◌==◌, if◌then◌else◌, length, get_elem?, set, get_or, Run, done, panic,
}

abbrev pub Part : Type 0 → Type 0
Part D = List D

-- The value outside tests.
abbrev pub part_capacity : ℕ
part_capacity = 8191

pub record Fund (D : Type 0) : Type 0 where
  pub max_part_count : ℕ
  pub part_count : ℕ
  pub empty_parts : List (Part D)
  pub filled_parts : List (List (Part D))

module _ {D : Type 0} where
  unfoldable pub new_fund : ℕ → Fund D
  new_fund max_part_count = record {
    max_part_count = max_part_count;
    part_count = 0;
    empty_parts = [];
    filled_parts = [];
  }

  unfoldable pub is_empty : Part D → Bool
  is_empty [] = true
  is_empty (x ∷ p) = false

  unfoldable pub is_full : Part D → Bool
  is_full p = length p == part_capacity

  -- The last of the longest queues, as `max_by_key` chooses.
  unfoldable pub most_filled : List (List (Part D)) → Option ℕ
  most_filled [] = none
  most_filled (q ∷ qs) = elim (most_filled qs) [
    | none ↦ some 0
    | some i ↦ if ltb (length (get_or qs i [])) (length q) then some 0 else some (suc i)
  ]

  -- The queue at an index without its oldest part, which is cleared.
  abbrev pub clear_front :
      List (List (Part D)) → ℕ → List (Part D) → Option (Part D × List (List (Part D)))
  clear_front filled i [] = none
  clear_front filled i (part ∷ queue) = some ([], set filled i queue)

  abbrev pub clear_at : List (List (Part D)) → Option ℕ → Option (Part D × List (List (Part D)))
  clear_at filled none = none
  clear_at filled (some i) = clear_front filled i (get_or filled i [])

  unfoldable pub clear_most_filled : List (List (Part D)) → Option (Part D × List (List (Part D)))
  clear_most_filled filled = clear_at filled (most_filled filled)

  -- The loops of `configure`: parts are given up while there are too many.
  unfoldable pub drop_empty : ℕ → ℕ → List (Part D) → ℕ × List (Part D)
  drop_empty max_count count [] = (count, [])
  drop_empty max_count count (p ∷ ps) =
      let rest = drop_empty max_count (count - 1) ps in
      if ltb max_count count then rest else (count, p ∷ ps)

  unfoldable pub drop_filled : ℕ → ℕ → List (List (Part D)) → ℕ × List (List (Part D))
  drop_filled max_count zero filled = (zero, filled)
  drop_filled max_count (suc count) filled =
      if ltb max_count (suc count)
      then (elim (clear_most_filled filled) [
        | none ↦ (suc count, filled)
        | some (part, filled') ↦ drop_filled max_count count filled'
      ])
      else (suc count, filled)

  unfoldable pub configure_fund : Fund D → ℕ → Fund D
  configure_fund f max_count =
      let (count, empties) = drop_empty max_count f.part_count f.empty_parts in
      let (count', filled) = drop_filled max_count count f.filled_parts in
      record {
        max_part_count = max_count;
        part_count = count';
        empty_parts = empties;
        filled_parts = filled;
      }

  -- The number of a new shard is the number of those before it.
  unfoldable pub add_shard : Fund D → Fund D × ℕ
  add_shard f = (record f { filled_parts = f.filled_parts ++ [] ∷ [] }, length f.filled_parts)

  abbrev pub fill_at : Fund D → ℕ → Part D → Option (List (Part D)) → Run (Fund D)
  fill_at f n part none = panic
  fill_at f n part (some queue) =
      done (record f { filled_parts = set f.filled_parts n (queue ++ part ∷ []) })

  -- A shard number that is out of range panics.
  unfoldable pub add_filled_part : Fund D → ℕ → Part D → Run (Fund D)
  add_filled_part f n part = fill_at f n part (get_elem? f.filled_parts n)

  abbrev pub pop_front : Fund D → ℕ → List (Part D) → Fund D × Option (Part D)
  pop_front f n [] = (f, none)
  pop_front f n (part ∷ queue) = (record f { filled_parts = set f.filled_parts n queue }, some part)

  abbrev pub take_at : Fund D → ℕ → Option (List (Part D)) → Run (Fund D × Option (Part D))
  take_at f n none = panic
  take_at f n (some queue) = done (pop_front f n queue)

  unfoldable pub get_filled_part : Fund D → ℕ → Run (Fund D × Option (Part D))
  get_filled_part f n = take_at f n (get_elem? f.filled_parts n)

  unfoldable pub add_empty_part : Fund D → Part D → Fund D
  add_empty_part f part = record f { empty_parts = part ∷ f.empty_parts }

  abbrev pub allocate : Fund D → Fund D × Part D
  allocate f = (record f { part_count = f.part_count + 1 }, [])

  abbrev pub reuse : Fund D → Option (Part D × List (List (Part D))) → Fund D × Part D
  reuse f none = allocate f
  reuse f (some (part, filled)) = (record f { filled_parts = filled }, part)

  abbrev pub get_part : Fund D → List (Part D) → Fund D × Part D
  get_part f (part ∷ ps) = (record f { empty_parts = ps }, part)
  get_part f [] =
      if leb f.max_part_count f.part_count
      then reuse f (clear_most_filled f.filled_parts)
      else allocate f

  unfoldable pub get_empty_part : Fund D → Fund D × Part D
  get_empty_part f = get_part f f.empty_parts
