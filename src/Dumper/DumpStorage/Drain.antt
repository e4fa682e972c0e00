-- ===== src/Dumper/DumpStorage/Drain.antt =====
-- `Drain` of elfo-dumper/src/dump_storage.rs, the iterator of the writer. The iterator over the
-- shards goes over those that are there when it is made, in the order of their numbers.
use elfo.Base.{
  ℕ, suc, ◌+◌, Bool, true, false, not, Option, none, some, List, [], ◌∷◌, ltb, if◌then◌else◌, Run,
  done, ◌>>=◌,
}
use elfo.Dumper.DumpStorage.Fund.{Part, is_empty, add_filled_part, get_filled_part, add_empty_part}
use elfo.Dumper.DumpStorage.Registry.{Registry, renew_active_part}

pub record Drain (D : Type 0) : Type 0 where
  pub shard_iter : List ℕ
  pub current : Option (ℕ × Part D)
  pub until : ℕ

-- The numbers from the first argument, as many as the second has elements.
abbrev pub numbers {ℓ} : {A : Type ℓ} → ℕ → List A → List ℕ
numbers n [] = []
numbers n (x ∷ xs) = n ∷ numbers (suc n) xs

module _ {D : Type 0} where
  abbrev pub all_shards : Registry D → List ℕ
  all_shards r = numbers 0 r.shards

  unfoldable pub new_drain : Registry D → ℕ → ℕ → Drain D
  new_drain r now timeout = record {
    shard_iter = all_shards r;
    current = none;
    until = now + timeout;
  }

  unfoldable pub take_filled : Registry D → ℕ → Run (Registry D × Option (Part D))
  unfolding get_filled_part
  take_filled r n = get_filled_part r.fund n >>= (λ (f, part). done (record r { fund = f }, part))

  abbrev pub if_renewed : ℕ → Registry D × Bool → Run (Registry D × Option (Part D))
  if_renewed n (r, false) = done (r, none)
  if_renewed n (r, true) = take_filled r n

  abbrev pub or_active : ℕ → Registry D × Option (Part D) → Run (Registry D × Option (Part D))
  or_active n (r, some part) = done (r, some part)
  or_active n (r, none) = renew_active_part r n (λ part. not (is_empty part)) >>= if_renewed n

  -- One round of the loop in `next_shard`: a filled part of the shard, or else its active one.
  unfoldable pub try_shard : Registry D → ℕ → Run (Registry D × Option (Part D))
  unfolding take_filled renew_active_part is_empty
  try_shard r n = take_filled r n >>= or_active n

  -- The rounds of the loop until the iterator over the shards ends: the part that was found, and the
  -- rest of the iterator.
  abbrev pub found_or :
      ℕ
      → List ℕ
      → (Registry D → Run ((Registry D × Option (ℕ × Part D)) × List ℕ))
      → Registry D × Option (Part D)
      → Run ((Registry D × Option (ℕ × Part D)) × List ℕ)
  found_or n ns visit_rest (r, none) = visit_rest r
  found_or n ns visit_rest (r, some part) = done ((r, some (n, part)), ns)

  unfoldable pub visit : Registry D → List ℕ → Run ((Registry D × Option (ℕ × Part D)) × List ℕ)
  unfolding try_shard
  visit r [] = done ((r, none), [])
  visit r (n ∷ ns) = try_shard r n >>= found_or n ns (λ r'. visit r' ns)

  abbrev pub rerun :
      (Registry D × Option (ℕ × Part D)) × List ℕ
      → Run ((Registry D × Option (ℕ × Part D)) × List ℕ)
  rerun ((r, some found), rest) = done ((r, some found), rest)
  rerun ((r, none), rest) = visit r (all_shards r)

  -- `Drain::next_shard` without another thread between its critical sections.
  unfoldable pub next_shard : Registry D → Drain D → Run (Registry D × Drain D)
  unfolding visit
  next_shard r d =
      visit r d.shard_iter
      >>= rerun
      >>= (λ ((r', found), rest). done (r', record d { current = found; shard_iter = rest }))

  -- The first dump of the current part; a part that becomes empty goes back.
  abbrev pub pop_part : Registry D → Drain D → ℕ → Part D → (Registry D × Drain D) × Option D
  pop_part r d n [] =
      ((record r { fund = add_empty_part r.fund [] }, record d { current = none }), none)
  pop_part r d n (dump ∷ []) =
      ((record r { fund = add_empty_part r.fund [] }, record d { current = none }), some dump)
  pop_part r d n (dump ∷ dump' ∷ part) =
      ((r, record d { current = some (n, dump' ∷ part) }), some dump)

  abbrev pub pop_current :
      Registry D → Drain D → Option (ℕ × Part D) → (Registry D × Drain D) × Option D
  pop_current r d none = ((r, d), none)
  pop_current r d (some (n, part)) = pop_part r d n part

  abbrev pub advance : Registry D → Drain D → ℕ → Option (ℕ × Part D) → Run (Registry D × Drain D)
  advance r d now (some part) = done (r, d)
  advance r d now none = if ltb now d.until then next_shard r d else done (r, d)

  -- `Drain::next`, at a time.
  unfoldable pub drain_next : Registry D → Drain D → ℕ → Run ((Registry D × Drain D) × Option D)
  unfolding next_shard add_empty_part
  drain_next r d now =
      advance r d now d.current >>= (λ (r', d'). done (pop_current r' d' d'.current))

  abbrev pub give_back : Registry D → Option (ℕ × Part D) → Run (Registry D)
  give_back r none = done r
  give_back r (some (n, part)) =
      add_filled_part r.fund n part >>= (λ f. done (record r { fund = f }))

  -- The drop of a drain.
  unfoldable pub drop_drain : Registry D → Drain D → Run (Registry D)
  unfolding add_filled_part
  drop_drain r d = give_back r d.current
