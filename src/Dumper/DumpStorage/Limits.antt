-- ===== src/Dumper/DumpStorage/Limits.antt =====
-- elfo-dumper/src/dump_storage.rs: the number of parts of a registry in any interleaving.
use elfo.Base.{
  ℕ, zero, suc, ◌+◌, ◌-◌, ◌≤◌, ◌<◌, max, ◌≡◌, refl, ap, subst, ◌∙◌, ◌⊎◌, inl, inr, not, Option,
  List, [], ◌∷◌, ◌++◌, arith, ltb, Bool-cases, Option-cases, length, length-set, get_or,
}
use elfo.Dumper.DumpStorage.Fund.{
  Part, Fund, new_fund, is_empty, is_full, clear_most_filled, drop_empty, drop_filled,
  configure_fund,
}
use elfo.Dumper.DumpStorage.Registry.{Registry, new_registry, configure_registry, push}
use elfo.Dumper.DumpStorage.Drain.{Drain, new_drain, drop_drain}
use elfo.Dumper.DumpStorage.Parts.{
  total, AllNil, clear_most_filled-some, clear_most_filled-none, Cleared-total,
}
use elfo.Dumper.DumpStorage.Steps.{
  World, Step, joins, pushes, renews, takes, refreshes, pops, drains, configures, start, Reach,
  here, next,
}
use elfo.Dumper.DumpStorage.Accounts.{
  held, Account, RegistryAccount, Inv, make_shard-Account, renew_active_part-Account,
  take_filled-Account, pop_current-Account, give_up-Account,
}

module _ {D : Type 0} where
  drop_empty-counts :
      (max_count count : ℕ) (ps : List (Part D))
      → AllNil ps
      → let (count', ps') = drop_empty max_count count ps in
        AllNil ps'
        × (count' + length ps ≡ count + length ps')
        × ((count' ≤ max_count) ⊎ (length ps' ≡ 0))
  unfolding drop_empty
  drop_empty-counts max_count count [] nils = (tt, refl, inr refl)
  drop_empty-counts max_count count (p ∷ ps) nils = elim (Bool-cases (ltb max_count count)) [
    | inr less ↦ rw less (nils, omega arith, inl (ground arith))
    | inl more ↦
        let over : max_count < count = ground arith in
        let (rest, same, few) = drop_empty-counts max_count (count - 1) ps nils.1 in
        rw more (rest, omega arith, few)
  ]

  drop_filled-counts :
      (max_count count : ℕ) (filled : List (List (Part D)))
      → let (count', filled') = drop_filled max_count count filled in
        (length filled' ≡ length filled)
        × (count' + total filled ≡ count + total filled')
        × ((count' ≤ max_count) ⊎ (total filled' ≡ 0))
  unfolding drop_filled
  drop_filled-counts max_count zero filled = (refl, refl, inl (omega arith))
  drop_filled-counts max_count (suc count) filled = elim (Bool-cases (ltb max_count (suc count))) [
    | inr less ↦ rw less (refl, refl, inl (ground arith))
    | inl more ↦ elim (Option-cases (clear_most_filled filled)) [
      | inl e ↦ rw (more, e) (refl, refl, inr (clear_most_filled-none filled e))
      | inr ((part, filled'), e) ↦
          let (fewer, as_long) = Cleared-total (clear_most_filled-some filled e) in
          let (shape, same, few) = drop_filled-counts max_count count filled' in
          rw (more, e) (shape ∙ as_long, omega arith, few)
    ]
  ]

  configure_fund-Account :
      (f : Fund D) (max_count queues shards loaned : ℕ)
      → Account f queues shards loaned
      → Account (configure_fund f max_count) queues shards loaned
  unfolding configure_fund
  configure_fund-Account f max_count queues shards loaned a =
      let count = (drop_empty max_count f.part_count f.empty_parts).0 in
      let (nils, empties, few_empty) =
        drop_empty-counts max_count f.part_count f.empty_parts a.nothing in
      let (shape, filled, few_filled) = drop_filled-counts max_count count f.filled_parts in
      record {
        shape = shape ∙ a.shape;
        nothing = nils;
        counted = omega (arith, a.counted);
        bounded = omega (arith, a.counted, a.one_drain);
        one_drain = a.one_drain;
      }

  Inv-Step : {w w' : World D} → Step w w' → Inv w → Inv w'
  unfolding push configure_registry new_drain drop_drain
  Inv-Step {w = w} (joins h) i =
      subst (λ (r : Registry D). RegistryAccount r (held (w.drain).current)) (ap (λ t. t.0) h)
        (make_shard-Account w.registry (held (w.drain).current) i)
  Inv-Step {w = w} (pushes n dump p idle) i =
      let as_long =
        length-set (w.registry).shards n (get_or (w.registry).shards n [] ++ dump ∷ []) in
      rw as_long i
  Inv-Step {w = w} (renews n p h) i =
      renew_active_part-Account w.registry n (held (w.drain).current) is_full h i
  Inv-Step {w = w} (takes n rest e h) i =
      take_filled-Account w.registry n h (subst (λ c. RegistryAccount w.registry (held c)) e i)
  Inv-Step {w = w} (refreshes n h) i =
      renew_active_part-Account w.registry n (held (w.drain).current) (λ part. not (is_empty part))
        h i
  Inv-Step {w = w} (pops n part e h) i =
      subst (λ (t : (Registry D × Drain D) × Option D). RegistryAccount t.0.0 (held t.0.1.current))
        h (pop_current-Account w.registry w.drain (w.drain).current refl i)
  Inv-Step {w = w} (drains now timeout h) i = give_up-Account w.registry (w.drain).current h i
  Inv-Step {w = w} (configures m) i =
      configure_fund-Account (w.registry).fund m _ _ (held (w.drain).current) i

  pub Inv-Reach : {m : ℕ} {w : World D} → Reach m w → Inv w
  unfolding start new_registry new_fund new_drain
  Inv-Reach here = record {
    shape = refl;
    nothing = tt;
    counted = refl;
    bounded = omega arith;
    one_drain = omega arith;
  }
  Inv-Reach (next r s) = Inv-Step s (Inv-Reach r)

  -- In any interleaving of threads that add dumps, of configurations and of a drain, the count of the
  -- parts is that of the empty and the filled ones, of the active ones and of the one in the drain,
  -- and it is at most the configured number, or the number of shards and two if this is more.
  pub parts_are_bounded :
      (m : ℕ) (w : World D)
      → Reach m w
      → let f = (w.registry).fund in
        let shards = length (w.registry).shards in
        (f.part_count
          ≡ length f.empty_parts + total f.filled_parts + shards + held (w.drain).current)
        × (f.part_count ≤ max f.max_part_count (shards + 2))
  parts_are_bounded m w r = let i = Inv-Reach r in (i.counted, i.bounded)
