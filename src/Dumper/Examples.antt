-- ===== src/Dumper/Examples.antt =====
-- The theorems about dumps at concrete inputs.
use mathlib.Core.List.{Sublist}
use elfo.Base.{ℕ, ◌+◌, ◌≤◌, max, ◌≡◌, refl, true, false, none, some, [], ◌∷◌, ◌++◌, arith, length}
use elfo.Dumper.DumpStorage.Fund.{
  new_fund, is_empty, is_full, add_shard, add_filled_part, get_filled_part, get_empty_part,
}
use elfo.Dumper.DumpStorage.Registry.{
  Registry, new_registry, make_shard, push, replace_part, renew_active_part,
}
use elfo.Dumper.DumpStorage.Drain.{Drain, new_drain, take_filled, try_shard, visit, next_shard}
use elfo.Dumper.DumpStorage.Parts.{total}
use elfo.Dumper.DumpStorage.Steps.{
  update, World, joins, pushes, takes, refreshes, pops, start, Reach, here, next,
}
use elfo.Dumper.DumpStorage.Accounts.{held}
use elfo.Dumper.DumpStorage.Limits.{parts_are_bounded}
use elfo.Dumper.DumpStorage.Order.{in_registry}
use elfo.Dumper.DumpStorage.Delivery.{on_the_way, drained_in_order}
use elfo.Dumper.DumpStorage.Emptied.{nothing_is_left}

-- A thread that has added two dumps, the first of which was drained.
abbrev one_filled : Registry ℕ
one_filled = record {
  fund = record { max_part_count = 4; part_count = 2; empty_parts = []; filled_parts = [] ∷ [] };
  shards = [] ∷ [];
}

abbrev half_drained : World ℕ
half_drained = record {
  registry = one_filled;
  drain = record { shard_iter = []; current = some (0, 8 ∷ []); until = 0 };
  renewing = update (update (λ n. false) 0 false) 0 false;
  added = update (update (λ n. []) 0 (7 ∷ [])) 0 (7 ∷ 8 ∷ []);
  drained = update (λ n. []) 0 (7 ∷ []);
  spared = true;
  whole = true;
}

half_drained-Reach : Reach 4 half_drained
unfolding start new_registry new_fund new_drain make_shard add_shard get_empty_part push is_full
    renew_active_part replace_part take_filled get_filled_part add_filled_part is_empty
half_drained-Reach =
    next
      (next
        (next
          (next (next (next here (joins refl)) (pushes 0 7 (omega arith) refl))
            (pushes 0 8 (omega arith) refl))
          (refreshes 0 refl))
        (takes 0 [] refl refl))
      (pops 0 (7 ∷ 8 ∷ []) refl refl)

parts_are_bounded_example :
    (one_filled.fund.part_count
      ≡ length one_filled.fund.empty_parts
        + total one_filled.fund.filled_parts
        + length one_filled.shards
        + held (half_drained.drain).current)
    × (one_filled.fund.part_count ≤ max 4 (length one_filled.shards + 2))
parts_are_bounded_example = parts_are_bounded 4 half_drained half_drained-Reach

drained_in_order_example :
    Sublist (half_drained.drained 0 ++ on_the_way half_drained 0) (half_drained.added 0)
    × (half_drained.spared ≡ true
        → half_drained.drained 0 ++ on_the_way half_drained 0 ≡ half_drained.added 0)
drained_in_order_example = drained_in_order 4 half_drained 0 half_drained-Reach refl

-- A drain of a registry from which everything was taken.
abbrev spent : Drain ℕ
spent = record { shard_iter = []; current = none; until = 9 }

nothing_is_left_example : (one_filled ≡ one_filled) × ((k : ℕ) → in_registry one_filled k ≡ [])
unfolding next_shard visit try_shard take_filled get_filled_part renew_active_part is_empty
nothing_is_left_example = nothing_is_left one_filled spent one_filled spent refl refl refl
