-- ===== src/Dumper/DumpStorage/Registry.antt =====
-- `DumpRegistry` of elfo-dumper/src/dump_storage.rs. The shards are listed by their number, each by
-- its active part; what `get_or` of the thread-local shards returns for a thread is an argument.
use elfo.Base.{
  ℕ, Bool, true, false, Option, none, some, List, [], ◌∷◌, ◌++◌, if◌then◌else◌, set, get_or, Run,
  done, ◌>>=◌,
}
use elfo.Dumper.DumpStorage.Fund.{
  Part, Fund, new_fund, is_full, configure_fund, add_shard, add_filled_part, get_empty_part,
}

pub record Registry (D : Type 0) : Type 0 where
  pub fund : Fund D
  pub shards : List (Part D)

module _ {D : Type 0} where
  unfoldable pub new_registry : ℕ → Registry D
  unfolding new_fund
  new_registry max_part_count = record { fund = new_fund max_part_count; shards = [] }

  unfoldable pub configure_registry : Registry D → ℕ → Registry D
  unfolding configure_fund
  configure_registry r max_part_count = record r { fund = configure_fund r.fund max_part_count }

  unfoldable pub make_shard : Registry D → Registry D × ℕ
  unfolding add_shard get_empty_part
  make_shard r =
      let (fund, shard_no) = add_shard r.fund in
      let (fund', part) = get_empty_part fund in
      (record { fund = fund'; shards = r.shards ++ part ∷ [] }, shard_no)

  -- The active part of a shard, to which a dump is added.
  unfoldable pub push : Registry D → ℕ → D → Registry D
  push r n dump = record r { shards = set r.shards n (get_or r.shards n [] ++ dump ∷ []) }

  -- The active part becomes the last filled one, and an empty part takes its place.
  unfoldable pub replace_part : Registry D → ℕ → Run (Registry D)
  unfolding add_filled_part get_empty_part
  replace_part r n =
      let (fund, part) = get_empty_part r.fund in
      add_filled_part fund n (get_or r.shards n [])
      >>= (λ fund'. done (record { fund = fund'; shards = set r.shards n part }))

  unfoldable pub renew_active_part : Registry D → ℕ → (Part D → Bool) → Run (Registry D × Bool)
  unfolding replace_part
  renew_active_part r n predicate =
      if predicate (get_or r.shards n [])
      then replace_part r n >>= (λ r'. done (r', true))
      else done (r, false)

  abbrev pub renew_if : Bool → Registry D → ℕ → Run (Registry D)
  renew_if false r n = done r
  renew_if true r n = renew_active_part r n is_full >>= (λ (r', renewed). done r')

  -- The shard of the thread, made if there is none.
  abbrev pub shard_of : Registry D → Option ℕ → Registry D × ℕ
  shard_of r (some n) = (r, n)
  shard_of r none = make_shard r

  unfoldable pub add : Registry D → Option ℕ → D → Run (Registry D)
  unfolding push renew_active_part
  add r thread dump =
      let (r', n) = shard_of r thread in
      let r'' = push r' n dump in renew_if (is_full (get_or r''.shards n [])) r'' n
