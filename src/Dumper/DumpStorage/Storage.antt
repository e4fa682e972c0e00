-- ===== src/Dumper/DumpStorage/Storage.antt =====
-- `DumpStorage` of elfo-dumper/src/dump_storage.rs: the registries by class. A class is the number of
-- its name.
use elfo.Base.{ℕ, ◌-◌, ◌/◌, ◌^◌, Option, none, some, List, [], ◌∷◌, ◌==◌, if◌then◌else◌}
use elfo.Base.Assoc.{find, insert}
use elfo.Dumper.DumpStorage.Fund.{part_capacity}
use elfo.Dumper.DumpStorage.Registry.{Registry, new_registry, configure_registry}

pub record DumpStorage (D : Type 0) : Type 0 where
  pub registry_max : ℕ
  pub registries : List (ℕ × Registry D)
  pub classes : List ℕ

-- `usize::MAX`.
abbrev pub usize_max : ℕ
usize_max = 2 ^ 64 - 1

-- A set as a list without repetitions.
abbrev pub insert_class : List ℕ → ℕ → List ℕ
insert_class [] k = k ∷ []
insert_class (j ∷ js) k = let rest = insert_class js k in if j == k then j ∷ js else j ∷ rest

module _ {D : Type 0} where
  unfoldable pub new_storage : DumpStorage D
  new_storage = record { registry_max = usize_max; registries = []; classes = [] }

  abbrev pub configure_all : ℕ → List (ℕ × Registry D) → List (ℕ × Registry D)
  configure_all max_part_count [] = []
  configure_all max_part_count ((class, r) ∷ rs) =
      (class, configure_registry r max_part_count) ∷ configure_all max_part_count rs

  unfoldable pub configure_storage : DumpStorage D → ℕ → DumpStorage D
  unfolding configure_registry
  configure_storage s registry_capacity =
      let max_part_count = registry_capacity / part_capacity in
      record s {
        registry_max = max_part_count;
        registries = configure_all max_part_count s.registries;
      }

  abbrev pub or_new : DumpStorage D → ℕ → Option (Registry D) → DumpStorage D × Registry D
  or_new s class (some r) = (s, r)
  or_new s class none = (
    record s { registries = insert s.registries class (new_registry s.registry_max) },
    new_registry s.registry_max,
  )

  -- The registry of a class, made if there is none.
  unfoldable pub registry : DumpStorage D → ℕ → DumpStorage D × Registry D
  unfolding new_registry
  registry s class =
      or_new (record s { classes = insert_class s.classes class }) class (find s.registries class)
