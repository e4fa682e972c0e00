-- ===== src/Core/DumpingControl.antt =====
-- elfo-core/src/dumping: whether a dump of a class passes. A class is a number. Calls are one after the
-- other; a limiter that is shared by two versions of the classes is kept once. The time of a check is an
-- argument.
use elfo.Base.{
  ℕ, Bool, true, false, Option, none, some, List, [], ◌∷◌, ◌++◌, ◌==◌, if◌then◌else◌, Run, done,
  panic,
}
use elfo.Base.Assoc.{find}
use elfo.Utils.RateLimiter
use elfo.Utils.RateLimiter.{RateLimiter, unlimited, rps}
pub mod Limiters
pub mod Lazy

pub record DumpingConfig : Type 0 where
  pub disabled : Bool
  pub max_rate : ℕ

abbrev pub default_config : DumpingConfig
default_config = record { disabled = false; max_rate = 100_000 }

pub record PerClass : Type 0 where
  pub disabled : Bool
  pub limiter : RateLimiter

-- The classes in the order in which they were added.
pub record DumpingControl : Type 0 where
  pub config : DumpingConfig
  pub classes : List (ℕ × PerClass)

pub data CheckResult : Type 0 where
  passed not_interested limited : CheckResult

unfoldable pub new_class : PerClass
new_class = record { disabled = true; limiter = RateLimiter.new unlimited }

unfoldable pub with_config : DumpingConfig → PerClass → PerClass
with_config config c = record {
  disabled = config.disabled;
  limiter = RateLimiter.configure c.limiter (rps config.max_rate);
}

abbrev pub new_control : DumpingControl
new_control = record { config = default_config; classes = [] }

abbrev pub configure_classes : DumpingConfig → List (ℕ × PerClass) → List (ℕ × PerClass)
configure_classes config [] = []
configure_classes config ((k, c) ∷ classes) =
    (k, with_config config c) ∷ configure_classes config classes

unfoldable pub configure_control : DumpingControl → DumpingConfig → DumpingControl
unfolding with_config
configure_control d config = record {
  config = config;
  classes = configure_classes config d.classes;
}

abbrev pub add_absent : DumpingControl → ℕ → Option PerClass → DumpingControl
add_absent d class (some c) = d
add_absent d class none = record d {
  classes = d.classes ++ (class, with_config d.config new_class) ∷ [];
}

unfoldable pub add_class : DumpingControl → ℕ → DumpingControl
unfolding with_config new_class
add_class d class = add_absent d class (find d.classes class)

abbrev pub limited_or : Bool → CheckResult
limited_or true = passed
limited_or false = limited

-- `PerClass::check`.
unfoldable pub check_class : PerClass → ℕ → PerClass × CheckResult
check_class c now =
    let (l, acquired) = RateLimiter.acquire c.limiter now in
    if c.disabled then (c, not_interested) else (record c { limiter = l }, limited_or acquired)

-- The limiter of the class that is found first changes in place.
abbrev pub put : List (ℕ × PerClass) → ℕ → PerClass → List (ℕ × PerClass)
put [] class c = []
put ((k, old) ∷ classes) class c =
    let rest = put classes class c in if k == class then (k, c) ∷ classes else (k, old) ∷ rest

abbrev pub check_found : DumpingControl → ℕ → ℕ → PerClass → DumpingControl × CheckResult
check_found d class now c =
    let (c', result) = check_class c now in (record d { classes = put d.classes class c' }, result)

abbrev pub check_added :
    DumpingControl → ℕ → ℕ → Option PerClass → Run (DumpingControl × CheckResult)
check_added d class now none = panic
check_added d class now (some c) = done (check_found d class now c)

abbrev pub check_or_add :
    DumpingControl → ℕ → ℕ → Option PerClass → Run (DumpingControl × CheckResult)
check_or_add d class now (some c) = done (check_found d class now c)
check_or_add d class now none =
    let d' = add_class d class in check_added d' class now (find d'.classes class)

unfoldable pub check : DumpingControl → ℕ → ℕ → Run (DumpingControl × CheckResult)
unfolding add_class check_class
check d class now = check_or_add d class now (find d.classes class)
