-- ===== src/Dumper/RuleSet.antt =====
-- elfo-dumper/src/rule_set.rs: the parameters of dumping by protocol and message, with a cache. Names
-- of classes, protocols and messages are numbers.
use mathlib.Core.List.{List-discrete}
use native.Mathlib.Decide.{ℕ_discrete}
use elfo.Base.{
  ℕ, ◌*◌, ◌≡◌, Bool, true, false, ◌&&◌, Option, none, some, List, [], ◌∷◌, ◌==◌, if◌then◌else◌,
}
pub mod Lookups

pub data OnOverflow : Type 0 where
  skip truncate : OnOverflow

pub data LogLevel : Type 0 where
  trace debug info warn error off : LogLevel

OnOverflow-discrete : Discrete OnOverflow
OnOverflow-discrete = hlevel

LogLevel-discrete : Discrete LogLevel
LogLevel-discrete = hlevel

pub record Rule : Type 0 where
  pub class : Option ℕ
  pub protocol : Option ℕ
  pub message : Option ℕ
  pub max_size : Option ℕ
  pub on_overflow : Option OnOverflow
  pub log_on_overflow : Option LogLevel
  pub log_on_failure : Option LogLevel

pub Rule-discrete : Discrete Rule
Rule-discrete = hlevel (OnOverflow-discrete, LogLevel-discrete, ℕ_discrete)

-- `tracing::LevelFilter`.
pub data LevelFilter : Type 0 where
  trace_level debug_level info_level warn_level error_level off_level : LevelFilter

pub record DumpParams : Type 0 where
  pub size_limit : ℕ
  pub when_too_big : OnOverflow
  pub overflow_level : LevelFilter
  pub failure_level : LevelFilter

abbrev pub default_params : DumpParams
default_params = record {
  size_limit = 64 * 1024;
  when_too_big = skip;
  overflow_level = warn_level;
  failure_level = warn_level;
}

-- The cache is keyed by protocol and message.
pub record RuleSet : Type 0 where
  pub own_class : ℕ
  pub rules : List Rule
  pub cache : List ((ℕ × ℕ) × DumpParams)

unfoldable pub new_rule_set : ℕ → RuleSet
new_rule_set class = record { own_class = class; rules = []; cache = [] }

-- `is_none_or` with an equality.
abbrev pub fits : Option ℕ → ℕ → Bool
fits none n = true
fits (some m) n = m == n

abbrev pub filter : {A : Type 0} → (A → Bool) → List A → List A
filter p [] = []
filter p (x ∷ xs) = let rest = filter p xs in if p x then x ∷ rest else rest

abbrev pub of_class : ℕ → List Rule → List Rule
of_class class = filter (λ r. fits r.class class)

-- New rules of the class, unless they are those that the rule set has.
abbrev pub if_changed : (s : RuleSet) (new : List Rule) → Dec (s.rules ≡ new) → RuleSet
if_changed s new (yes same) = s
if_changed s new (no differ) = record s { cache = []; rules = new }

unfoldable pub configure : RuleSet → List Rule → RuleSet
configure s rules =
    let new = of_class s.own_class rules in
    if_changed s new (List-discrete Rule-discrete s.rules new)

unfoldable pub convert_level : LogLevel → LevelFilter
convert_level trace = trace_level
convert_level debug = debug_level
convert_level info = info_level
convert_level warn = warn_level
convert_level error = error_level
convert_level off = off_level

abbrev pub map_or : {A B : Type 0} → B → (A → B) → Option A → B
map_or b f none = b
map_or b f (some a) = f a

-- One round of the loop of `collect_params`.
abbrev pub merge : DumpParams → Rule → DumpParams
merge params r = record {
  size_limit = map_or params.size_limit (λ n. n) r.max_size;
  when_too_big = map_or params.when_too_big (λ o. o) r.on_overflow;
  overflow_level = map_or params.overflow_level convert_level r.log_on_overflow;
  failure_level = map_or params.failure_level convert_level r.log_on_failure;
}

abbrev pub merge_all : DumpParams → List Rule → DumpParams
merge_all params [] = params
merge_all params (r ∷ rs) = merge_all (merge params r) rs

abbrev pub for_message : ℕ → ℕ → List Rule → List Rule
for_message protocol message = filter (λ r. fits r.protocol protocol && fits r.message message)

unfoldable pub collect_params : List Rule → ℕ → ℕ → DumpParams
unfolding convert_level
collect_params rules protocol message =
    merge_all default_params (for_message protocol message rules)

abbrev pub cached : List ((ℕ × ℕ) × DumpParams) → ℕ → ℕ → Option DumpParams
cached [] p m = none
cached (((p', m'), params) ∷ entries) p m =
    let rest = cached entries p m in if p' == p && m' == m then some params else rest

abbrev pub or_collect : RuleSet → ℕ → ℕ → Option DumpParams → RuleSet × (Bool × DumpParams)
or_collect s protocol message (some params) = (s, (true, params))
or_collect s protocol message none =
    let params = collect_params s.rules protocol message in
    (record s { cache = ((protocol, message), params) ∷ s.cache }, (false, params))

-- Whether the parameters were in the cache, and the parameters.
unfoldable pub do_get : RuleSet → ℕ → ℕ → RuleSet × (Bool × DumpParams)
unfolding collect_params
do_get s protocol message = or_collect s protocol message (cached s.cache protocol message)

unfoldable pub get : RuleSet → ℕ → ℕ → RuleSet × DumpParams
unfolding do_get
get s protocol message = let (s', (from_cache, params)) = do_get s protocol message in (s', params)
