-- ===== src/Dumper/RuleExamples.antt =====
-- The theorem about rules of dumping at concrete rules.
use mathlib.Core.Option
use elfo.Base.{◌*◌, ◌≡◌, refl, none, some, List, [], ◌∷◌}
use elfo.Dumper.RuleSet.{
  skip, truncate, error, Rule, warn_level, new_rule_set, of_class, convert_level, for_message, get,
}
use elfo.Dumper.RuleSet.Lookups.{
  Call, configures, gets, calls, last_rules, last_value, last_rule_wins,
}

abbrev any_rule : Rule
any_rule = record {
  class = none;
  protocol = none;
  message = none;
  max_size = some 4;
  on_overflow = some truncate;
  log_on_overflow = none;
  log_on_failure = none;
}

abbrev some_calls : List Call
some_calls =
    configures (any_rule ∷ [])
    ∷ gets 1 2
    ∷ configures (
        any_rule
        ∷ record any_rule { protocol = some 1; max_size = some 8; log_on_failure = some error }
        ∷ [])
    ∷ []

last_rule_wins_example :
    let found = (get (calls (new_rule_set 5) some_calls) 1 2).1 in
    let rules = for_message 1 2 (of_class 5 (last_rules [] some_calls)) in
    (found.size_limit ≡ last_value (64 * 1024) (λ r. r.max_size) rules)
    × (found.when_too_big ≡ last_value skip (λ r. r.on_overflow) rules)
    × (found.overflow_level
        ≡ last_value warn_level (λ r. Option.map convert_level r.log_on_overflow) rules)
    × (found.failure_level
        ≡ last_value warn_level (λ r. Option.map convert_level r.log_on_failure) rules)
last_rule_wins_example = last_rule_wins 5 some_calls 1 2

-- The last rule that has a size wins.
size_test :
    last_value
      (64 * 1024)
      (λ r. r.max_size)
      (for_message 1 2 (of_class 5 (last_rules [] some_calls)))
    ≡ 8
size_test = refl
