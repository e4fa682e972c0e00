-- ===== src/Dumper/RuleSet/Lookups.antt =====
-- elfo-dumper/src/rule_set.rs: what is looked up after any calls.
use mathlib.Core.List.{List-discrete}
use mathlib.Core.Option
use elfo.Base.{
  ℕ, ◌*◌, ◌≡◌, refl, sym, ap, subst, ◌∙◌, inl, inr, true, ◌&&◌, Option, none, some, List, [], ◌∷◌,
  arith, ◌==◌, Bool-cases,
}
use elfo.Dumper.RuleSet.{
  skip, LogLevel, Rule, Rule-discrete, LevelFilter, warn_level, DumpParams, default_params, RuleSet,
  new_rule_set, of_class, if_changed, configure, convert_level, map_or, merge, merge_all,
  for_message, collect_params, cached, or_collect, do_get, get,
}

pub data Call : Type 0 where
  configures : List Rule → Call
  gets : ℕ → ℕ → Call

unfoldable pub call : RuleSet → Call → RuleSet
unfolding configure get
call s (configures rules) = configure s rules
call s (gets protocol message) = (get s protocol message).0

unfoldable pub calls : RuleSet → List Call → RuleSet
unfolding call
calls s [] = s
calls s (c ∷ cs) = calls (call s c) cs

-- The rules of the last configuration among the calls.
abbrev pub last_rules : List Rule → List Call → List Rule
last_rules rules [] = rules
last_rules rules (configures rules' ∷ cs) = last_rules rules' cs
last_rules rules (gets protocol message ∷ cs) = last_rules rules cs

-- The last of the values that the rules have for a property, or a default.
abbrev pub last_value : {A : Type 0} → A → (Rule → Option A) → List Rule → A
last_value default property [] = default
last_value default property (r ∷ rs) = last_value (map_or default (λ a. a) (property r)) property rs

-- A value of the cache is what would be collected.
abbrev Fresh : RuleSet → List Rule → Type 0
Fresh s rules =
    (s.rules ≡ rules)
    × ((p m : ℕ) (params : DumpParams)
        → cached s.cache p m ≡ some params
        → params ≡ collect_params rules p m)

and_eq : (p q m n : ℕ) → (p == q && m == n) ≡ true → (p ≡ q) × (m ≡ n)
and_eq p q m n h = ground arith

module _ (s : RuleSet) (rules : List Rule) (p m : ℕ) (fresh : Fresh s rules) where
  or_collect-Fresh :
      (found : Option DumpParams)
      → cached s.cache p m ≡ found
      → let result = or_collect s p m found in
        (result.1.1 ≡ collect_params rules p m)
        × (result.0.own_class ≡ s.own_class)
        × Fresh result.0 rules
  or_collect-Fresh (some params) e = (fresh.1 p m params e, refl, fresh)
  or_collect-Fresh none e =
      let same = ap (λ rs. collect_params rs p m) fresh.0 in
      (
        same,
        refl,
        (
          fresh.0,
          λ p' m' params h. elim (Bool-cases (p == p' && m == m')) [
            | inl hit ↦
                let (at_p, at_m) = and_eq p p' m m' hit in
                let value : some (collect_params s.rules p m) ≡ some params = rw hit at h in
                let value' : collect_params s.rules p m ≡ params = cc in
                sym value'
                ∙ same
                ∙ ap (λ t. collect_params rules t m) at_p
                ∙ ap (λ t. collect_params rules p' t) at_m
            | inr miss ↦ fresh.1 p' m' params (rw miss at h)
          ],
        ),
      )

  get-Fresh :
      ((get s p m).1 ≡ collect_params rules p m)
      × ((get s p m).0.own_class ≡ s.own_class)
      × Fresh (get s p m).0 rules
  unfolding get do_get
  get-Fresh = or_collect-Fresh (cached s.cache p m) refl

if_changed-Fresh :
    (s : RuleSet) (old new : List Rule) (d : Dec (s.rules ≡ new))
    → Fresh s old
    → ((if_changed s new d).own_class ≡ s.own_class) × Fresh (if_changed s new d) new
if_changed-Fresh s old new (yes same) fresh = (
  refl,
  (
    same,
    λ p m params h. fresh.1 p m params h ∙ ap (λ rs. collect_params rs p m) (sym fresh.0 ∙ same),
  ),
)
if_changed-Fresh s old new (no differ) fresh = (refl, (refl, λ p m params h. cc))

configure-Fresh :
    (s : RuleSet) (old new : List Rule)
    → Fresh s old
    → ((configure s new).own_class ≡ s.own_class)
      × Fresh (configure s new) (of_class s.own_class new)
unfolding configure
configure-Fresh s old new fresh =
    let wanted = of_class s.own_class new in
    if_changed-Fresh s old wanted (List-discrete Rule-discrete s.rules wanted) fresh

calls-Fresh :
    (s : RuleSet) (rules : List Rule) (cs : List Call)
    → Fresh s (of_class s.own_class rules)
    → ((calls s cs).own_class ≡ s.own_class)
      × Fresh (calls s cs) (of_class s.own_class (last_rules rules cs))
unfolding calls call
calls-Fresh s rules [] fresh = (refl, fresh)
calls-Fresh s rules (configures new ∷ cs) fresh =
    let (same, fresh') = configure-Fresh s (of_class s.own_class rules) new fresh in
    let (same', result) =
      calls-Fresh (configure s new) new cs
        (subst (λ c. Fresh (configure s new) (of_class c new)) (sym same) fresh') in
    (
      same' ∙ same,
      subst (λ c. Fresh (calls (configure s new) cs) (of_class c (last_rules new cs))) same result,
    )
calls-Fresh s rules (gets p m ∷ cs) fresh =
    let (value, same, fresh') = get-Fresh s (of_class s.own_class rules) p m fresh in
    let (same', result) =
      calls-Fresh (get s p m).0 rules cs
        (subst (λ c. Fresh (get s p m).0 (of_class c rules)) (sym same) fresh') in
    (
      same' ∙ same,
      subst (λ c. Fresh (calls (get s p m).0 cs) (of_class c (last_rules rules cs))) same result,
    )

map_or-map :
    (v : LevelFilter) (level : Option LogLevel)
    → map_or v convert_level level ≡ map_or v (λ a. a) (Option.map convert_level level)
map_or-map v none = refl
map_or-map v (some level) = refl

merge_all-last :
    (params : DumpParams) (rs : List Rule)
    → ((merge_all params rs).size_limit ≡ last_value params.size_limit (λ r. r.max_size) rs)
      × ((merge_all params rs).when_too_big
          ≡ last_value params.when_too_big (λ r. r.on_overflow) rs)
      × ((merge_all params rs).overflow_level
          ≡ last_value params.overflow_level (λ r. Option.map convert_level r.log_on_overflow) rs)
      × ((merge_all params rs).failure_level
          ≡ last_value params.failure_level (λ r. Option.map convert_level r.log_on_failure) rs)
merge_all-last params [] = (refl, refl, refl, refl)
merge_all-last params (r ∷ rs) =
    let (size, overflow, level, level') = merge_all-last (merge params r) rs in
    let same = map_or-map params.overflow_level r.log_on_overflow in
    let same' = map_or-map params.failure_level r.log_on_failure in
    (
      size,
      overflow,
      level ∙ ap (λ v. last_value v (λ r. Option.map convert_level r.log_on_overflow) rs) same,
      level' ∙ ap (λ v. last_value v (λ r. Option.map convert_level r.log_on_failure) rs) same',
    )

-- After any calls of a new rule set, each parameter that is looked up for a protocol and a message,
-- cached or not, is the last value for it in the rules of the last configuration that fit the class,
-- the protocol and the message, or the default.
pub last_rule_wins :
    (class : ℕ) (cs : List Call) (protocol message : ℕ)
    → let found = (get (calls (new_rule_set class) cs) protocol message).1 in
      let rules = for_message protocol message (of_class class (last_rules [] cs)) in
      (found.size_limit ≡ last_value (64 * 1024) (λ r. r.max_size) rules)
      × (found.when_too_big ≡ last_value skip (λ r. r.on_overflow) rules)
      × (found.overflow_level
          ≡ last_value warn_level (λ r. Option.map convert_level r.log_on_overflow) rules)
      × (found.failure_level
          ≡ last_value warn_level (λ r. Option.map convert_level r.log_on_failure) rules)
unfolding new_rule_set collect_params
last_rule_wins class cs protocol message =
    let start = new_rule_set class in
    let (same, fresh) = calls-Fresh start [] cs (refl, λ p m params h. cc) in
    let (value, _, _) =
      get-Fresh (calls start cs) (of_class class (last_rules [] cs)) protocol message fresh in
    rw value (
      merge_all-last default_params
        (for_message protocol message (of_class class (last_rules [] cs))))
