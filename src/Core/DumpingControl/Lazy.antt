-- ===== src/Core/DumpingControl/Lazy.antt =====
-- elfo-core/src/dumping/control.rs: classes that are added at their first check.
use elfo.Base.{
  ℕ, ◌≡◌, refl, sym, ap, ◌∙◌, inl, inr, Option, none, some, List, [], ◌∷◌, ◌==◌, Bool-cases,
  if_true, done, ◌>>=◌,
}
use elfo.Base.Assoc.{find}
use elfo.Core.DumpingControl.{
  PerClass, DumpingControl, new_class, with_config, new_control, configure_control, add_absent,
  add_class, check_class, check_found, check_added, check_or_add, check,
}
use elfo.Core.DumpingControl.Limiters.{
  Limiters, Call, configures, checks, new_limiters, check_limiter, eager_results, results,
  reconfigured, expected, or_expected, Matches, find-push, find-put, configure-Matches,
  check_limiter-others, check_limiter-config, or_expected-config, found-checked, same_class,
  ==_self,
}

found-Matches :
    (d : DumpingControl) (s : Limiters) (class now : ℕ) (c : PerClass)
    → Matches d s
    → find d.classes class ≡ some c
    → Matches (check_found d class now c).0 (check_limiter s class now).0
found-Matches d s class now c m e =
    let s' = (check_limiter s class now).0 in
    record {
      config_same = m.config_same ∙ sym (check_limiter-config s class now);
      class_same = λ k.
          ap (λ found. or_expected s' k found)
            (find-put d.classes class c (check_class c now).0 k e)
          ∙ elim (Bool-cases (k == class)) [
            | inl same ↦ rw same (
                ap (λ p. p.0) (found-checked d s class now c m e)
                ∙ ap (λ k. expected s' k) (same_class k class same))
            | inr other ↦ rw other (
                or_expected-config s s' k (find d.classes k) (check_limiter-config s class now)
                ∙ m.class_same k
                ∙ sym (check_limiter-others s class now k other))
          ];
    }

added-Matches :
    (d : DumpingControl) (s : Limiters) (class : ℕ)
    → Matches d s
    → find d.classes class ≡ none
    → Matches (add_absent d class none) s
added-Matches d s class m e = record {
  config_same = m.config_same;
  class_same = λ k.
      ap (λ found. or_expected s k found)
        (find-push d.classes class (with_config d.config new_class) k e)
      ∙ elim (Bool-cases (k == class)) [
        | inl same ↦ rw same (
            ap (λ config. with_config config new_class) m.config_same
            ∙ sym (ap (λ found. or_expected s class found) e)
            ∙ m.class_same class
            ∙ ap (λ k. expected s k) (same_class k class same))
        | inr other ↦ rw other (m.class_same k)
      ];
}

-- A check with what was found for the class.
check-Matches :
    (d : DumpingControl) (s : Limiters) (class now : ℕ) (found : Option PerClass)
    → Matches d s
    → find d.classes class ≡ found
    → (d' : DumpingControl) × (check_or_add d class now found
        ≡ done (d', (check_limiter s class now).1))
      × Matches d' (check_limiter s class now).0
unfolding add_class
check-Matches d s class now (some c) m e = (
  (check_found d class now c).0,
  ap (λ p. done ((check_found d class now c).0, p.1)) (found-checked d s class now c m e),
  found-Matches d s class now c m e,
)
check-Matches d s class now none m e =
    let c = with_config d.config new_class in
    let d' = add_absent d class none in
    let added = find-push d.classes class c class e ∙ if_true _ _ (==_self class) in
    let m' = added-Matches d s class m e in
    (
      (check_found d' class now c).0,
      ap
            (λ found.
              let d' = add_absent d class found in check_added d' class now (find d'.classes class))
            e
          ∙ ap (λ found. check_added d' class now found) added
          ∙ ap (λ p. done ((check_found d' class now c).0, p.1))
              (found-checked d' s class now c m' added),
      found-Matches d' s class now c m' added,
    )

results-Matches :
    (d : DumpingControl) (s : Limiters) (calls : List Call)
    → Matches d s
    → results d calls ≡ done (eager_results s calls)
unfolding results check
results-Matches d s [] m = refl
results-Matches d s (configures config ∷ calls) m =
    results-Matches (configure_control d config) (reconfigured s config) calls
      (configure-Matches d s config m)
results-Matches d s (checks class now ∷ calls) m =
    let (d', e, m') = check-Matches d s class now (find d.classes class) m refl in
    let (s', result) = check_limiter s class now in
    ap (λ r. r >>= (λ (d', result). results d' calls >>= (λ rest. done (result ∷ rest)))) e
    ∙ ap (λ r. r >>= (λ rest. done (result ∷ rest))) (results-Matches d' s' calls m')

-- Classes are added when they are checked first, but in any sequence of checks at any times and of
-- changes of the configuration no check panics, and the checks answer as if every class had had a
-- limiter from the start that each configuration has set: a class is not of interest while dumping is
-- disabled, which takes nothing from its limiter, else it passes when its own limiter permits.
pub classes_seem_eager :
    (calls : List Call) → results new_control calls ≡ done (eager_results new_limiters calls)
unfolding with_config new_class
classes_seem_eager calls =
    results-Matches new_control new_limiters calls
      (record { config_same = refl; class_same = λ k. refl })
