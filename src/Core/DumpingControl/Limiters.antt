-- ===== src/Core/DumpingControl/Limiters.antt =====
-- elfo-core/src/dumping/control.rs: the classes against limiters that have always been there.
use elfo.Base.{
  ℕ, ◌≡◌, refl, sym, ap, ◌∙◌, inl, inr, true, false, Option, none, some, List, [], ◌∷◌, ◌++◌, arith,
  ◌==◌, if◌then◌else◌, Bool-cases, Run, done, ◌>>=◌,
}
use elfo.Base.Assoc.{find}
use elfo.Utils.RateLimiter
use elfo.Utils.RateLimiter.{unlimited, rps, RateLimiter}
use elfo.Core.DumpingControl.{
  DumpingConfig, default_config, PerClass, DumpingControl, CheckResult, not_interested, new_class,
  with_config, configure_classes, configure_control, limited_or, check_class, put, check,
}

-- The description: every class has had a limiter from the start.
pub record Limiters : Type 0 where
  pub config : DumpingConfig
  pub limiter_of : ℕ → RateLimiter

pub data Call : Type 0 where
  configures : DumpingConfig → Call
  checks : ℕ → ℕ → Call

abbrev pub new_limiters : Limiters
new_limiters = record {
  config = default_config;
  limiter_of = λ class. RateLimiter.configure (RateLimiter.new unlimited) (rps 100_000);
}

-- The limiters of the description under another configuration.
abbrev pub reconfigured : Limiters → DumpingConfig → Limiters
reconfigured s config = record {
  config = config;
  limiter_of = λ class. RateLimiter.configure (s.limiter_of class) (rps config.max_rate);
}

abbrev pub check_limiter : Limiters → ℕ → ℕ → Limiters × CheckResult
check_limiter s class now =
    let (l, acquired) = RateLimiter.acquire (s.limiter_of class) now in
    if s.config.disabled then (s, not_interested) else (
      record s { limiter_of = λ k. if k == class then l else s.limiter_of k },
      limited_or acquired,
    )

abbrev pub eager_results : Limiters → List Call → List CheckResult
eager_results s [] = []
eager_results s (configures config ∷ calls) = eager_results (reconfigured s config) calls
eager_results s (checks class now ∷ calls) =
    let (s', result) = check_limiter s class now in result ∷ eager_results s' calls

unfoldable pub results : DumpingControl → List Call → Run (List CheckResult)
unfolding check configure_control
results d [] = done []
results d (configures config ∷ calls) = results (configure_control d config) calls
results d (checks class now ∷ calls) =
    check d class now >>= (λ (d', result). results d' calls >>= (λ rest. done (result ∷ rest)))

-- A class as the description has it.
abbrev pub expected : Limiters → ℕ → PerClass
expected s class = record { disabled = s.config.disabled; limiter = s.limiter_of class }

abbrev pub or_expected : Limiters → ℕ → Option PerClass → PerClass
or_expected s class (some c) = c
or_expected s class none = with_config s.config new_class

pub record Matches (d : DumpingControl) (s : Limiters) : Type 0 where
  pub config_same : d.config ≡ s.config
  pub class_same : (k : ℕ) → or_expected s k (find d.classes k) ≡ expected s k

abbrev configured : DumpingConfig → Option PerClass → Option PerClass
configured config none = none
configured config (some c) = some (with_config config c)

pub find-configure :
    (config : DumpingConfig) (classes : List (ℕ × PerClass)) (k : ℕ)
    → find (configure_classes config classes) k ≡ configured config (find classes k)
find-configure config [] k = refl
find-configure config ((j, c) ∷ classes) k = elim (Bool-cases (j == k)) [
  | inl e ↦ rw e refl
  | inr e ↦ rw e (find-configure config classes k)
]

pub configured-expected :
    (s : Limiters) (config : DumpingConfig) (k : ℕ) (found : Option PerClass)
    → or_expected s k found ≡ expected s k
    → or_expected (reconfigured s config) k (configured config found)
      ≡ expected (reconfigured s config) k
unfolding with_config RateLimiter.configure
configured-expected s config k none h = ap (λ c. with_config config c) h
configured-expected s config k (some c) h = ap (λ c. with_config config c) h

pub find-push :
    (classes : List (ℕ × PerClass)) (class : ℕ) (c : PerClass) (k : ℕ)
    → find classes class ≡ none
    → find (classes ++ (class, c) ∷ []) k ≡ (if k == class then some c else find classes k)
find-push [] class c k h = ground arith
find-push ((j, old) ∷ classes) class c k h = ground (arith, find-push classes class c k)

pub find-put :
    (classes : List (ℕ × PerClass)) (class : ℕ) (old c : PerClass) (k : ℕ)
    → find classes class ≡ some old
    → find (put classes class c) k ≡ (if k == class then some c else find classes k)
find-put [] class old c k h = cc
find-put ((j, a) ∷ classes) class old c k h = ground (arith, find-put classes class old c k)

pub configure-Matches :
    (d : DumpingControl) (s : Limiters) (config : DumpingConfig)
    → Matches d s
    → Matches (configure_control d config) (reconfigured s config)
unfolding configure_control
configure-Matches d s config m = record {
  config_same = refl;
  class_same = λ k.
      ap (λ found. or_expected (reconfigured s config) k found) (find-configure config d.classes k)
      ∙ configured-expected s config k (find d.classes k) (m.class_same k);
}

pub check_class-expected :
    (s : Limiters) (class now : ℕ)
    → check_class (expected s class) now
      ≡ (let (s', result) = check_limiter s class now in (expected s' class, result))
unfolding check_class
check_class-expected s class now = ground arith

pub check_limiter-others :
    (s : Limiters) (class now k : ℕ)
    → (k == class) ≡ false
    → expected (check_limiter s class now).0 k ≡ expected s k
check_limiter-others s class now k e = ground arith

pub check_limiter-config :
    (s : Limiters) (class now : ℕ) → (check_limiter s class now).0.config ≡ s.config
check_limiter-config s class now = ground arith

pub or_expected-config :
    (s s' : Limiters) (k : ℕ) (found : Option PerClass)
    → s'.config ≡ s.config
    → or_expected s' k found ≡ or_expected s k found
or_expected-config s s' k none h = ap (λ config. with_config config new_class) h
or_expected-config s s' k (some c) h = refl

pub found-checked :
    (d : DumpingControl) (s : Limiters) (class now : ℕ) (c : PerClass)
    → Matches d s
    → find d.classes class ≡ some c
    → check_class c now
      ≡ (let (s', result) = check_limiter s class now in (expected s' class, result))
found-checked d s class now c m e =
    ap (λ c. check_class c now)
      (sym (ap (λ found. or_expected s class found) e) ∙ m.class_same class)
    ∙ check_class-expected s class now

pub ==_self : (class : ℕ) → (class == class) ≡ true
==_self class = ground arith

pub same_class : (k class : ℕ) → (k == class) ≡ true → class ≡ k
same_class k class h = ground arith
