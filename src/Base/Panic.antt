-- ===== src/Base/Panic.antt =====
-- A Rust panic as a value: code with an assertion, an `expect` or checked arithmetic returns `Run`.
use mathlib.Core.Path.{◌≡◌, refl}
use mathlib.Core.Logic.{◌≢◌}

pub data Run {ℓ} (A : Type ℓ) : Type ℓ where
  done : A → Run A
  panic : Run A

infixl 5 ◌>>=◌
abbrev pub ◌>>=◌ {ℓ κ} : {A : Type ℓ} {B : Type κ} → Run A → (A → Run B) → Run B
done a >>= f = f a
panic >>= f = panic

-- A chain that returns a value passed through each of its steps.
pub >>=-eq-done {ℓ κ} :
    {A : Type ℓ} {B : Type κ} (m : Run A) (f : A → Run B) {b : B}
    → (m >>= f) ≡ done b
    → (a : A) × (m ≡ done a) × (f a ≡ done b)
>>=-eq-done (done a) f h = (a, refl, h)
>>=-eq-done panic f h = cc

pub done_injective {ℓ} : {A : Type ℓ} {a b : A} → done a ≡ done b → a ≡ b
done_injective h = cc

-- What does not panic returns a value.
pub returns_value {ℓ} : {A : Type ℓ} (r : Run A) → r ≢ panic → (a : A) × (r ≡ done a)
returns_value (done a) h = (a, refl)
returns_value panic h = absurd (h refl)
