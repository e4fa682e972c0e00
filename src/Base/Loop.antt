-- ===== src/Base/Loop.antt =====
-- A Rust `loop` as repeated steps on fuel: a step goes round again or breaks with a value.
use elfo.Base.Panic.{Run, done, panic}
use Prim.Native.Nat.{ℕ, zero, suc, ◌<◌}
use mathlib.Core.Path.{◌≡◌, refl}
use mathlib.Core.Logic.{◌≢◌}
use native.Mathlib.Omega.{arith}

pub data Step {κ} (A : Type κ) : Type κ where
  again : Step A
  break : A → Step A

pub data Outcome {ℓ κ} (S : Type ℓ) (A : Type κ) : Type (ℓ ⊔ κ) where
  returned : S → A → Outcome S A
  panicked : Outcome S A
  out_of_fuel : Outcome S A

abbrev pub next {ℓ κ} :
    {S : Type ℓ} {A : Type κ} → Run (S × Step A) → (S → Outcome S A) → Outcome S A
next panic go = panicked
next (done (s, again)) go = go s
next (done (s, break a)) go = returned s a

unfoldable pub run {ℓ κ} : {S : Type ℓ} {A : Type κ} → (S → Run (S × Step A)) → ℕ → S → Outcome S A
run step zero s = out_of_fuel
run step (suc n) s = next (step s) (run step n)

next-more {ℓ κ} :
    {S : Type ℓ} {A : Type κ} (r : Run (S × Step A)) (f g : S → Outcome S A)
    → ((s : S) → f s ≢ out_of_fuel → g s ≡ f s)
    → next r f ≢ out_of_fuel
    → next r g ≡ next r f
next-more panic f g h e = refl
next-more (done (s, again)) f g h e = h s e
next-more (done (s, break a)) f g h e = refl

module _ {ℓ κ} {S : Type ℓ} {A : Type κ} (step : S → Run (S × Step A)) where
  -- Once the loop has a result, more fuel does not change it.
  pub run-suc : (n : ℕ) (s : S) → run step n s ≢ out_of_fuel → run step (suc n) s ≡ run step n s
  unfolding run
  run-suc zero s h = absurd (h refl)
  run-suc (suc n) s h = next-more (step s) (run step n) (run step (suc n)) (run-suc n) h

-- What a step does when the loop is to keep `I`, to make `size` less than `bound`, and to end in `Q`.
pub data Advances {ℓ κ} {S : Type ℓ} {A : Type κ} (I : S → Type 0) (size : S → ℕ)
    (Q : S → A → Type 0) (bound : ℕ) : Run (S × Step A) → Type (ℓ ⊔ κ) where
  goes : (s' : S) → I s' → size s' < bound → Advances I size Q bound (done (s', again))
  stops : (s' : S) (a : A) → Q s' a → Advances I size Q bound (done (s', break a))

module _ {ℓ κ} {S : Type ℓ} {A : Type κ} (step : S → Run (S × Step A)) (I : S → Type 0)
    (size : S → ℕ) (Q : S → A → Type 0)
    (advances : (s : S) → I s → Advances I size Q (size s) (step s)) where
  returns_next :
      (n bound : ℕ) (r : Run (S × Step A))
      → Advances I size Q bound r
      → bound < suc n
      → ((s' : S) → I s' → size s' < n → (t : S) × (a : A) × (run step n s' ≡ returned t a) × Q t a)
      → (t : S) × (a : A) × (next r (run step n) ≡ returned t a) × Q t a
  returns_next n bound _ (goes s' i less) small rec = rec s' i (omega arith)
  returns_next n bound _ (stops s' a q) small rec = (s', a, refl, q)

  -- With more fuel than the size of the state the loop returns.
  pub run_returns :
      (n : ℕ) (s : S) → I s → size s < n → (t : S) × (a : A) × (run step n s ≡ returned t a) × Q t a
  unfolding run
  run_returns zero s i h = absurd (omega arith)
  run_returns (suc n) s i h = returns_next n (size s) (step s) (advances s i) h (run_returns n)
