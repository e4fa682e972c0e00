-- ===== src/Network/FlowControl/Tx.antt =====
-- The sender's window under interleaved calls. A call of `try_acquire` is two atomic operations,
-- `fetch_sub` and what `settle` does with the value that it returned, and other threads run
-- between them.
use elfo.Base.{
  ℕ, suc, ◌+◌, ◌^◌, ◌≤◌, ◌<◌, ◌≡◌, refl, ◌⊎◌, Bool, true, false, List, [], ◌∷◌, arith,
  if◌then◌else◌, length, done,
}
use elfo.Base.Int.{
  ℤ, pos, pos_part, neg_part, ◌+ℤ◌, ◌-ℤ◌, ◌≤ℤ◌, ◌<ℤ◌, ltb_ℤ, +ℤ_parts, -ℤ_parts, in_i32, wrap_i32,
  checked, wrap_i32-eq_self,
}
use elfo.Network.FlowControl.{
  TxFlowControl, fetch_sub_one, fetch_add, settle, do_acquire, tx_release,
}

-- `TxFlowControl`, the values that the threads between the two operations hold, and a count of
-- what was granted, taken without a test, and given back.
pub record Threads : Type 0 where
  pub control : TxFlowControl
  pub held : List ℤ
  pub granted : ℕ
  pub unbounded : ℕ
  pub released : ℕ

-- One held value, and the others.
pub data Picks (p : ℤ) : List ℤ → List ℤ → Type 0 where
  first : {ps : List ℤ} → Picks p (p ∷ ps) ps
  later : {q : ℤ} {ps rest : List ℤ} → Picks p ps rest → Picks p (q ∷ ps) (q ∷ rest)

-- What a thread, or the task that reads updates from the network, may do next. Updates give back
-- only what was taken.
pub data Step : Threads → Threads → Type 0 where
  begins :
      (t : Threads) {c : TxFlowControl} {prev : ℤ}
      → fetch_sub_one t.control ≡ done (c, prev)
      → Step t (record t { control = c; held = prev ∷ t.held })
  settles :
      (t : Threads) {prev : ℤ} {rest : List ℤ} {c : TxFlowControl} {granted : Bool}
      → Picks prev t.held rest
      → settle t.control prev ≡ (c, granted)
      → Step t (record t {
        control = c;
        held = rest;
        granted = (if granted then suc t.granted else t.granted);
      })
  takes :
      (t : Threads) {c : TxFlowControl}
      → do_acquire t.control ≡ done c
      → Step t (record t { control = c; unbounded = suc t.unbounded })
  gives :
      (t : Threads) {c : TxFlowControl} {positive : Bool} (delta : ℕ)
      → t.released + delta ≤ t.granted + t.unbounded
      → tx_release t.control (pos delta) ≡ done (c, positive)
      → Step t (record t { control = c; released = t.released + delta })

pub data Reach (s : Threads) : Threads → Type 0 where
  here : Reach s s
  next : {t u : Threads} → Reach s t → Step t u → Reach s u

-- The held values that will be granted.
abbrev pub positives : List ℤ → ℕ
positives [] = 0
positives (p ∷ ps) = (if ltb_ℤ (pos 0) p then 1 else 0) + positives ps

-- The window is `initial`, with what was given back, less what was taken and what is held for the
-- moment; and what is granted, or will be, is covered by what was given.
pub record Inv (initial : ℕ) (t : Threads) : Type 0 where
  pub accounted :
      pos_part t.control.window + t.granted + t.unbounded + length t.held
      ≡ neg_part t.control.window + initial + t.released
  pub covered : t.granted + positives t.held ≤ initial + t.released
  pub returned : t.released ≤ t.granted + t.unbounded
  pub fits : in_i32 t.control.window ≡ true
  pub small : initial < 2 ^ 31

Picks-counts :
    {p : ℤ} {ps rest : List ℤ}
    → Picks p ps rest
    → (length ps ≡ suc (length rest))
      × (positives ps ≡ (if ltb_ℤ (pos 0) p then 1 else 0) + positives rest)
Picks-counts first = (refl, refl)
Picks-counts (later k) = ground (arith, Picks-counts k)

positives-le-length : (ps : List ℤ) → positives ps ≤ length ps
positives-le-length [] = omega arith
positives-le-length (p ∷ ps) = ground (arith, positives-le-length ps)

-- Each atomic operation on the window alone, in exact arithmetic.
fetch_sub_one_lem :
    (c c' : TxFlowControl) (prev : ℤ)
    → in_i32 c.window ≡ true
    → fetch_sub_one c ≡ done (c', prev)
    → (c'.window ≡ c.window -ℤ pos 1) × (prev ≡ c.window) × (in_i32 c'.window ≡ true)
unfolding fetch_sub_one wrap_i32 ◌-ℤ◌
fetch_sub_one_lem c c' prev v h = ground arith

pub do_acquire_lem :
    (c c' : TxFlowControl)
    → in_i32 c.window ≡ true
    → do_acquire c ≡ done c'
    → (c'.window ≡ c.window -ℤ pos 1) × (in_i32 c'.window ≡ true)
unfolding do_acquire wrap_i32 ◌-ℤ◌
do_acquire_lem c c' v h = ground arith

settle_lem :
    (c c' : TxFlowControl) (prev : ℤ) (granted : Bool)
    → in_i32 (c.window +ℤ pos 1) ≡ true
    → settle c prev ≡ (c', granted)
    → ((granted ≡ true) × (pos 0 <ℤ prev) × (c' ≡ c))
      ⊎ ((granted ≡ false) × (prev ≤ℤ pos 0) × (c'.window ≡ c.window +ℤ pos 1))
unfolding settle fetch_add
settle_lem c c' prev granted v h = ground (arith, wrap_i32-eq_self (c.window +ℤ pos 1))

pub tx_release_lem :
    (c c' : TxFlowControl) (delta : ℤ) (positive : Bool)
    → tx_release c delta ≡ done (c', positive)
    → (c'.window ≡ c.window +ℤ delta)
      × (positive ≡ ltb_ℤ (pos 0) c'.window)
      × (in_i32 c'.window ≡ true)
unfolding tx_release checked
tx_release_lem c c' delta positive h = ground (arith, wrap_i32-eq_self (c.window +ℤ delta))

begins-Inv :
    {initial : ℕ} (t : Threads) (c : TxFlowControl) (prev : ℤ)
    → fetch_sub_one t.control ≡ done (c, prev)
    → Inv initial t
    → Inv initial (record t { control = c; held = prev ∷ t.held })
begins-Inv t c prev e v =
    let (a, b, f) = fetch_sub_one_lem t.control c prev v.fits e in
    ground (arith, positives-le-length t.held, -ℤ_parts t.control.window (pos 1))

settles-Inv :
    {initial : ℕ} (t : Threads) (prev : ℤ) (rest : List ℤ) (c : TxFlowControl) (granted : Bool)
    → Picks prev t.held rest
    → settle t.control prev ≡ (c, granted)
    → Inv initial t
    → Inv initial (record t {
      control = c;
      held = rest;
      granted = (if granted then suc t.granted else t.granted);
    })
settles-Inv t prev rest c granted k e v =
    let (a, b) = Picks-counts k in
    ground (arith, settle_lem t.control c prev granted, +ℤ_parts t.control.window (pos 1))

takes-Inv :
    {initial : ℕ} (t : Threads) (c : TxFlowControl)
    → do_acquire t.control ≡ done c
    → Inv initial t
    → Inv initial (record t { control = c; unbounded = suc t.unbounded })
takes-Inv t c e v =
    let (a, f) = do_acquire_lem t.control c v.fits e in
    ground (arith, -ℤ_parts t.control.window (pos 1))

gives-Inv :
    {initial : ℕ} (t : Threads) (c : TxFlowControl) (positive : Bool) (delta : ℕ)
    → t.released + delta ≤ t.granted + t.unbounded
    → tx_release t.control (pos delta) ≡ done (c, positive)
    → Inv initial t
    → Inv initial (record t { control = c; released = t.released + delta })
gives-Inv t c positive delta le e v =
    let (a, _, f) = tx_release_lem t.control c (pos delta) positive e in
    ground (arith, +ℤ_parts t.control.window (pos delta))

Step-Inv : {initial : ℕ} {t u : Threads} → Step t u → Inv initial t → Inv initial u
Step-Inv (begins t e) v = begins-Inv t _ _ e v
Step-Inv (settles t k e) v = settles-Inv t _ _ _ _ k e v
Step-Inv (takes t e) v = takes-Inv t _ e v
Step-Inv (gives t delta le e) v = gives-Inv t _ _ delta le e v

abbrev pub start : ℕ → Threads
start initial = record {
  control = record { window = pos initial };
  held = [];
  granted = 0;
  unbounded = 0;
  released = 0;
}

Reach-Inv : {initial : ℕ} {t : Threads} → initial < 2 ^ 31 → Reach (start initial) t → Inv initial t
Reach-Inv h here = ground arith
Reach-Inv h (next r s) = Step-Inv s (Reach-Inv h r)

-- However the atomic operations of the threads interleave, no more messages are granted by
-- `try_acquire` than the initial window and the updates received allow; and the window is the
-- initial one with what was given back, less what was granted or taken without a test, and less one
-- for each thread between its two operations. The initial window must fit an i32, and updates give
-- back only what was taken.
pub try_acquire_interleaved :
    (initial : ℕ) (t : Threads)
    → initial < 2 ^ 31
    → Reach (start initial) t
    → (t.granted ≤ initial + t.released)
      × (pos_part t.control.window + t.granted + t.unbounded + length t.held
          ≡ neg_part t.control.window + initial + t.released)
try_acquire_interleaved initial t h r =
    let v = Reach-Inv h r in (omega (arith, v.covered), v.accounted)
