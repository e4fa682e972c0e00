-- ===== src/Network/TxFlows/Awake.antt =====
-- elfo-network/src/worker/flows_tx.rs: when a sleeper is sure to be woken, and what the atomic
-- operations on a window change.
use elfo.Base.{
  ℕ, ◌+◌, ◌-◌, ◌≤◌, ◌<◌, ◌≡◌, refl, sym, ap, subst, ◌∙◌, inl, inr, Bool, true, false, Option, none,
  some, List, [], ◌∷◌, arith, ◌==◌, if◌then◌else◌, Bool-cases, if_true, if_false, Run,
}
use elfo.Base.Assoc.{find, find-insert}
use elfo.Base.Int.{ℤ, pos, negsuc, pos_part, neg_part, ◌+ℤ◌, ◌-ℤ◌, ltb_ℤ, in_i32, wrap_i32, checked}
use elfo.Network.Codec.{NetworkAddr}
use elfo.Network.FlowControl.{
  TxFlowControl, fetch_sub_one, fetch_add, settle, do_acquire, tx_release,
}
use elfo.Network.FlowControl.Tx.{Picks, first, later}
use elfo.Network.TxFlows.{TxFlow, TxFlows, Acquire, store}
use elfo.Network.TxFlows.Steps.{set_at, World, tells_more}

-- The calls that have found no window and have not given their unit back.
abbrev pub failing : List ℤ → ℕ
failing [] = 0
failing (p ∷ ps) = (if ltb_ℤ (pos 0) p then 0 else 1) + failing ps

pub Picks-failing :
    {p : ℤ} {ps rest : List ℤ}
    → Picks p ps rest
    → failing ps ≡ (if ltb_ℤ (pos 0) p then 0 else 1) + failing rest
Picks-failing first = refl
Picks-failing (later k) = ground (arith, Picks-failing k)

-- The window is an i32. While somebody sleeps, is about to sleep or has found no window, the window
-- with the units that are to be given back is not positive. Who sleeps is counted.
pub record IsAwake (f : TxFlow) (held : List ℤ) (telling asleep : ℕ) : Type 0 where
  pub fits : in_i32 f.control.window ≡ true
  pub pending :
      0 < asleep + telling + failing held
      → pos_part f.control.window + failing held ≤ neg_part f.control.window
  pub counted : asleep ≡ f.waiters

abbrev pub IsFine : Option TxFlow → List ℤ → ℕ → ℕ → Type 0
IsFine none held telling asleep = (held ≡ []) × (telling ≡ 0) × (asleep ≡ 0)
IsFine (some f) held telling asleep = IsAwake f held telling asleep

abbrev pub FineAt : World → NetworkAddr → Type 0
FineAt w a = IsFine (find w.flows.map a) (w.holding a) (w.telling a) (w.asleep a)

abbrev pub Inv : World → Type 0
Inv w = (in_i32 w.flows.initial_window ≡ true) × ((a : NetworkAddr) → FineAt w a)

-- What a step leaves as it was for another flow.
pub record Same (v w : World) (b : NetworkAddr) : Type 0 where
  pub found : find w.flows.map b ≡ find v.flows.map b
  pub held : w.holding b ≡ v.holding b
  pub told : w.telling b ≡ v.telling b
  pub slept : w.asleep b ≡ v.asleep b

pub changed :
    {v w : World} (a : NetworkAddr)
    → w.flows.initial_window ≡ v.flows.initial_window
    → ((b : NetworkAddr) → (a == b) ≡ false → Same v w b)
    → FineAt w a
    → Inv v
    → Inv w
changed {v = v} {w = w} a initial others fine_here i =
    (ap (λ n. in_i32 n) initial ∙ i.0, λ b. fine b)
  where
    fine : (b : NetworkAddr) → FineAt w b
    fine b = elim (Bool-cases (a == b)) [
      | inl hit ↦ let same : a ≡ b = ground arith in subst (FineAt w) same fine_here
      | inr miss ↦ let s = others b miss in rw (s.found, s.held, s.told, s.slept) (i.1 b)
    ]

pub ==_self : (a : NetworkAddr) → (a == a) ≡ true
==_self a = ground arith

pub some_injective : {A : Type 0} {a b : A} → Option.some a ≡ Option.some b → a ≡ b
some_injective h = cc

pub fetch_sub_one_lem :
    (c : TxFlowControl) {c' : TxFlowControl} {prev : ℤ}
    → in_i32 c.window ≡ true
    → fetch_sub_one c ≡ Run.done (c', prev)
    → (prev ≡ c.window)
      × (in_i32 c'.window ≡ true)
      × (pos_part c'.window + neg_part c.window + 1 ≡ pos_part c.window + neg_part c'.window)
unfolding fetch_sub_one wrap_i32 ◌-ℤ◌
fetch_sub_one_lem c v h = ground arith

pub settle_lem :
    (c : TxFlowControl) (prev : ℤ)
    → in_i32 c.window ≡ true
    → (ltb_ℤ (pos 0) prev ≡ false → pos_part c.window ≡ 0)
    → let (c', ok) = settle c prev in
      (ok ≡ ltb_ℤ (pos 0) prev)
      × (in_i32 c'.window ≡ true)
      × (pos_part c'.window + neg_part c.window
          ≡ pos_part c.window + neg_part c'.window + (if ok then 0 else 1))
unfolding settle fetch_add wrap_i32 ◌+ℤ◌
settle_lem c prev v h = ground arith

pub do_acquire_lem :
    (c : TxFlowControl) {c' : TxFlowControl}
    → in_i32 c.window ≡ true
    → do_acquire c ≡ Run.done c'
    → (in_i32 c'.window ≡ true)
      × (pos_part c'.window + neg_part c.window ≤ pos_part c.window + neg_part c'.window)
unfolding do_acquire fetch_sub_one wrap_i32 ◌-ℤ◌
do_acquire_lem c v h = ground arith

pub tx_release_lem :
    (c : TxFlowControl) (delta : ℤ) {c' : TxFlowControl} {positive : Bool}
    → tx_release c delta ≡ Run.done (c', positive)
    → (in_i32 c'.window ≡ true) × (positive ≡ false → pos_part c'.window ≡ 0)
unfolding tx_release fetch_add wrap_i32 checked
tx_release_lem c delta h = ground arith

-- A step that stores a flow.
pub stored :
    (v w : World) (a : NetworkAddr) (f : TxFlow)
    → w.flows ≡ store v.flows a f
    → ((b : NetworkAddr)
        → (a == b) ≡ false
        → (w.holding b ≡ v.holding b) × (w.telling b ≡ v.telling b) × (w.asleep b ≡ v.asleep b))
    → IsAwake f (w.holding a) (w.telling a) (w.asleep a)
    → Inv v
    → Inv w
stored v w a f flows others fine_here i =
    changed {v = v} {w = w} a (ap (λ (t : TxFlows). t.initial_window) flows)
      (λ b miss.
        let (h, t, s) = others b miss in
        record {
          found =
              ap (λ (t : TxFlows). find t.map b) flows
              ∙ find-insert v.flows.map a b f
              ∙ if_false _ _ miss;
          held = h;
          told = t;
          slept = s;
        })
      (subst (λ o. IsFine o (w.holding a) (w.telling a) (w.asleep a))
        (sym (
          ap (λ (t : TxFlows). find t.map a) flows
          ∙ find-insert v.flows.map a a f
          ∙ if_true _ _ (==_self a)))
        fine_here)
      i

pub set_here : {A : Type 0} (f : NetworkAddr → A) (a : NetworkAddr) (x : A) → set_at f a x a ≡ x
set_here f a x = if_true _ _ (==_self a)

pub IsAwake-at :
    {f : TxFlow} {h h' : List ℤ} {t t' s s' : ℕ}
    → h' ≡ h
    → t' ≡ t
    → s' ≡ s
    → IsAwake f h t s
    → IsAwake f h' t' s'
IsAwake-at e₁ e₂ e₃ v = rw (e₁, e₂, e₃) v

pub at_flow :
    (w : World) (a : NetworkAddr) (f : TxFlow)
    → find w.flows.map a ≡ some f
    → Inv w
    → IsAwake f (w.holding a) (w.telling a) (w.asleep a)
at_flow w a f e i = subst (λ o. IsFine o (w.holding a) (w.telling a) (w.asleep a)) e (i.1 a)

pub no_flow :
    (w : World) (a : NetworkAddr)
    → find w.flows.map a ≡ none
    → Inv w
    → (w.holding a ≡ []) × (w.telling a ≡ 0) × (w.asleep a ≡ 0)
no_flow w a e i = subst (λ o. IsFine o (w.holding a) (w.telling a) (w.asleep a)) e (i.1 a)

pub begun_pending :
    (prev before after : ℤ) (held : List ℤ) (others : ℕ)
    → (0 < others + failing held → pos_part before + failing held ≤ neg_part before)
    → prev ≡ before
    → pos_part after + neg_part before + 1 ≡ pos_part before + neg_part after
    → 0 < others + failing (prev ∷ held)
    → pos_part after + failing (prev ∷ held) ≤ neg_part after
begun_pending prev before after held others v same moved more = ground (arith, v)

-- One more call holds the window that it has seen.
pub begun :
    (f : TxFlow) (c : TxFlowControl) (prev : ℤ) (held : List ℤ) (telling asleep : ℕ)
    → IsAwake f held telling asleep
    → prev ≡ f.control.window
    → in_i32 c.window ≡ true
    → pos_part c.window + neg_part f.control.window + 1
      ≡ pos_part f.control.window + neg_part c.window
    → IsAwake (record f { control = c }) (prev ∷ held) telling asleep
begun f c prev held telling asleep v before fits moved = record {
  fits = fits;
  pending = λ more.
      begun_pending prev f.control.window c.window held (asleep + telling) v.pending before moved
        more;
  counted = v.counted;
}

pub settled_pending :
    (before after : ℤ) (held rest : List ℤ) (others more_others k : ℕ)
    → (0 < others + failing held → pos_part before + failing held ≤ neg_part before)
    → failing held ≡ k + failing rest
    → pos_part after + neg_part before ≡ pos_part before + neg_part after + k
    → more_others ≤ others + k
    → 0 < more_others + failing rest
    → pos_part after + failing rest ≤ neg_part after
settled_pending before after held rest others more_others k v split moved few more =
    let bound = v (omega (arith, more, few, split)) in omega (arith, bound, split, moved)

pub tells_done : (waits : Bool) (n : ℕ) → tells_more waits Acquire.done n ≡ n
tells_done true n = refl
tells_done false n = refl

pub not_positive :
    (window : ℤ) (k : ℕ) → pos_part window + k ≤ neg_part window → pos_part window ≡ 0
not_positive (pos n) k h = omega (arith, h)
not_positive (negsuc n) k h = refl

pub full_window :
    (prev window : ℤ) (held rest : List ℤ) (others : ℕ)
    → (0 < others + failing held → pos_part window + failing held ≤ neg_part window)
    → failing held ≡ (if ltb_ℤ (pos 0) prev then 0 else 1) + failing rest
    → ltb_ℤ (pos 0) prev ≡ false
    → pos_part window ≡ 0
full_window prev window held rest others v split miss =
    let counted : failing held ≡ 1 + failing rest =
      split ∙ ap (λ (b : Bool). (if b then 0 else 1) + failing rest) miss in
    not_positive window (failing held) (v (omega (arith, counted)))

pub Picks-some : {p : ℤ} {ps rest : List ℤ} → Picks p ps rest → ¬ (ps ≡ [])
Picks-some first h = absurd cc
Picks-some (later k) h = absurd cc

pub minus_none : (n : ℕ) → n - 0 ≡ n
minus_none n = omega arith
