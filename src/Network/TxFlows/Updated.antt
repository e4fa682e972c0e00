-- ===== src/Network/TxFlows/Updated.antt =====
-- elfo-network/src/worker/flows_tx.rs: the operations under an exclusive lock leave every sleeper
-- sure to be woken.
use elfo.Base.{
  ℕ, ◌-◌, ◌≡◌, refl, sym, ap, subst, ◌∙◌, inl, inr, Bool, true, false, [], arith, Option-cases,
  if_true, if_false, Run, >>=-eq-done, done_injective,
}
use elfo.Base.Assoc.{find, delete, find-delete}
use elfo.Base.Int.{pos_part, in_i32}
use elfo.Network.Codec.{NetworkAddr}
use elfo.Network.FlowControl.{TxFlowControl, tx_new, tx_release}
use elfo.Network.TxFlows.{
  TxFlow, TxFlows, UpdateFlow, add_flow_if_needed, released, update_flow, close_flow,
}
use elfo.Network.TxFlows.Steps.{set_at, World}
use elfo.Network.TxFlows.Awake.{
  failing, IsFine, Inv, tx_release_lem, changed, ==_self, stored, set_here, IsAwake-at, at_flow,
  no_flow, minus_none,
}

pub adds-Inv :
    (w : World) (a : NetworkAddr) {t : TxFlows}
    → add_flow_if_needed w.flows a ≡ Run.done t
    → Inv w
    → Inv (record w { flows = t })
unfolding add_flow_if_needed tx_new
adds-Inv w a h i = elim (Option-cases (find w.flows.map a)) [
  | inl e ↦
      let (held, told, slept) = no_flow w a e i in
      let h' = rw (e, add_flow_if_needed) at h in
      let (c, ec, e₁) = >>=-eq-done (tx_new w.flows.initial_window) _ h' in
      stored w _ a (record { control = c; waiters = 0 }) (sym (done_injective e₁))
        (λ b miss. (refl, refl, refl))
        (record {
          fits = (let first = i.0 in ground arith);
          pending = λ more.
              absurd (let none_held = ap failing held in omega (arith, none_held, told, slept));
          counted = slept;
        })
        i
  | inr (f, e) ↦
      subst (λ t. Inv (record w { flows = t })) (done_injective (rw (e, add_flow_if_needed) at h)) i
]

released-Inv :
    (w : World) (a : NetworkAddr) (f : TxFlow) (c : TxFlowControl) (positive : Bool)
    → w.holding a ≡ []
    → w.telling a ≡ 0
    → in_i32 c.window ≡ true
    → (positive ≡ false → pos_part c.window ≡ 0)
    → w.asleep a ≡ f.waiters
    → Inv w
    → let (t, n) = released w.flows a (record f { control = c }) positive in
      Inv (record w { flows = t; asleep = set_at w.asleep a (w.asleep a - n) })
released-Inv w a f c true holds tells fits low counted i =
    stored w _ a (record { control = c; waiters = 0 }) refl
      (λ b miss. (refl, refl, if_false _ _ miss))
      (IsAwake-at holds tells (set_here w.asleep a _ ∙ gone)
        (record { fits = fits; pending = λ more. absurd (omega (arith, more)); counted = refl }))
      i
  where
    gone : w.asleep a - f.waiters ≡ 0
    gone = omega (arith, counted)
released-Inv w a f c false holds tells fits low counted i =
    stored w _ a (record f { control = c }) refl (λ b miss. (refl, refl, if_false _ _ miss))
      (IsAwake-at holds tells (set_here w.asleep a _ ∙ minus_none (w.asleep a) ∙ counted) (record {
        fits = fits;
        pending = λ more. (let none_left = low refl in omega (arith, none_left));
        counted = refl;
      }))
      i

unchanged :
    (w : World) (a : NetworkAddr)
    → Inv w
    → Inv (record w { asleep = set_at w.asleep a (w.asleep a - 0) })
unchanged w a i =
    changed {v = w} {w = record w { asleep = set_at w.asleep a (w.asleep a - 0) }} a refl
      (λ b miss. record { found = refl; held = refl; told = refl; slept = if_false _ _ miss })
      (subst (λ n. IsFine (find w.flows.map a) (w.holding a) (w.telling a) n)
        (sym (set_here w.asleep a _ ∙ minus_none (w.asleep a))) (i.1 a))
      i

pub updates-Inv :
    (w : World) (u : UpdateFlow) {t : TxFlows} {n : ℕ}
    → w.holding u.addr ≡ []
    → w.telling u.addr ≡ 0
    → update_flow w.flows u ≡ Run.done (t, n)
    → Inv w
    → Inv (record w { flows = t; asleep = set_at w.asleep u.addr (w.asleep u.addr - n) })
unfolding update_flow
updates-Inv w u holds tells h i = elim (Option-cases (find w.flows.map u.addr)) [
  | inl e ↦
      subst
        (λ (p : TxFlows × ℕ).
          Inv (record w { flows = p.0; asleep = set_at w.asleep u.addr (w.asleep u.addr - p.1) }))
        (done_injective (rw (e, update_flow) at h)) (unchanged w u.addr i)
  | inr (f, e) ↦
      let v = at_flow w u.addr f e i in
      let h' = rw (e, update_flow) at h in
      let ((c, positive), ec, e₁) = >>=-eq-done (tx_release f.control u.window_delta) _ h' in
      let (fits, low) = tx_release_lem f.control u.window_delta ec in
      subst
        (λ (p : TxFlows × ℕ).
          Inv (record w { flows = p.0; asleep = set_at w.asleep u.addr (w.asleep u.addr - p.1) }))
        (done_injective e₁) (released-Inv w u.addr f c positive holds tells fits low v.counted i)
]

closed-Inv :
    (w : World) (a : NetworkAddr) (f : TxFlow)
    → w.holding a ≡ []
    → w.telling a ≡ 0
    → w.asleep a ≡ f.waiters
    → Inv w
    → Inv (record w {
      flows = record w.flows { map = delete w.flows.map a };
      asleep = set_at w.asleep a (w.asleep a - f.waiters);
    })
closed-Inv w a f holds tells counted i =
    changed {v = w}
      {w = record w {
        flows = record w.flows { map = delete w.flows.map a };
        asleep = set_at w.asleep a (w.asleep a - f.waiters);
      }}
      a refl
      (λ b miss. record {
        found = find-delete w.flows.map a b ∙ if_false _ _ miss;
        held = refl;
        told = refl;
        slept = if_false _ _ miss;
      })
      (subst
        (λ o. IsFine o (w.holding a) (w.telling a) (set_at w.asleep a (w.asleep a - f.waiters) a))
        (sym (find-delete w.flows.map a a ∙ if_true _ _ (==_self a)))
        (holds, tells, set_here w.asleep a _ ∙ gone))
      i
  where
    gone : w.asleep a - f.waiters ≡ 0
    gone = omega (arith, counted)

pub closes-Inv :
    (w : World) (a : NetworkAddr)
    → w.holding a ≡ []
    → w.telling a ≡ 0
    → Inv w
    → Inv (record w {
      flows = (close_flow w.flows a).0;
      asleep = set_at w.asleep a (w.asleep a - (close_flow w.flows a).1);
    })
unfolding close_flow
closes-Inv w a holds tells i = elim (Option-cases (find w.flows.map a)) [
  | inl e ↦ rw (e, close_flow) (unchanged w a i)
  | inr (f, e) ↦
      let v = at_flow w a f e i in rw (e, close_flow) (closed-Inv w a f holds tells v.counted i)
]
