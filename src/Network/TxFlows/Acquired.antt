-- ===== src/Network/TxFlows/Acquired.antt =====
-- elfo-network/src/worker/flows_tx.rs: the operations that take from a window leave every sleeper
-- sure to be woken.
use elfo.Base.{
  ℕ, suc, ◌+◌, ◌≡◌, refl, sym, ap, subst, ◌∙◌, inl, inr, Bool, true, false, some, List, ◌∷◌, arith,
  if◌then◌else◌, Option-cases, if_true, if_false, Run, >>=-eq-done, done_injective,
}
use elfo.Base.Assoc.{find}
use elfo.Base.Int.{ℤ, pos_part, neg_part, in_i32}
use elfo.Network.Codec.{NetworkAddr}
use elfo.Network.FlowControl.{TxFlowControl, fetch_sub_one, settle, do_acquire}
use elfo.Network.FlowControl.Tx.{Picks}
use elfo.Network.TxFlows.{
  TxFlow, TxFlows, notified, store, begin_acquire, settled, settle_acquire, register,
  do_acquire_flow,
}
use elfo.Network.TxFlows.Steps.{set_at, World, tells_more}
use elfo.Network.TxFlows.Awake.{
  failing, Picks-failing, IsAwake, Inv, do_acquire_lem, ==_self, some_injective, fetch_sub_one_lem,
  settle_lem, stored, set_here, IsAwake-at, at_flow, no_flow, begun, settled_pending, tells_done,
  full_window, Picks-some,
}

pub begins-Inv :
    (w : World) (a : NetworkAddr) {t : TxFlows} {prev : ℤ}
    → begin_acquire w.flows a ≡ Run.done (t, some prev)
    → Inv w
    → Inv (record w { flows = t; holding = set_at w.holding a (prev ∷ w.holding a) })
unfolding begin_acquire
begins-Inv w a {prev = prev} h i = elim (Option-cases (find w.flows.map a)) [
  | inl e ↦ absurd (let h' = rw (e, begin_acquire) at h in cc)
  | inr (f, e) ↦
      let v = at_flow w a f e i in
      let h' = rw (e, begin_acquire) at h in
      let ((c, p), ec, e₁) = >>=-eq-done (fetch_sub_one f.control) _ h' in
      let (before, fits, moved) = fetch_sub_one_lem f.control v.fits ec in
      let same : p ≡ prev = some_injective (ap (λ q. q.1) (done_injective e₁)) in
      stored w _ a (record f { control = c }) (sym (ap (λ q. q.0) (done_injective e₁)))
        (λ b miss. (if_false _ _ miss, refl, refl))
        (subst (λ held. IsAwake (record f { control = c }) held (w.telling a) (w.asleep a))
          (sym (if_true _ _ (==_self a)))
          (begun f c prev (w.holding a) (w.telling a) (w.asleep a) v (sym same ∙ before) fits
            moved))
        i
]

settled-Inv :
    (w : World) (a : NetworkAddr) (waits : Bool) (f : TxFlow) (p : TxFlowControl × Bool)
    (held rest : List ℤ)
    → w.holding a ≡ held
    → in_i32 (p.0).window ≡ true
    → failing held ≡ (if p.1 then 0 else 1) + failing rest
    → pos_part (p.0).window + neg_part f.control.window
      ≡ pos_part f.control.window + neg_part (p.0).window + (if p.1 then 0 else 1)
    → IsAwake f held (w.telling a) (w.asleep a)
    → Inv w
    → Inv (record w {
      flows = (settled w.flows a f p).0;
      holding = set_at w.holding a rest;
      telling = set_at w.telling a (tells_more waits (settled w.flows a f p).1 (w.telling a));
    })
settled-Inv w a waits f (c, true) held rest holds fits split moved v i =
    stored w _ a (record f { control = c }) refl
      (λ b miss. (if_false _ _ miss, if_false _ _ miss, refl))
      (IsAwake-at (set_here w.holding a rest)
        (set_here w.telling a _ ∙ tells_done waits (w.telling a)) refl
        (record {
          fits = fits;
          pending =
              settled_pending f.control.window c.window held rest (w.asleep a + w.telling a)
                (w.asleep a + w.telling a) 0 v.pending split moved (omega arith);
          counted = v.counted;
        }))
      i
settled-Inv w a false f (c, false) held rest holds fits split moved v i =
    stored w _ a (record f { control = c }) refl
      (λ b miss. (if_false _ _ miss, if_false _ _ miss, refl))
      (IsAwake-at (set_here w.holding a rest) (set_here w.telling a _) refl (record {
        fits = fits;
        pending =
            settled_pending f.control.window c.window held rest (w.asleep a + w.telling a)
              (w.asleep a + w.telling a) 1 v.pending split moved (omega arith);
        counted = v.counted;
      }))
      i
settled-Inv w a true f (c, false) held rest holds fits split moved v i =
    stored w _ a (record f { control = c }) refl
      (λ b miss. (if_false _ _ miss, if_false _ _ miss, refl))
      (IsAwake-at (set_here w.holding a rest) (set_here w.telling a _) refl (record {
        fits = fits;
        pending =
            settled_pending f.control.window c.window held rest (w.asleep a + w.telling a)
              (w.asleep a + suc (w.telling a)) 1 v.pending split moved (omega arith);
        counted = v.counted;
      }))
      i

pub settles-Inv :
    (w : World) (a : NetworkAddr) (waits : Bool) {prev : ℤ} {rest : List ℤ}
    → Picks prev (w.holding a) rest
    → Inv w
    → Inv (record w {
      flows = (settle_acquire w.flows a prev).0;
      holding = set_at w.holding a rest;
      telling =
          set_at w.telling a (tells_more waits (settle_acquire w.flows a prev).1 (w.telling a));
    })
unfolding settle_acquire
settles-Inv w a waits {prev = prev} {rest = rest} k i = elim (Option-cases (find w.flows.map a)) [
  | inl e ↦ absurd (Picks-some k (no_flow w a e i).0)
  | inr (f, e) ↦
      let v = at_flow w a f e i in
      let split = Picks-failing k in
      let (ok, fits, moved) = settle_lem f.control prev v.fits (
        full_window prev f.control.window (w.holding a) rest (w.asleep a + w.telling a) v.pending
          split) in
      rw (e, settle_acquire)
        (settled-Inv w a waits f (settle f.control prev) (w.holding a) rest refl fits
          (split ∙ ap (λ b. (if b then 0 else 1) + failing rest) (sym ok)) moved v i)
]

pub registers-Inv :
    (w : World) (a : NetworkAddr) {n : ℕ}
    → w.telling a ≡ suc n
    → Inv w
    → Inv (record w {
      flows = register w.flows a;
      telling = set_at w.telling a n;
      asleep = set_at w.asleep a (suc (w.asleep a));
    })
unfolding register
registers-Inv w a {n = n} h i = elim (Option-cases (find w.flows.map a)) [
  | inl e ↦ absurd (let none_tells = (no_flow w a e i).1 in omega (arith, none_tells, h))
  | inr (f, e) ↦
      let v = at_flow w a f e i in
      let told : register w.flows a ≡ store w.flows a (notified f) = rw (e, register) refl in
      stored w _ a (notified f) told (λ b miss. (refl, if_false _ _ miss, if_false _ _ miss))
        (IsAwake-at refl (set_here w.telling a n) (set_here w.asleep a _) (record {
          fits = v.fits;
          pending = λ more. v.pending (omega (arith, h));
          counted = (let same = v.counted in omega (arith, same));
        }))
        i
]

pub forces-Inv :
    (w : World) (a : NetworkAddr) {t : TxFlows} {b : Bool}
    → do_acquire_flow w.flows a ≡ Run.done (t, b)
    → Inv w
    → Inv (record w { flows = t })
unfolding do_acquire_flow
forces-Inv w a h i = elim (Option-cases (find w.flows.map a)) [
  | inl e ↦
      subst (λ t. Inv (record w { flows = t }))
        (ap (λ q. q.0) (done_injective (rw (e, do_acquire_flow) at h))) i
  | inr (f, e) ↦
      let v = at_flow w a f e i in
      let h' = rw (e, do_acquire_flow) at h in
      let (c, ec, e₁) = >>=-eq-done (do_acquire f.control) _ h' in
      let (fits, moved) = do_acquire_lem f.control v.fits ec in
      stored w _ a (record f { control = c }) (sym (ap (λ q. q.0) (done_injective e₁)))
        (λ b miss. (refl, refl, refl))
        (record {
          fits = fits;
          pending = λ more. (let bound = v.pending more in omega (arith, bound, moved));
          counted = v.counted;
        })
        i
]
