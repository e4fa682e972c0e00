-- ===== src/Network/TxFlows/Steps.antt =====
-- elfo-network/src/worker/flows_tx.rs: the operations on the flows in any interleaving.
use elfo.Base.{ℕ, suc, ◌-◌, ◌≡◌, Bool, true, some, List, [], ◌∷◌, ◌==◌, if◌then◌else◌, Run}
use elfo.Base.Int.{ℤ}
use elfo.Network.Codec.{NetworkAddr}
use elfo.Network.FlowControl.Tx.{Picks}
use elfo.Network.TxFlows.{
  TxFlows, UpdateFlow, Acquire, full, add_flow_if_needed, tx_flows_new, update_flow, close_flow,
  begin_acquire, settle_acquire, register, do_acquire_flow,
}

abbrev pub set_at : {A : Type 0} → (NetworkAddr → A) → NetworkAddr → A → NetworkAddr → A
set_at f a x b = if a == b then x else f b

-- For each flow: the values that the calls between the two operations of `try_acquire` hold, the
-- calls of `acquire` that are about to call `notified`, and the tasks that sleep. All but the latter
-- have a shared lock.
pub record World : Type 0 where
  pub flows : TxFlows
  pub holding : NetworkAddr → List ℤ
  pub telling : NetworkAddr → ℕ
  pub asleep : NetworkAddr → ℕ

-- A call of `acquire` that finds the window full goes on to wait, one of `try_acquire` returns.
abbrev pub tells_more : Bool → Acquire → ℕ → ℕ
tells_more true full n = suc n
tells_more waits r n = n

pub data Step : World → World → Type 0 where
  adds :
      (w : World) (a : NetworkAddr) {t : TxFlows}
      → add_flow_if_needed w.flows a ≡ Run.done t
      → Step w (record w { flows = t })
  updates :
      (w : World) (u : UpdateFlow) {t : TxFlows} {n : ℕ}
      → w.holding u.addr ≡ []
      → w.telling u.addr ≡ 0
      → update_flow w.flows u ≡ Run.done (t, n)
      → Step w (record w { flows = t; asleep = set_at w.asleep u.addr (w.asleep u.addr - n) })
  closes :
      (w : World) (a : NetworkAddr)
      → w.holding a ≡ []
      → w.telling a ≡ 0
      → Step w (record w {
        flows = (close_flow w.flows a).0;
        asleep = set_at w.asleep a (w.asleep a - (close_flow w.flows a).1);
      })
  begins :
      (w : World) (a : NetworkAddr) {t : TxFlows} {prev : ℤ}
      → begin_acquire w.flows a ≡ Run.done (t, some prev)
      → Step w (record w { flows = t; holding = set_at w.holding a (prev ∷ w.holding a) })
  settles :
      (w : World) (a : NetworkAddr) (waits : Bool) {prev : ℤ} {rest : List ℤ}
      → Picks prev (w.holding a) rest
      → Step w (record w {
        flows = (settle_acquire w.flows a prev).0;
        holding = set_at w.holding a rest;
        telling =
            set_at w.telling a (tells_more waits (settle_acquire w.flows a prev).1 (w.telling a));
      })
  registers :
      (w : World) (a : NetworkAddr) {n : ℕ}
      → w.telling a ≡ suc n
      → Step w (record w {
        flows = register w.flows a;
        telling = set_at w.telling a n;
        asleep = set_at w.asleep a (suc (w.asleep a));
      })
  forces :
      (w : World) (a : NetworkAddr) {t : TxFlows} {b : Bool}
      → do_acquire_flow w.flows a ≡ Run.done (t, b)
      → Step w (record w { flows = t })

abbrev pub started : TxFlows → World
started t = record { flows = t; holding = λ a. []; telling = λ a. 0; asleep = λ a. 0 }

pub data Reach (initial : ℤ) : World → Type 0 where
  starts : {t : TxFlows} → tx_flows_new initial ≡ Run.done t → Reach initial (started t)
  next : {v w : World} → Reach initial v → Step v w → Reach initial w
