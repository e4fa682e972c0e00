-- ===== src/Network/TxFlows/Wakeups.antt =====
-- elfo-network/src/worker/flows_tx.rs: nobody sleeps while there is a window.
use elfo.Base.{◌<◌, ◌≡◌, refl, inl, inr, true, some, [], arith, Option-cases}
use elfo.Base.Assoc.{find}
use elfo.Base.Int.{ℤ, pos_part, in_i32}
use elfo.Core.Addr.{null}
use elfo.Network.Codec.{NetworkAddr}
use elfo.Network.TxFlows.{TxFlow, tx_flows_new}
use elfo.Network.TxFlows.Steps.{
  World, Step, adds, updates, closes, begins, settles, registers, forces, started, Reach, starts,
  next,
}
use elfo.Network.TxFlows.Awake.{Inv, at_flow, no_flow, not_positive}
use elfo.Network.TxFlows.Acquired.{begins-Inv, settles-Inv, registers-Inv, forces-Inv}
use elfo.Network.TxFlows.Updated.{adds-Inv, updates-Inv, closes-Inv}

Step-Inv : {v w : World} → Step v w → Inv v → Inv w
Step-Inv (adds w a h) i = adds-Inv w a h i
Step-Inv (updates w u holds tells h) i = updates-Inv w u holds tells h i
Step-Inv (closes w a holds tells) i = closes-Inv w a holds tells i
Step-Inv (begins w a h) i = begins-Inv w a h i
Step-Inv (settles w a waits k) i = settles-Inv w a waits k i
Step-Inv (registers w a h) i = registers-Inv w a h i
Step-Inv (forces w a h) i = forces-Inv w a h i

Reach-Inv : {initial : ℤ} {w : World} → in_i32 initial ≡ true → Reach initial w → Inv w
unfolding tx_flows_new
Reach-Inv fits (starts h) =
    adds-Inv (started (record { map = []; initial_window = _ })) null h
      (fits, λ a. (refl, refl, refl))
Reach-Inv fits (next r s) = Step-Inv s (Reach-Inv fits r)

-- In every history in which a call under an exclusive lock is one step and calls under the shared
-- lock run between each other's atomic operations, from an initial window that is an i32: while a
-- task that called `acquire` sleeps, its flow is known and its window is not positive. So no update
-- that makes a window positive, and no end of a flow, leaves a sleeper behind.
pub no_lost_wakeup :
    {initial : ℤ} (w : World) (a : NetworkAddr)
    → in_i32 initial ≡ true
    → Reach initial w
    → 0 < w.asleep a
    → (f : TxFlow) × (find w.flows.map a ≡ some f) × (pos_part f.control.window ≡ 0)
no_lost_wakeup w a fits r sleeps =
    let i = Reach-Inv fits r in
    elim (Option-cases (find w.flows.map a)) [
      | inl e ↦ absurd (let (held, told, slept) = no_flow w a e i in omega (arith, slept, sleeps))
      | inr (f, e) ↦
          let v = at_flow w a f e i in
          let bound = v.pending (omega (arith, sleeps)) in
          (f, e, not_positive f.control.window _ bound)
    ]
