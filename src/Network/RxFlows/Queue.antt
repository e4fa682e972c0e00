-- ===== src/Network/RxFlows/Queue.antt =====
-- The queue of an actor whose mailbox is full.
use elfo.Base.{
  ℕ, zero, suc, ◌+◌, ◌^◌, ◌<◌, ◌≡◌, refl, sym, ap, subst, ◌∙◌, Bool, true, false, Option, none,
  some, List, [], ◌∷◌, ◌++◌, append-nil, append_assoc, arith, if◌then◌else◌, length, done,
  >>=-eq-done, done_injective,
}
use elfo.Base.Int.{pos, ◌+ℤ◌, ◌-ℤ◌, wrap_i32}
use elfo.Core.Addr.{Addr, into_remote}
use elfo.Network.Codec.{NetworkAddr}
use elfo.Network.FlowControl.Rx.{IsI32, rx_release_accounts}
use elfo.Network.TxFlows.{UpdateFlow}
use elfo.Base.Assoc.{find, find-delete}
use elfo.Network.FlowControl.{RxFlowControl, rx_release}
use elfo.Network.RxFlows.{RxFlowData, RxFlows, queued, enqueue, dequeue_flow, close}

module _ {E : Type 0} where
  abbrev pub enqueue_all : RxFlowData E → List (E × Bool) → RxFlowData E
  enqueue_all f [] = f
  enqueue_all f (p ∷ ps) = enqueue_all (enqueue f p.0 p.1) ps

  abbrev collect :
      RxFlowData E × Option (E × Bool)
      → RxFlowData E × List (E × Bool)
      → RxFlowData E × List (E × Bool)
  collect (f, none) rest = (f, [])
  collect (f, some p) rest = (rest.0, p ∷ rest.1)

  -- What up to `n` calls of `dequeue` return, until one returns none.
  abbrev pub drain : ℕ → RxFlowData E → RxFlowData E × List (E × Bool)
  drain zero f = (f, [])
  drain (suc n) f = collect (dequeue_flow f) (drain n (dequeue_flow f).0)

  abbrev pub routed_in : List (E × Bool) → ℕ
  routed_in [] = 0
  routed_in (p ∷ ps) = (if p.1 then 1 else 0) + routed_in ps

  routed_in-append : (ps qs : List (E × Bool)) → routed_in (ps ++ qs) ≡ routed_in ps + routed_in qs
  routed_in-append [] qs = omega arith
  routed_in-append (p ∷ ps) qs = omega (arith, routed_in-append ps qs)

  abbrev filled : RxFlowData E → List (E × Bool) → RxFlowData E
  filled f q = record f { queue = some q; routed = pos (routed_in q) }

  dequeue-filled :
      (f : RxFlowData E) (e : E) (routed : Bool) (q : List (E × Bool))
      → routed_in ((e, routed) ∷ q) < 2 ^ 31
      → dequeue_flow (filled f ((e, routed) ∷ q)) ≡ (filled f q, some (e, routed))
  unfolding dequeue_flow wrap_i32 ◌-ℤ◌
  dequeue-filled f e true q h = ground arith
  dequeue-filled f e false q h = ground arith

  drain-some :
      (n : ℕ) (f f' : RxFlowData E) (p : E × Bool)
      → dequeue_flow f ≡ (f', some p)
      → drain (suc n) f ≡ ((drain n f').0, p ∷ (drain n f').1)
  drain-some n f f' p h = ap (λ r. collect r (drain n r.0)) h

  drain-filled :
      (f : RxFlowData E) (q : List (E × Bool))
      → routed_in q < 2 ^ 31
      → drain (suc (length q)) (filled f q) ≡ (record f { queue = none; routed = pos 0 }, q)
  unfolding dequeue_flow
  drain-filled f [] h = refl
  drain-filled f ((e, routed) ∷ q) h =
      drain-some (suc (length q)) (filled f ((e, routed) ∷ q)) (filled f q) (e, routed)
        (dequeue-filled f e routed q h)
      ∙ rw (drain-filled f q (omega arith))

  enqueue-filled :
      (f : RxFlowData E) (q : List (E × Bool)) (e : E) (routed : Bool)
      → (if routed then routed_in q + 1 else 0) < 2 ^ 31
      → enqueue (filled f q) e routed ≡ filled f (q ++ (e, routed) ∷ [])
  unfolding enqueue wrap_i32 ◌+ℤ◌
  enqueue-filled f q e true h = ground (arith, routed_in-append q ((e, true) ∷ []))
  enqueue-filled f q e false h = ground (arith, routed_in-append q ((e, false) ∷ []))

  enqueue_all-filled :
      (f : RxFlowData E) (q ps : List (E × Bool))
      → routed_in (q ++ ps) < 2 ^ 31
      → enqueue_all (filled f q) ps ≡ filled f (q ++ ps)
  enqueue_all-filled f q [] h = ap (filled f) (sym (append-nil q))
  enqueue_all-filled f q ((e, routed) ∷ ps) h =
      let all : (q ++ (e, routed) ∷ []) ++ ps ≡ q ++ (e, routed) ∷ ps =
        append_assoc q ((e, routed) ∷ []) ps in
      let rest = subst (λ (x : List (E × Bool)). routed_in x < 2 ^ 31) (sym all) h in
      let room : (if routed then routed_in q + 1 else 0) < 2 ^ 31 =
        ground (arith, routed_in-append q ((e, routed) ∷ ps)) in
      ap (λ g. enqueue_all g ps) (enqueue-filled f q e routed room)
      ∙ enqueue_all-filled f (q ++ (e, routed) ∷ []) ps rest
      ∙ ap (filled f) all

  -- A flow whose actor keeps up: nothing is queued.
  abbrev pub stable : RxFlowControl → RxFlowData E
  stable c = record { control = c; queue = none; routed = pos 0 }

  enqueue_first :
      (c : RxFlowControl) (e : E) (routed : Bool)
      → enqueue (stable c) e routed ≡ filled (stable c) ((e, routed) ∷ [])
  unfolding enqueue wrap_i32 ◌+ℤ◌
  enqueue_first c e true = refl
  enqueue_first c e false = refl

  -- Envelopes that are queued for an actor come out in the order in which they came in, each with
  -- its mark of routing, and then the flow is stable again and counts no routed envelope. Fewer
  -- than 2^31 of them may be routed.
  drain-enqueue_all :
      (c : RxFlowControl) (ps : List (E × Bool))
      → routed_in ps < 2 ^ 31
      → drain (suc (length ps)) (enqueue_all (stable c) ps) ≡ (stable c, ps)
  unfolding dequeue_flow enqueue
  drain-enqueue_all c [] h = refl
  drain-enqueue_all c ((e, routed) ∷ ps) h =
      let first : enqueue (stable c) e routed ≡ filled (stable c) ((e, routed) ∷ []) =
        enqueue_first c e routed in
      ap (λ g. drain (suc (suc (length ps))) (enqueue_all g ps)) first
      ∙ ap (drain (suc (suc (length ps)))) (enqueue_all-filled (stable c) ((e, routed) ∷ []) ps h)
      ∙ drain-filled (stable c) ((e, routed) ∷ ps) h

  -- Closing the flow of an address takes it out of the map, and gives the routed window back one
  -- unit for each routed envelope that is dropped with the queue. The flow must count its routed
  -- envelopes, and the routed windows must be i32.
  close_releases :
      (t : RxFlows E) (a : Addr) (f : RxFlowData E) {t' : RxFlows E} {r : Option NetworkAddr}
      {u : Option UpdateFlow}
      → IsI32 t.routed_control
      → find t.map a ≡ some f
      → f.routed ≡ pos (routed_in (queued f.queue))
      → close t a ≡ done (t', r, u)
      → (t'.routed_control.rx_window
          ≡ t.routed_control.rx_window +ℤ pos (routed_in (queued f.queue)))
        × (find t'.map a ≡ none)
        × (r ≡ some (into_remote a t.node_no))
  unfolding close
  close_releases t a f v e counted h =
      let h' = rw (e, close) at h in
      let (p, ep, e₁) = >>=-eq-done (rx_release t.routed_control f.routed) _ h' in
      let account = (rx_release_accounts t.routed_control p.0 f.routed p.1 v ep).0 in
      let e₂ = done_injective e₁ in
      (
        ap (λ q. q.0.routed_control.rx_window) (sym e₂)
            ∙ account
            ∙ ap (λ z. t.routed_control.rx_window +ℤ z) counted,
        ap (λ q. find q.0.map a) (sym e₂) ∙ find-delete t.map a a ∙ ground arith,
        ap (λ q. q.1) (sym e₂),
      )
