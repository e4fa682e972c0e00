-- ===== src/Core/RequestTable/Waiters.antt =====
-- elfo-core/src/request_table.rs: how the calls change who sleeps.
use elfo.Base.{
  ◌≡◌, refl, sym, subst, ◌≢◌, inl, inr, Bool, Bool-cases, some, List, [], ◌∷◌, arith, Option-cases,
  done,
}
use elfo.Core.RequestTable.{
  Response, RequestData, push, SlotMap, Poll, waiting, ready, new_request, wait, resolve, duplicate,
}
use elfo.Core.RequestTable.Steps.{World, left_asleep, falls_asleep, count}
use elfo.Core.RequestTable.Counts.{duplicate_key, wait_cases}

module _ {E : Type 0} (s : SlotMap (RequestData E)) where
  open s use {Key, Map, same, same_iff, get, issued}

  abbrev pub Awake : Map → List Key → Type 0
  Awake m asleep =
      (k : Key) (d : RequestData E) → get m k ≡ some d → d.remainder ≡ 0 → count s k asleep ≡ 0

  pub requests-Awake :
      (w : World s) (c : Bool) {m : Map} {k : Key}
      → new_request s w.table c ≡ (m, k)
      → Awake w.table w.asleep
      → Awake m w.asleep
  unfolding new_request
  requests-Awake w c e a =
      let d : RequestData E = record { remainder = 1; responses = []; collect_all = c } in
      subst (λ p. Awake p.0 w.asleep) e
        (λ j f h zero. ground (arith, s.get-insert w.table d j, a j f))

  write-Awake :
      (m : Map) (asleep : List Key) (k : Key) (d d' : RequestData E)
      → get m k ≡ some d
      → (d'.remainder ≡ 0 → d.remainder ≡ 0)
      → Awake m asleep
      → Awake (s.write m k d') asleep
  write-Awake m asleep k d d' e back a =
      λ j f h zero. ground (arith, s.get-write m k d' d j e, same_iff k j, a k d e, a j f)

  pub duplicates-Awake :
      (w : World s) (k : Key) {m : Map}
      → duplicate s w.table k ≡ (m, some k)
      → Awake w.table w.asleep
      → Awake m w.asleep
  duplicates-Awake w k {m = m} h a =
      let (d, e, f) = duplicate_key s w.table m k k h in
      subst (λ t. Awake t w.asleep) (sym f)
        (write-Awake w.table w.asleep k d _ e (λ zero. absurd (omega arith)) a)

  pushed-Awake :
      (w : World s) (k : Key) (d : RequestData E) (r : Response E)
      → get w.table k ≡ some d
      → Awake w.table w.asleep
      → Awake (s.write w.table k (push d r).0) (left_asleep s (push d r).1 w.asleep)
  unfolding push
  pushed-Awake w k d r e a = elim (Bool-cases (push d r).1) [
    | inl told ↦ rw told (λ j f h zero. refl)
    | inr quiet ↦
        rw quiet (write-Awake w.table w.asleep k d (push d r).0 e (λ zero. ground arith) a)
  ]

  pub resolves-Awake :
      (w : World s) (k : Key) (r : Response E)
      → Awake w.table w.asleep
      → Awake (resolve s w.table k r).0 (left_asleep s (resolve s w.table k r).1 w.asleep)
  unfolding resolve
  resolves-Awake w k r a = elim (Option-cases (get w.table k)) [
    | inl e ↦ rw (e, resolve) a
    | inr (d, e) ↦ rw (e, resolve) (pushed-Awake w k d r e a)
  ]

  pub removes-Awake :
      (m : Map) (asleep : List Key) (k : Key) → Awake m asleep → Awake (s.remove m k) asleep
  removes-Awake m asleep k a = λ j f h zero. ground (arith, s.get-remove m k j, a j f)

  -- A pass that goes on waiting has found more responses expected.
  wait-waiting :
      (m m' : Map) (k : Key)
      → wait s m k ≡ done (m', waiting)
      → (m' ≡ m) × (d : RequestData E) × (get m k ≡ some d) × (d.remainder ≢ 0)
  unfolding wait
  wait-waiting m m' k h = elim (Option-cases (get m k)) [
    | inl e ↦ absurd (let h' = rw (e, wait) at h in cc)
    | inr (d, e) ↦ (ground arith, d, e, ground arith)
  ]

  pub waits-Awake :
      (w : World s) (k : Key) {m : Map} (p : Poll (List (Response E)))
      → wait s w.table k ≡ done (m, p)
      → Awake w.table w.asleep
      → Awake m (falls_asleep s k p w.asleep)
  unfolding wait
  waits-Awake w k waiting h a =
      let (same_map, d, e, more) = wait-waiting w.table _ k h in
      subst (λ t. Awake t (k ∷ w.asleep)) (sym same_map)
        (λ j f g zero. ground (arith, same_iff k j, a j f))
  waits-Awake w k (ready rs) h a = elim (wait_cases s w.table _ k (ready rs) h) [
    | inl e ↦ subst (λ t. Awake t w.asleep) (sym e) a
    | inr e ↦ subst (λ t. Awake t w.asleep) (sym e) (removes-Awake w.table w.asleep k a)
  ]
