-- ===== src/Core/RequestTable/Tokens.antt =====
-- elfo-core/src/request_table.rs: requests under any interleaving of the table's calls.
use elfo.Base.{◌≡◌, refl, subst, true, some, List, ◌∷◌, arith, done}
use elfo.Core.RequestTable.{Response, RequestData, SlotMap, ready, cancel_request, wait, drop_token}
use elfo.Core.RequestTable.Steps.{
  World, Step, Reach, count, Counted, Inv, requests, duplicates, resolves, drops, cancels, waits,
  here, next,
}
use elfo.Core.RequestTable.Counts.{
  requests-Counted, resolves-Counted, duplicates-Counted, cancels-Counted, waits-Counted,
}
use elfo.Core.RequestTable.Waiters.{
  requests-Awake, duplicates-Awake, resolves-Awake, removes-Awake, waits-Awake,
}

module _ {E : Type 0} (s : SlotMap (RequestData E)) where
  open s use {Key, Map, same, same_iff, get, issued}

  Step-Inv : {v w : World s} → Step s v w → Inv s v → Inv s w
  unfolding drop_token cancel_request
  Step-Inv (requests w c {m = m} {k = k} e) v = record {
    counted = subst (λ r. Counted s r.0 (r.1 ∷ w.tokens)) e (requests-Counted s w c v.counted);
    awake = requests-Awake s w c e v.awake;
  }
  Step-Inv (duplicates w {k = k} p e) v = record {
    counted = duplicates-Counted s w _ _ _ p e v.counted;
    awake = duplicates-Awake s w k e v.awake;
  }
  Step-Inv (resolves w k r p) v = record {
    counted = resolves-Counted s w k _ r p v.counted;
    awake = resolves-Awake s w k r v.awake;
  }
  Step-Inv (drops w k received p) v = record {
    counted = resolves-Counted s w k _ _ p v.counted;
    awake = resolves-Awake s w k _ v.awake;
  }
  Step-Inv (cancels w k) v = record {
    counted = cancels-Counted s w k v.counted;
    awake = removes-Awake s w.table w.asleep k v.awake;
  }
  Step-Inv (waits w k {m = m} {p = p} e) v = record {
    counted = waits-Counted s w k _ _ e v.counted;
    awake = waits-Awake s w k p e v.awake;
  }

  Reach-Inv : {w : World s} → Reach s w → Inv s w
  Reach-Inv here = record {
    counted = record { expected = λ k d h. ground (arith, s.get-empty k); known = λ k h. refl };
    awake = λ k d h e. refl;
  }
  Reach-Inv (next r st) = Step-Inv st (Reach-Inv r)

  -- However requests, duplications, responses, drops, cancellations and waits interleave, no
  -- request hangs: once every token of a request that is in the table is used up, by a response or
  -- a drop, no waiter of it sleeps without having been notified after it found the request
  -- incomplete, and a pass of `wait` takes the request out and returns its responses. A pass
  -- asks to be notified before it looks at the request.
  pub request_completes :
      (w : World s) (k : Key) (d : RequestData E)
      → Reach s w
      → get w.table k ≡ some d
      → count s k w.tokens ≡ 0
      → (count s k w.asleep ≡ 0) × (wait s w.table k ≡ done (s.remove w.table k, ready d.responses))
  unfolding wait
  request_completes w k d r h none_left =
      let i = Reach-Inv r in
      let small = (i.counted.expected k d h).0 in
      let complete : d.remainder ≡ 0 = omega arith in
      (i.awake k d h complete, rw (h, wait) (ground arith))

  -- Under the same interleavings `wait` returns the responses of a request that collects all only
  -- when no token of it is left.
  pub collect_all_waits :
      (w : World s) (k : Key) (d : RequestData E) {m : Map} {rs : List (Response E)}
      → Reach s w
      → get w.table k ≡ some d
      → d.collect_all ≡ true
      → wait s w.table k ≡ done (m, ready rs)
      → (count s k w.tokens ≡ 0) × (rs ≡ d.responses)
  unfolding wait
  collect_all_waits w k d r h c e =
      let exact = ((Reach-Inv r).counted.expected k d h).1 c in ground arith
