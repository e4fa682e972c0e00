-- ===== src/Core/RequestTable/Counts.antt =====
-- elfo-core/src/request_table.rs: how the calls change the number of responses that are expected and
-- the number of tokens.
use elfo.Base.{
  ℕ, suc, ◌+◌, ◌≤◌, ◌≡◌, refl, sym, subst, ◌∙◌, ◌⊎◌, inl, inr, Bool, true, none, some, List, [],
  ◌∷◌, arith, if◌then◌else◌, Option-cases, done,
}
use elfo.Core.RequestTable.{
  Response, RequestData, push, SlotMap, Poll, new_request, wait, resolve, duplicate,
}
use elfo.Core.RequestTable.Steps.{Picks, World, count, Counted, first, later}

module _ {E : Type 0} (s : SlotMap (RequestData E)) where
  open s use {Key, Map, same, same_iff, get, issued}

  push_counts :
      (d : RequestData E) (r : Response E) (n : ℕ)
      → d.remainder ≤ suc n
      → ((push d r).0.remainder ≤ n) × ((push d r).0.collect_all ≡ d.collect_all)
  unfolding push
  push_counts d r n h = ground arith

  push_counts_all :
      (d : RequestData E) (r : Response E) (n : ℕ)
      → d.remainder ≡ suc n
      → d.collect_all ≡ true
      → (push d r).0.remainder ≡ n
  unfolding push
  push_counts_all d r n h c = ground arith

  Picks-count :
      {k : Key} {ks rest : List Key} (j : Key)
      → Picks s k ks rest
      → count s j ks ≡ (if same k j then 1 else 0) + count s j rest
  Picks-count j first = refl
  Picks-count j (later p) = ground (arith, Picks-count j p)

  pub requests-Counted :
      (w : World s) (c : Bool)
      → Counted s w.table w.tokens
      → Counted s ((new_request s w.table c).0) ((new_request s w.table c).1 ∷ w.tokens)
  unfolding new_request
  requests-Counted w c v =
      let d : RequestData E = record { remainder = 1; responses = []; collect_all = c } in
      let n = (s.insert w.table d).1 in
      record {
        expected = λ k e h. ground (
          arith,
          s.get-insert w.table d k,
          s.insert-fresh w.table d,
          same_iff n k,
          v.known n,
          v.expected k e,
        );
        known = λ k h. ground (arith, s.issued-insert w.table d k, v.known k);
      }

  same_refl : (k : Key) → same k k ≡ true
  same_refl k = (same_iff k k).1 refl

  -- The token is used up, and the table is as it was: the request is gone already.
  unresolved-Counted :
      (w : World s) (k : Key) (rest : List Key)
      → Picks s k w.tokens rest
      → get w.table k ≡ none
      → Counted s w.table w.tokens
      → Counted s w.table rest
  unresolved-Counted w k rest p e v = record {
    expected = λ j f h. ground (arith, Picks-count j p, same_iff k j, v.expected j f);
    known = λ j h. omega (arith, Picks-count j p, v.known j h);
  }

  resolved-Counted :
      (w : World s) (k : Key) (rest : List Key) (r : Response E) (d : RequestData E)
      → Picks s k w.tokens rest
      → get w.table k ≡ some d
      → Counted s w.table w.tokens
      → Counted s (s.write w.table k (push d r).0) (rest)
  resolved-Counted w k rest r d p e v =
      let d' = (push d r).0 in
      record {
        expected = λ j f h. ground (
          arith,
          Picks-count j p,
          same_iff k j,
          s.get-write w.table k d' d j e,
          push_counts d r (count s k rest),
          push_counts_all d r (count s k rest),
          v.expected k d,
          v.expected j f,
        );
        known = λ j h.
            omega (arith, Picks-count j p, v.known j (sym (s.issued-write w.table k d' j) ∙ h));
      }

  pub resolves-Counted :
      (w : World s) (k : Key) (rest : List Key) (r : Response E)
      → Picks s k w.tokens rest
      → Counted s w.table w.tokens
      → Counted s ((resolve s w.table k r).0) (rest)
  unfolding resolve
  resolves-Counted w k rest r p v = elim (Option-cases (get w.table k)) [
    | inl e ↦ rw (e, resolve) (unresolved-Counted w k rest p e v)
    | inr (d, e) ↦ rw (e, resolve) (resolved-Counted w k rest r d p e v)
  ]

  duplicated-Counted :
      (w : World s) (k : Key) (rest : List Key) (d : RequestData E)
      → Picks s k w.tokens rest
      → get w.table k ≡ some d
      → Counted s w.table w.tokens
      → Counted s (s.write w.table k (record d { remainder = d.remainder + 1 })) (k ∷ w.tokens)
  duplicated-Counted w k rest d p e v =
      let d' : RequestData E = record d { remainder = d.remainder + 1 } in
      record {
        expected = λ j f h.
            ground
              (arith, s.get-write w.table k d' d j e, same_iff k j, v.expected k d, v.expected j f);
        known = λ j h. ground (
          arith,
          same_iff k j,
          same_refl k,
          Picks-count k p,
          s.issued-write w.table k d' j,
          v.known j,
        );
      }

  pub duplicate_key :
      (m m' : Map) (k j : Key)
      → duplicate s m k ≡ (m', some j)
      → (d : RequestData E) × (get m k ≡ some d)
        × (m' ≡ s.write m k (record d { remainder = d.remainder + 1 }))
  unfolding duplicate
  duplicate_key m m' k j h = ground arith

  pub duplicates-Counted :
      (w : World s) (k : Key) (rest : List Key) (m : Map)
      → Picks s k w.tokens rest
      → duplicate s w.table k ≡ (m, some k)
      → Counted s w.table w.tokens
      → Counted s (m) (k ∷ w.tokens)
  duplicates-Counted w k rest m p h v =
      let (d, e, f) = duplicate_key w.table m k k h in
      subst (λ t. Counted s (t) (k ∷ w.tokens)) (sym f) (duplicated-Counted w k rest d p e v)

  pub cancels-Counted :
      (w : World s) (k : Key) → Counted s w.table w.tokens → Counted s (s.remove w.table k) w.tokens
  cancels-Counted w k v = record {
    expected = λ j d h. ground (arith, s.get-remove w.table k j, v.expected j d);
    known = λ j h. v.known j (sym (s.issued-remove w.table k j) ∙ h);
  }

  -- `wait` either leaves the table as it is, or takes the request out.
  pub wait_cases :
      (m m' : Map) (k : Key) (p : Poll (List (Response E)))
      → wait s m k ≡ done (m', p)
      → (m' ≡ m) ⊎ (m' ≡ s.remove m k)
  unfolding wait
  wait_cases m m' k p h = ground arith

  pub waits-Counted :
      (w : World s) (k : Key) (m : Map) (p : Poll (List (Response E)))
      → wait s w.table k ≡ done (m, p)
      → Counted s w.table w.tokens
      → Counted s (m) w.tokens
  waits-Counted w k m p h v = elim (wait_cases w.table m k p h) [
    | inl e ↦ subst (λ t. Counted s (t) w.tokens) (sym e) v
    | inr e ↦ subst (λ t. Counted s (t) w.tokens) (sym e) (cancels-Counted w k v)
  ]
