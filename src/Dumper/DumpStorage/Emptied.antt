-- ===== src/Dumper/DumpStorage/Emptied.antt =====
-- elfo-dumper/src/dump_storage.rs: a drain on its own, from a call of `next` to the next.
use elfo.Dumper.DumpStorage.Kept.{concat}
use elfo.Base.{
  ℕ, zero, suc, ◌+◌, ◌<◌, ◌≡◌, refl, sym, ap, subst, ◌∙◌, ◌≢◌, inl, inr, Bool, false, not, Option,
  none, some, List, [], ◌∷◌, ◌++◌, arith, ltb, Bool-cases, Option-cases, length, get_elem?,
  length-append, get_or, get_elem?-some, get_or-set_self, get_or-beyond, done, ◌>>=◌, >>=-eq-done,
  done_injective,
}
use elfo.Dumper.DumpStorage.Fund.{Part, Fund, is_empty, pop_front, get_filled_part, get_empty_part}
use elfo.Dumper.DumpStorage.Registry.{Registry, replace_part, renew_active_part}
use elfo.Dumper.DumpStorage.Drain.{
  Drain, numbers, all_shards, take_filled, if_renewed, or_active, try_shard, found_or, visit, rerun,
  next_shard,
}
use elfo.Dumper.DumpStorage.Changes.{replace_part-done, renew_active_part-done}
use elfo.Dumper.DumpStorage.Order.{cc_append, in_registry}

module _ {D : Type 0} where
  pop_front-none :
      (f : Fund D) (n : ℕ) (queue : List (Part D)) {f' : Fund D}
      → pop_front f n queue ≡ (f', none)
      → (queue ≡ []) × (f' ≡ f)
  pop_front-none f n [] h = (refl, cc)
  pop_front-none f n (p ∷ queue) h = cc

  take_filled-none :
      (r : Registry D) (n : ℕ) {r' : Registry D}
      → take_filled r n ≡ done (r', none)
      → (get_or r.fund.filled_parts n [] ≡ []) × (r' ≡ r)
  unfolding take_filled get_filled_part
  take_filled-none r n h = elim (Option-cases (get_elem? r.fund.filled_parts n)) [
    | inl e ↦ ground arith
    | inr (q, e) ↦
        let (p, same) = get_elem?-some r.fund.filled_parts n [] q e in
        let h' = done_injective (rw e at h) in
        let (nil, fund) = pop_front-none r.fund n q (cc h') in
        (same ∙ nil, sym (ap (λ t. t.0) h') ∙ ap (λ g. record r { fund = g }) fund)
  ]

  -- A part that was renewed is found in the queue.
  renewed-found :
      (r : Registry D) (n : ℕ) {r' r'' : Registry D}
      → replace_part r n ≡ done r'
      → take_filled r' n ≢ done (r'', none)
  renewed-found r n {r' = r'} h e =
      let (p, same) = replace_part-done r n h in
      let (f, part) = get_empty_part r.fund in
      let queue = get_or f.filled_parts n [] ++ get_or r.shards n [] ∷ [] in
      let (nil, _) = take_filled-none r' n e in
      let now =
        ap (λ (s : Registry D). get_or s.fund.filled_parts n []) same
        ∙ get_or-set_self f.filled_parts n queue [] p in
      let long = length-append (get_or f.filled_parts n []) (get_or r.shards n [] ∷ []) in
      let zero_long = ap length (sym now ∙ nil) in absurd (omega arith)

  is_empty-nil : (part : Part D) → not (is_empty part) ≡ false → part ≡ []
  unfolding is_empty
  is_empty-nil [] h = refl
  is_empty-nil (x ∷ part) h = cc

  or_active-none :
      (r : Registry D) (n : ℕ) (found : Registry D × Option (Part D)) {r' : Registry D}
      → take_filled r n ≡ done found
      → or_active n found ≡ done (r', none)
      → (in_registry r n ≡ []) × (r' ≡ r)
  or_active-none r n (s, some part) took h = cc
  or_active-none r n (s, none) took h =
      let (nil, same) = take_filled-none r n took in
      let test = λ (part : Part D). not (is_empty part) in
      let ((s', renewed), e, e') = >>=-eq-done (renew_active_part s n test) _ h in
      elim (renew_active_part-done s n test e) [
        | inl (empty, kept, same') ↦
            let stays = ap (λ (b : Bool). if_renewed n (s', b)) (sym kept) ∙ e' in
            let active =
              ap (λ (t : Registry D). get_or t.shards n []) (sym same)
              ∙ is_empty-nil (get_or s.shards n []) empty in
            (
              cc_append (ap concat nil) active,
              sym (ap (λ t. t.0) (done_injective stays)) ∙ same' ∙ same,
            )
        | inr (full, new, replaced) ↦
            let found = ap (λ (b : Bool). if_renewed n (s', b)) (sym new) ∙ e' in
            absurd (renewed-found s n replaced found)
      ]

  try_shard-none :
      (r : Registry D) (n : ℕ) {r' : Registry D}
      → try_shard r n ≡ done (r', none)
      → (in_registry r n ≡ []) × (r' ≡ r)
  unfolding try_shard
  try_shard-none r n h =
      let (found, e, e') = >>=-eq-done (take_filled r n) (or_active n) h in
      or_active-none r n found e e'

  -- All shards of a list have nothing left.
  abbrev pub AllEmpty : Registry D → List ℕ → Type 0
  AllEmpty r [] = Unit {0}
  AllEmpty r (n ∷ ns) = (in_registry r n ≡ []) × AllEmpty r ns

  found_or-none :
      (r : Registry D) (n : ℕ) (ns : List ℕ) (found : Registry D × Option (Part D))
      {t : (Registry D × Option (ℕ × Part D)) × List ℕ}
      → try_shard r n ≡ done found
      → found_or n ns (λ r'. visit r' ns) found ≡ done t
      → t.0.1 ≡ none
      → ((r' : Registry D) → visit r' ns ≡ done t → AllEmpty r' ns × (t.0.0 ≡ r'))
      → AllEmpty r (n ∷ ns) × (t.0.0 ≡ r)
  found_or-none r n ns (s, some part) tried h nothing rec =
      let found = ap (λ t. t.0.1) (done_injective h) in cc
  found_or-none r n ns (s, none) tried h nothing rec =
      let (nil, same) = try_shard-none r n tried in
      let (others, same') = rec s h in
      ((nil, subst (λ (q : Registry D). AllEmpty q ns) same others), same' ∙ same)

  visit-none :
      (r : Registry D) (ns : List ℕ) {t : (Registry D × Option (ℕ × Part D)) × List ℕ}
      → visit r ns ≡ done t
      → t.0.1 ≡ none
      → AllEmpty r ns × (t.0.0 ≡ r)
  unfolding visit
  visit-none r [] h nothing = (tt, ap (λ t. t.0.0) (sym (done_injective h)))
  visit-none r (n ∷ ns) h nothing =
      let (found, e, e') = >>=-eq-done (try_shard r n) _ h in
      found_or-none r n ns found e e' nothing (λ r' h'. visit-none r' ns h' nothing)

  rerun-none :
      (r : Registry D) (found : (Registry D × Option (ℕ × Part D)) × List ℕ)
      {t : (Registry D × Option (ℕ × Part D)) × List ℕ}
      → (found.0.1 ≡ none → found.0.0 ≡ r)
      → rerun found ≡ done t
      → t.0.1 ≡ none
      → AllEmpty r (all_shards r) × (t.0.0 ≡ r)
  rerun-none r ((s, some part), rest) same h nothing =
      let found = ap (λ t. t.0.1) (done_injective h) in cc
  rerun-none r ((s, none), rest) same h nothing =
      let e = same refl in
      let (empty, same') = visit-none s (all_shards s) h nothing in
      (subst (λ (q : Registry D). AllEmpty q (all_shards q)) e empty, same' ∙ e)

  AllEmpty-get :
      {A : Type 0} (r : Registry D) (from k : ℕ) (xs : List A)
      → AllEmpty r (numbers from xs)
      → k < length xs
      → in_registry r (from + k) ≡ []
  AllEmpty-get r from k [] all p = elim p [ ]
  AllEmpty-get r from zero (x ∷ xs) all p =
      ap (in_registry r) (let same : from + 0 ≡ from = omega arith in same) ∙ all.0
  AllEmpty-get r from (suc k) (x ∷ xs) all p =
      ap (in_registry r) (let same : from + suc k ≡ suc from + k = omega arith in same)
      ∙ AllEmpty-get r (suc from) k xs all.1 (omega arith)

  all_empty :
      (r : Registry D) (k : ℕ)
      → length r.fund.filled_parts ≡ length r.shards
      → AllEmpty r (all_shards r)
      → in_registry r k ≡ []
  all_empty r k shape all = elim (Bool-cases (ltb k (length r.shards))) [
    | inl below ↦
        ap (in_registry r) (let same : k ≡ 0 + k = omega arith in same)
        ∙ AllEmpty-get r 0 k r.shards all (ground arith)
    | inr beyond ↦
        cc_append (ap concat (get_or-beyond r.fund.filled_parts k [] (ground arith)))
          (get_or-beyond r.shards k [] (ground arith))
  ]

  -- When no other thread adds to the registry, configures it or drains it while a drain searches for
  -- its next part, the drain finds none only when there is no dump left in the registry: in the queue
  -- of no shard, and in no active part. The registry has a queue for each shard.
  pub nothing_is_left :
      (r : Registry D) (d : Drain D) (r' : Registry D) (d' : Drain D)
      → length r.fund.filled_parts ≡ length r.shards
      → next_shard r d ≡ done (r', d')
      → d'.current ≡ none
      → (r' ≡ r) × ((k : ℕ) → in_registry r k ≡ [])
  unfolding next_shard
  nothing_is_left r d r' d' shape h nothing =
      let (last, e, e') = >>=-eq-done (visit r d.shard_iter >>= rerun) _ h in
      let (first, e₁, e₂) = >>=-eq-done (visit r d.shard_iter) rerun e in
      let same_drain = ap (λ t. t.1.current) (done_injective e') in
      let none_found : last.0.1 ≡ none = same_drain ∙ nothing in
      let (all, same) =
        rerun-none r first (λ n. (visit-none r d.shard_iter e₁ n).1) e₂ none_found in
      (sym (ap (λ t. t.0) (done_injective e')) ∙ same, λ k. all_empty r k shape all)
