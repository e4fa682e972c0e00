-- ===== src/Dumper/DumpStorage/Changes.antt =====
-- elfo-dumper/src/dump_storage.rs: what the operations of a registry change.
use elfo.Base.{
  ℕ, ◌<◌, ◌≡◌, refl, sym, ap, ◌∙◌, ◌⊎◌, inl, inr, Bool, true, false, some, List, [], ◌∷◌, ◌++◌,
  arith, Bool-cases, Option-cases, length, get_elem?, set, get_or, get_elem?-some, get_elem?-lt,
  done, >>=-eq-done, done_injective,
}
use elfo.Dumper.DumpStorage.Fund.{
  Part, Fund, add_filled_part, pop_front, get_filled_part, get_empty_part,
}
use elfo.Dumper.DumpStorage.Registry.{Registry, replace_part, renew_active_part}
use elfo.Dumper.DumpStorage.Drain.{take_filled}

module _ {D : Type 0} where
  pub add_filled_part-done :
      (f : Fund D) (n : ℕ) (part : Part D) {f' : Fund D}
      → add_filled_part f n part ≡ done f'
      → (n < length f.filled_parts)
        × (f' ≡ record f {
          filled_parts = set f.filled_parts n (get_or f.filled_parts n [] ++ part ∷ []);
        })
  unfolding add_filled_part
  add_filled_part-done f n part h = elim (Option-cases (get_elem? f.filled_parts n)) [
    | inl e ↦ ground arith
    | inr (q, e) ↦
        let (p, same) = get_elem?-some f.filled_parts n [] q e in
        (p, rw same (sym (done_injective (rw e at h))))
  ]

  pub add_filled_part-lt :
      (f : Fund D) (n : ℕ) (part : Part D)
      → n < length f.filled_parts
      → (f' : Fund D) × (add_filled_part f n part ≡ done f')
  unfolding add_filled_part
  add_filled_part-lt f n part h =
      let e = get_elem?-lt f.filled_parts n [] h in
      (
        record f { filled_parts = set f.filled_parts n (get_or f.filled_parts n [] ++ part ∷ []) },
        rw e refl,
      )

  -- The active part goes to the end of the queue of its shard.
  pub replace_part-done :
      (r : Registry D) (n : ℕ) {r' : Registry D}
      → replace_part r n ≡ done r'
      → let (f, part) = get_empty_part r.fund in
        let queue = get_or f.filled_parts n [] ++ get_or r.shards n [] ∷ [] in
        (n < length f.filled_parts)
        × (r' ≡ record {
          fund = record f { filled_parts = set f.filled_parts n queue };
          shards = set r.shards n part;
        })
  unfolding replace_part
  replace_part-done r n h =
      let (f, part) = get_empty_part r.fund in
      let (f', e, e') = >>=-eq-done (add_filled_part f n (get_or r.shards n [])) _ h in
      let (p, same) = add_filled_part-done f n (get_or r.shards n []) e in
      (
        p,
        sym (done_injective e') ∙ ap (λ g. record { fund = g; shards = set r.shards n part }) same,
      )

  -- A part is renewed, or nothing changes as the test fails.
  pub renew_active_part-done :
      (r : Registry D) (n : ℕ) (predicate : Part D → Bool) {r' : Registry D} {renewed : Bool}
      → renew_active_part r n predicate ≡ done (r', renewed)
      → ((predicate (get_or r.shards n []) ≡ false) × (renewed ≡ false) × (r' ≡ r))
        ⊎ ((predicate (get_or r.shards n []) ≡ true)
            × (renewed ≡ true)
            × (replace_part r n ≡ done r'))
  unfolding renew_active_part
  renew_active_part-done r n predicate h = elim (Bool-cases (predicate (get_or r.shards n []))) [
    | inr no_need ↦
        let e = done_injective (rw no_need at h) in
        inl (no_need, sym (ap (λ p. p.1) e), sym (ap (λ p. p.0) e))
    | inl need ↦
        let (r₁, e, e') = >>=-eq-done (replace_part r n) _ (rw need at h) in
        let same = done_injective e' in
        inr (need, sym (ap (λ p. p.1) same), e ∙ ap done (ap (λ p. p.0) same))
  ]

  pop_front-some :
      (f : Fund D) (n : ℕ) (queue : List (Part D)) {f' : Fund D} {part : Part D}
      → pop_front f n queue ≡ (f', some part)
      → (rest : List (Part D)) × (queue ≡ part ∷ rest)
        × (f' ≡ record f { filled_parts = set f.filled_parts n rest })
  pop_front-some f n [] h = cc
  pop_front-some f n (p ∷ queue) h = (queue, cc, cc)

  -- The oldest part of the queue of a shard leaves it.
  pub take_filled-some :
      (r : Registry D) (n : ℕ) {r' : Registry D} {part : Part D}
      → take_filled r n ≡ done (r', some part)
      → (rest : List (Part D)) × (n < length r.fund.filled_parts)
        × (get_or r.fund.filled_parts n [] ≡ part ∷ rest)
        × (r'
            ≡ record r { fund = record (r.fund) { filled_parts = set r.fund.filled_parts n rest } })
  unfolding take_filled get_filled_part
  take_filled-some r n h = elim (Option-cases (get_elem? r.fund.filled_parts n)) [
    | inl e ↦ ground arith
    | inr (q, e) ↦
        let (p, same) = get_elem?-some r.fund.filled_parts n [] q e in
        let h' = done_injective (rw e at h) in
        let (rest, front, fund) = pop_front-some r.fund n q (cc h') in
        (rest, p, same ∙ front, sym (ap (λ t. t.0) h') ∙ ap (λ g. record r { fund = g }) fund)
  ]
