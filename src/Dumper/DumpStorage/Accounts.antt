-- ===== src/Dumper/DumpStorage/Accounts.antt =====
-- elfo-dumper/src/dump_storage.rs: the parts of a registry, and how many there are.
use elfo.Dumper.DumpStorage.Drain.{Drain, take_filled, pop_part, pop_current, give_back}
use elfo.Base.{
  ℕ, ◌+◌, ◌≤◌, max, ◌≡◌, refl, sym, ap, subst, ◌∙◌, inl, inr, Bool, Option, none, some, [], ◌∷◌,
  ◌++◌, arith, length, length-append, length-set, get_or, done, >>=-eq-done, done_injective,
}
use elfo.Dumper.DumpStorage.Fund.{
  Part, Fund, add_shard, add_filled_part, add_empty_part, get_empty_part,
}
use elfo.Dumper.DumpStorage.Registry.{Registry, make_shard, replace_part, renew_active_part}
use elfo.Dumper.DumpStorage.Parts.{
  total, AllNil, total-set, total-append, Cleared-total, Source, stacked, fresh, taken,
  get_empty_part-Source,
}
use elfo.Dumper.DumpStorage.Changes.{
  add_filled_part-done, replace_part-done, renew_active_part-done, take_filled-some,
}
use elfo.Dumper.DumpStorage.Steps.{World}

abbrev pub held : {A : Type 0} → Option A → ℕ
held none = 0
held (some a) = 1

module _ {D : Type 0} where
  -- The parts of a fund with `queues` queues, of `shards` shards and of a drain that has `loaned`
  -- parts.
  pub record Account (f : Fund D) (queues shards loaned : ℕ) : Type 0 where
    pub shape : length f.filled_parts ≡ queues
    pub nothing : AllNil f.empty_parts
    pub counted : f.part_count ≡ length f.empty_parts + total f.filled_parts + shards + loaned
    pub bounded : f.part_count ≤ max f.max_part_count (shards + 2)
    pub one_drain : loaned ≤ 1

  -- A part for a new shard, or one to replace an active one, is empty and counted.
  pub Source-Account :
      {f f' : Fund D} {part : Part D} {queues shards loaned : ℕ}
      → Source f f' part
      → Account f queues shards loaned
      → (part ≡ [])
        × (length f'.filled_parts ≡ queues)
        × AllNil f'.empty_parts
        × (f'.part_count ≡ length f'.empty_parts + total f'.filled_parts + shards + loaned + 1)
        × (f'.part_count ≤ max f'.max_part_count (shards + 2))
  Source-Account {f = f} (stacked part ps e) a =
      let nils : AllNil (part ∷ ps) = subst AllNil e a.nothing in
      let long = ap length e in (nils.0, a.shape, nils.1, omega (arith, a.counted), a.bounded)
  Source-Account {f = f} (fresh e (inl room)) a =
      let long = ap length e in (refl, a.shape, a.nothing, omega (arith, a.counted), omega arith)
  Source-Account {f = f} (fresh e (inr no_parts)) a =
      let long = ap length e in
      (refl, a.shape, a.nothing, omega (arith, a.counted), omega (arith, a.counted, a.one_drain))
  Source-Account {f = f} (taken e full c) a =
      let (fewer, as_long) = Cleared-total c in
      (c.cleared, as_long ∙ a.shape, a.nothing, omega (arith, a.counted), a.bounded)

  abbrev pub RegistryAccount : Registry D → ℕ → Type 0
  RegistryAccount r loaned = Account r.fund (length r.shards) (length r.shards) loaned

  abbrev pub Inv : World D → Type 0
  Inv w = RegistryAccount w.registry (held (w.drain).current)

  pub make_shard-Account :
      (r : Registry D) (loaned : ℕ)
      → RegistryAccount r loaned
      → RegistryAccount (make_shard r).0 loaned
  unfolding make_shard add_shard
  make_shard-Account r loaned a =
      let f = (add_shard r.fund).0 in
      let one_more = length-append r.fund.filled_parts ([] ∷ []) in
      let same = total-append r.fund.filled_parts ([] ∷ []) in
      let wider : Account f (length r.shards + 1) (length r.shards) loaned = record {
        shape = omega (arith, a.shape);
        nothing = a.nothing;
        counted = omega (arith, a.counted);
        bounded = a.bounded;
        one_drain = a.one_drain;
      } in
      let (nil, shape, nothing, counted, bounded) =
        Source-Account (get_empty_part-Source f) wider in
      let shards = length-append r.shards ((get_empty_part f).1 ∷ []) in
      record {
        shape = omega arith;
        nothing = nothing;
        counted = omega arith;
        bounded = omega arith;
        one_drain = a.one_drain;
      }

  pub replace_part-Account :
      (r : Registry D) (n loaned : ℕ) {r' : Registry D}
      → replace_part r n ≡ done r'
      → RegistryAccount r loaned
      → RegistryAccount r' loaned
  replace_part-Account r n loaned h a =
      let (f, part) = get_empty_part r.fund in
      let (p, same) = replace_part-done r n h in
      let (nil, shape, nothing, counted, bounded) =
        Source-Account (get_empty_part-Source r.fund) a in
      let queue = get_or f.filled_parts n [] ++ get_or r.shards n [] ∷ [] in
      let more = total-set f.filled_parts n queue p in
      let longer = length-append (get_or f.filled_parts n []) (get_or r.shards n [] ∷ []) in
      let shards = length-set r.shards n part in
      let filled = length-set f.filled_parts n queue in
      subst (λ (s : Registry D). RegistryAccount s loaned) (sym same)
        (record {
          shape = omega arith;
          nothing = nothing;
          counted = omega arith;
          bounded = rw shards bounded;
          one_drain = a.one_drain;
        })

  pub renew_active_part-Account :
      (r : Registry D) (n loaned : ℕ) (predicate : Part D → Bool) {r' : Registry D} {renewed : Bool}
      → renew_active_part r n predicate ≡ done (r', renewed)
      → RegistryAccount r loaned
      → RegistryAccount r' loaned
  renew_active_part-Account r n loaned predicate h a =
      elim (renew_active_part-done r n predicate h) [
        | inl (no_need, kept, same) ↦
            subst (λ (s : Registry D). RegistryAccount s loaned) (sym same) a
        | inr (need, renewed, e) ↦ replace_part-Account r n loaned e a
      ]

  pub take_filled-Account :
      (r : Registry D) (n : ℕ) {r' : Registry D} {part : Part D}
      → take_filled r n ≡ done (r', some part)
      → RegistryAccount r 0
      → RegistryAccount r' 1
  take_filled-Account r n h a =
      let (rest, p, front, same) = take_filled-some r n h in
      let less = total-set r.fund.filled_parts n rest p in
      let long = ap length front in
      let filled = length-set r.fund.filled_parts n rest in
      subst (λ (s : Registry D). RegistryAccount s 1) (sym same)
        (record {
          shape = omega (arith, a.shape);
          nothing = a.nothing;
          counted = omega (arith, a.counted);
          bounded = a.bounded;
          one_drain = omega arith;
        })

  -- The part that a drain has given back, empty.
  give_back-Account :
      (r : Registry D)
      → RegistryAccount r 1
      → RegistryAccount (record r { fund = add_empty_part r.fund [] }) 0
  unfolding add_empty_part
  give_back-Account r a = record {
    shape = a.shape;
    nothing = (refl, a.nothing);
    counted = omega (arith, a.counted);
    bounded = a.bounded;
    one_drain = omega arith;
  }

  pop_part-Account :
      (r : Registry D) (d : Drain D) (n : ℕ) (part : Part D)
      → RegistryAccount r 1
      → let ((r', d'), dump) = pop_part r d n part in RegistryAccount r' (held d'.current)
  pop_part-Account r d n [] a = give_back-Account r a
  pop_part-Account r d n (dump ∷ []) a = give_back-Account r a
  pop_part-Account r d n (dump ∷ dump' ∷ part) a = a

  pub pop_current-Account :
      (r : Registry D) (d : Drain D) (current : Option (ℕ × Part D))
      → d.current ≡ current
      → RegistryAccount r (held current)
      → let ((r', d'), dump) = pop_current r d current in RegistryAccount r' (held d'.current)
  pop_current-Account r d none e a = rw e a
  pop_current-Account r d (some (n, part)) e a = pop_part-Account r d n part a

  pub give_up-Account :
      (r : Registry D) (current : Option (ℕ × Part D)) {r' : Registry D}
      → give_back r current ≡ done r'
      → RegistryAccount r (held current)
      → RegistryAccount r' 0
  give_up-Account r none h a = subst (λ (s : Registry D). RegistryAccount s 0) (done_injective h) a
  give_up-Account r (some (n, part)) h a =
      let (f, e, e') = >>=-eq-done (add_filled_part r.fund n part) _ h in
      let (p, same) = add_filled_part-done r.fund n part e in
      let queue = get_or r.fund.filled_parts n [] ++ part ∷ [] in
      let more = total-set r.fund.filled_parts n queue p in
      let longer = length-append (get_or r.fund.filled_parts n []) (part ∷ []) in
      let filled = length-set r.fund.filled_parts n queue in
      subst (λ (s : Registry D). RegistryAccount s 0)
        (ap (λ g. record r { fund = g }) (sym same) ∙ done_injective e')
        (record {
          shape = omega (arith, a.shape);
          nothing = a.nothing;
          counted = omega (arith, a.counted);
          bounded = a.bounded;
          one_drain = omega arith;
        })
