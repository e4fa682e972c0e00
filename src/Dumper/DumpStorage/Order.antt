-- ===== src/Dumper/DumpStorage/Order.antt =====
-- elfo-dumper/src/dump_storage.rs: the dumps of a shard under each operation.
use elfo.Base.{
  ℕ, ◌<◌, ◌≡◌, refl, sym, ap, subst, ◌∙◌, ◌≢◌, inl, inr, Bool, Option, none, some, List, [], ◌∷◌,
  ◌++◌, append-nil, append_assoc, arith, ◌==◌, if◌then◌else◌, Bool-cases, length, set, get_or,
  get_or-set_self, get_or-set_ne, get_or-append_default, done,
}
use elfo.Dumper.DumpStorage.Fund.{Part, add_shard, add_empty_part, get_empty_part}
use elfo.Dumper.DumpStorage.Registry.{Registry, make_shard, push, replace_part}
use elfo.Dumper.DumpStorage.Drain.{Drain, take_filled, pop_part}
use elfo.Dumper.DumpStorage.Parts.{get_empty_part-Source, Source-nil, Source-length}
use elfo.Dumper.DumpStorage.Changes.{replace_part-done, take_filled-some}
use elfo.Dumper.DumpStorage.Kept.{
  Kept, Kept-refl, Kept-eq, Kept-append, concat, concat-append, waiting, has_room,
  get_empty_part-Kept,
}
use elfo.Dumper.DumpStorage.Steps.{update}
use elfo.Dumper.DumpStorage.Accounts.{RegistryAccount}

-- What the update of a function by a longer list adds to its values.
abbrev pub only_at {ℓ} : {A : Type ℓ} → ℕ → List A → ℕ → List A
only_at n xs k = if n == k then xs else []

pub update-only_at :
    {A : Type 0} (f : ℕ → List A) (n k : ℕ) (xs : List A)
    → update f n (f n ++ xs) k ≡ f k ++ only_at n xs k
update-only_at f n k xs = elim (Bool-cases (n == k)) [
  | inl e ↦ rw e (let same : n ≡ k = ground arith in ap (λ j. f j ++ xs) same)
  | inr e ↦ rw e (sym (append-nil (f k)))
]

only_at-cons :
    {A : Type 0} (n k : ℕ) (x : A) (xs : List A)
    → only_at n (x ∷ xs) k ≡ only_at n (x ∷ []) k ++ only_at n xs k
only_at-cons n k x xs = elim (Bool-cases (n == k)) [ inl e ↦ rw e refl | inr e ↦ rw e refl ]

pub cc_append : {A : Type 0} {xs xs' ys ys' : List A} → xs ≡ xs' → ys ≡ ys' → xs ++ ys ≡ xs' ++ ys'
cc_append e e' = cc

ends_nil : {A : Type 0} (xs ys : List A) → xs ++ ys ≡ (xs ++ (ys ++ [])) ++ []
ends_nil xs ys = cc (append-nil ys, append-nil (xs ++ (ys ++ [])))

module _ {D : Type 0} where
  -- The dumps of a shard that a drain has, and those in a registry.
  abbrev pub of_drain : Option (ℕ × Part D) → ℕ → List D
  of_drain none k = []
  of_drain (some (n, part)) k = only_at n part k

  abbrev pub in_registry : Registry D → ℕ → List D
  in_registry r k = waiting r.fund.filled_parts k ++ get_or r.shards k []

  -- What a change of the queues and of the active parts does to the dumps of a shard.
  in_registry-Kept :
      {exact : Bool} (r r' : Registry D) (k : ℕ) {queued active : List D}
      → waiting r'.fund.filled_parts k ++ get_or r'.shards k [] ≡ queued ++ active
      → Kept exact queued (waiting r.fund.filled_parts k)
      → active ≡ get_or r.shards k []
      → Kept exact (in_registry r' k) (in_registry r k)
  in_registry-Kept {exact = exact} r r' k e q same =
      subst (λ xs. Kept exact xs (in_registry r k)) (sym e) (Kept-append q (Kept-eq same))

  pub make_shard-Kept :
      (r : Registry D) (k loaned : ℕ)
      → RegistryAccount r loaned
      → Kept (has_room r.fund) (in_registry (make_shard r).0 k) (in_registry r k)
  unfolding make_shard add_shard
  make_shard-Kept r k loaned a =
      let f = (add_shard r.fund).0 in
      let nil = (get_empty_part f).1 in
      let empty = Source-nil (get_empty_part-Source f) a.nothing in
      let wider = ap concat (get_or-append_default r.fund.filled_parts k []) in
      let queued = (get_empty_part-Kept f k) in
      in_registry-Kept r (make_shard r).0 k refl
        (subst (λ ys. Kept (has_room r.fund) (waiting (get_empty_part f).0.filled_parts k) ys) wider
          queued)
        (ap (λ p. get_or (r.shards ++ p ∷ []) k []) empty ∙ get_or-append_default r.shards k [])

  pub replace_part-Kept :
      (r : Registry D) (n k loaned : ℕ) {r' : Registry D}
      → RegistryAccount r loaned
      → replace_part r n ≡ done r'
      → Kept (has_room r.fund) (in_registry r' k) (in_registry r k)
  replace_part-Kept r n k loaned a h =
      let (f, part) = get_empty_part r.fund in
      let active = get_or r.shards n [] in
      let queue = get_or f.filled_parts n [] ++ active ∷ [] in
      let (p, same) = replace_part-done r n h in
      let empty = Source-nil (get_empty_part-Source r.fund) a.nothing in
      let as_long = Source-length (get_empty_part-Source r.fund) in
      let q : n < length r.shards = omega (arith, a.shape) in
      subst (λ s. Kept (has_room r.fund) (in_registry s k) (in_registry r k)) (sym same)
        (elim (Bool-cases (n == k)) [
          | inl at_it ↦
              let at_k : n ≡ k = ground arith in
              let now = get_or-set_self f.filled_parts n queue [] p in
              let fresh_part = get_or-set_self r.shards n part [] q ∙ empty in
              let joined = concat-append (get_or f.filled_parts n []) (active ∷ []) in
              subst
                (λ j.
                  Kept (has_room r.fund)
                    (concat (get_or (set f.filled_parts n queue) j [])
                      ++ get_or (set r.shards n part) j [])
                    (in_registry r j))
                at_k
                (subst (λ xs. Kept (has_room r.fund) xs (in_registry r n))
                  (sym (cc_append (ap concat now ∙ joined) fresh_part))
                  (subst (λ xs. Kept (has_room r.fund) xs (in_registry r n))
                    (ends_nil (waiting f.filled_parts n) active)
                    (Kept-append (get_empty_part-Kept r.fund n) (Kept-refl active))))
          | inr other ↦
              let away : n ≢ k = λ e. ground arith in
              let queued = ap concat (get_or-set_ne f.filled_parts n k queue [] away) in
              let kept = get_or-set_ne r.shards n k part [] away in
              subst (λ xs. Kept (has_room r.fund) xs (in_registry r k))
                (sym (cc_append queued kept))
                (Kept-append (get_empty_part-Kept r.fund k) (Kept-refl (get_or r.shards k [])))
        ])

  pub push-adds :
      (r : Registry D) (n k : ℕ) (dump : D)
      → n < length r.shards
      → in_registry (push r n dump) k ≡ in_registry r k ++ only_at n (dump ∷ []) k
  unfolding push
  push-adds r n k dump p = elim (Bool-cases (n == k)) [
    | inl at_it ↦
        let same : n ≡ k = ground arith in
        let now = get_or-set_self r.shards n (get_or r.shards n [] ++ dump ∷ []) [] p in
        rw at_it (
          subst
            (λ j.
              waiting r.fund.filled_parts j
                ++ get_or (set r.shards n (get_or r.shards n [] ++ dump ∷ [])) j []
              ≡ (waiting r.fund.filled_parts j ++ get_or r.shards j []) ++ dump ∷ [])
            same
            (ap (λ t. waiting r.fund.filled_parts n ++ t) now
              ∙ sym (
                  append_assoc (waiting r.fund.filled_parts n) (get_or r.shards n []) (dump ∷ []))))
    | inr other ↦
        let away : n ≢ k = λ q. ground arith in
        rw other (
          ap (λ t. waiting r.fund.filled_parts k ++ t)
            (get_or-set_ne r.shards n k (get_or r.shards n [] ++ dump ∷ []) [] away)
          ∙ sym (append-nil (in_registry r k)))
  ]

  pub take_filled-moves :
      (r : Registry D) (n k : ℕ) {r' : Registry D} {part : Part D}
      → take_filled r n ≡ done (r', some part)
      → only_at n part k ++ in_registry r' k ≡ in_registry r k
  take_filled-moves r n k {part = part} h =
      let (rest, p, front, same) = take_filled-some r n h in
      subst (λ (s : Registry D). only_at n part k ++ in_registry s k ≡ in_registry r k) (sym same)
        (elim (Bool-cases (n == k)) [
          | inl at_it ↦
              let at_k : n ≡ k = ground arith in
              let now = ap concat (get_or-set_self r.fund.filled_parts n rest [] p) in
              let before = ap concat front in
              rw at_it (
                subst
                  (λ j.
                    part ++ (waiting (set r.fund.filled_parts n rest) j ++ get_or r.shards j [])
                    ≡ in_registry r j)
                  at_k
                  (sym (
                      append_assoc part (waiting (set r.fund.filled_parts n rest) n)
                        (get_or r.shards n []))
                    ∙ ap (λ t. (part ++ t) ++ get_or r.shards n []) now
                    ∙ ap (λ t. t ++ get_or r.shards n []) (sym before)))
          | inr other ↦
              let away : n ≢ k = λ q. ground arith in
              rw other (
                ap (λ t. concat t ++ get_or r.shards k [])
                  (get_or-set_ne r.fund.filled_parts n k rest [] away))
        ])

  -- The first dump of the part of a drain leaves it.
  pub pop_part-moves :
      (r : Registry D) (d : Drain D) (n k : ℕ) (part : Part D) (dump : D)
      {t : (Registry D × Drain D) × Option D}
      → pop_part r d n part ≡ t
      → t.1 ≡ some dump
      → (only_at n part k ≡ only_at n (dump ∷ []) k ++ of_drain t.0.1.current k)
        × (in_registry t.0.0 k ≡ in_registry r k)
  unfolding add_empty_part
  pop_part-moves r d n k [] dump h e = cc
  pop_part-moves r d n k (x ∷ []) dump h e =
      let same : x ≡ dump = cc in
      subst
        (λ t.
          (only_at n (x ∷ []) k ≡ only_at n (dump ∷ []) k ++ of_drain t.0.1.current k)
          × (in_registry t.0.0 k ≡ in_registry r k))
        h (ap (λ y. only_at n (y ∷ []) k) same ∙ sym (append-nil (only_at n (dump ∷ []) k)), refl)
  pop_part-moves r d n k (x ∷ y ∷ part) dump h e =
      let same : x ≡ dump = cc in
      subst
        (λ t.
          (only_at n (x ∷ y ∷ part) k ≡ only_at n (dump ∷ []) k ++ of_drain t.0.1.current k)
          × (in_registry t.0.0 k ≡ in_registry r k))
        h (ap (λ z. only_at n (z ∷ y ∷ part) k) same ∙ only_at-cons n k dump (y ∷ part), refl)
