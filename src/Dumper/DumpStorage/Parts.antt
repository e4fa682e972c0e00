-- ===== src/Dumper/DumpStorage/Parts.antt =====
-- elfo-dumper/src/dump_storage.rs: the number of the parts of a fund under its operations.
use elfo.Base.{
  ℕ, zero, suc, ◌+◌, ◌≤◌, ◌<◌, ◌≡◌, refl, ap, subst, ◌∙◌, ◌⊎◌, inl, inr, false, Option, none, some,
  List, [], ◌∷◌, ◌++◌, arith, ltb, leb, if◌then◌else◌, Bool-cases, Option-cases, length, set,
  length-set, get_or,
}
use elfo.Dumper.DumpStorage.Fund.{
  Part, Fund, most_filled, clear_front, clear_most_filled, get_part, get_empty_part,
}

le_of_not_ltb : (a b : ℕ) → ltb a b ≡ false → b ≤ a
le_of_not_ltb a b h = ground arith

module _ {D : Type 0} where
  -- The parts in all queues together.
  abbrev pub total : List (List (Part D)) → ℕ
  total [] = 0
  total (q ∷ qs) = length q + total qs

  abbrev pub AllNil : List (Part D) → Type 0
  AllNil [] = Unit {0}
  AllNil (p ∷ ps) = (p ≡ []) × AllNil ps

  pub total-set :
      (qs : List (List (Part D))) (i : ℕ) (q : List (Part D))
      → i < length qs
      → total (set qs i q) + length (get_or qs i []) ≡ total qs + length q
  total-set [] i q h = elim h [ ]
  total-set (p ∷ qs) zero q h = omega arith
  total-set (p ∷ qs) (suc i) q h = omega (arith, total-set qs i q (omega arith))

  pub total-append : (qs rs : List (List (Part D))) → total (qs ++ rs) ≡ total qs + total rs
  total-append [] rs = omega arith
  total-append (q ∷ qs) rs = omega (arith, total-append qs rs)

  pub most_filled-none : (qs : List (List (Part D))) → most_filled qs ≡ none → qs ≡ []
  unfolding most_filled
  most_filled-none [] h = refl
  most_filled-none (q ∷ qs) h = elim (Option-cases (most_filled qs)) [
    | inl e ↦ ground arith
    | inr (i, e) ↦ ground arith
  ]

  -- The most filled queue is one of them, and when it is empty all are.
  most_filled-step :
      (q : List (Part D)) (qs : List (List (Part D))) (j i : ℕ)
      → (if ltb (length (get_or qs j [])) (length q) then some 0 else some (suc j)) ≡ some i
      → j < length qs
      → (length (get_or qs j []) ≡ 0 → total qs ≡ 0)
      → (i < length (q ∷ qs)) × (length (get_or (q ∷ qs) i []) ≡ 0 → total (q ∷ qs) ≡ 0)
  most_filled-step q qs j zero h p all =
      elim (Bool-cases (ltb (length (get_or qs j [])) (length q))) [
        | inl more ↦ (omega arith, λ e. ground arith)
        | inr less ↦ absurd (ground arith)
      ]
  most_filled-step q qs j (suc i) h p all =
      elim (Bool-cases (ltb (length (get_or qs j [])) (length q))) [
        | inl more ↦ absurd (ground arith)
        | inr less ↦
            let same : j ≡ i = ground arith in
            let same' = ap (λ (k : ℕ). length (get_or qs k [])) same in
            (omega arith, λ e. omega (arith, all (omega arith), le_of_not_ltb _ _ less))
      ]

  most_filled-only :
      (q : List (Part D)) (qs : List (List (Part D))) (i : ℕ)
      → ◌≡◌ {A = Option ℕ} (some 0) (some i)
      → qs ≡ []
      → (i < length (q ∷ qs)) × (length (get_or (q ∷ qs) i []) ≡ 0 → total (q ∷ qs) ≡ 0)
  most_filled-only q [] zero h e = (omega arith, λ z. omega arith)
  most_filled-only q [] (suc i) h e = absurd (ground arith)
  most_filled-only q (q' ∷ qs) i h e = cc

  pub most_filled-some :
      (qs : List (List (Part D))) (i : ℕ)
      → most_filled qs ≡ some i
      → (i < length qs) × (length (get_or qs i []) ≡ 0 → total qs ≡ 0)
  unfolding most_filled
  most_filled-some [] i h = cc
  most_filled-some (q ∷ qs) i h = elim (Option-cases (most_filled qs)) [
    | inl e ↦ most_filled-only q qs i (rw e at h) (most_filled-none qs e)
    | inr (j, e) ↦
        let (p, all) = most_filled-some qs j e in most_filled-step q qs j i (rw e at h) p all
  ]

  -- What is cleared is the oldest part of a queue; there is none to clear when all are empty.
  pub record Cleared (filled : List (List (Part D))) (part : Part D)
      (filled' : List (List (Part D))) : Type 0 where
    pub shard_no : ℕ
    pub oldest : Part D
    pub others : List (Part D)
    pub in_range : shard_no < length filled
    pub front : get_or filled shard_no [] ≡ oldest ∷ others
    pub rest : filled' ≡ set filled shard_no others
    pub cleared : part ≡ []

  clear_front-Cleared :
      (filled : List (List (Part D))) (i : ℕ) (q : List (Part D)) {part : Part D}
      {filled' : List (List (Part D))}
      → i < length filled
      → get_or filled i [] ≡ q
      → clear_front filled i q ≡ some (part, filled')
      → Cleared filled part filled'
  clear_front-Cleared filled i [] p e h = cc
  clear_front-Cleared filled i (oldest ∷ others) p e h = record {
    shard_no = i;
    oldest = oldest;
    others = others;
    in_range = p;
    front = e;
    rest = cc;
    cleared = cc;
  }

  pub clear_most_filled-some :
      (filled : List (List (Part D))) {part : Part D} {filled' : List (List (Part D))}
      → clear_most_filled filled ≡ some (part, filled')
      → Cleared filled part filled'
  unfolding clear_most_filled
  clear_most_filled-some filled h = elim (Option-cases (most_filled filled)) [
    | inl e ↦ ground arith
    | inr (i, e) ↦
        let (p, all) = most_filled-some filled i e in
        clear_front-Cleared filled i (get_or filled i []) p refl (rw e at h)
  ]

  clear_front-none :
      (filled : List (List (Part D))) (i : ℕ) (q : List (Part D))
      → clear_front filled i q ≡ none
      → length q ≡ 0
  clear_front-none filled i [] h = refl
  clear_front-none filled i (p ∷ q) h = cc

  pub clear_most_filled-none :
      (filled : List (List (Part D))) → clear_most_filled filled ≡ none → total filled ≡ 0
  unfolding clear_most_filled
  clear_most_filled-none filled h = elim (Option-cases (most_filled filled)) [
    | inl e ↦ ap total (most_filled-none filled e)
    | inr (i, e) ↦
        let (p, all) = most_filled-some filled i e in
        all (clear_front-none filled i (get_or filled i []) (rw e at h))
  ]

  pub Cleared-total :
      {filled filled' : List (List (Part D))} {part : Part D}
      → Cleared filled part filled'
      → (total filled' + 1 ≡ total filled) × (length filled' ≡ length filled)
  Cleared-total {filled = filled} c =
      let one = total-set filled c.shard_no c.others c.in_range in
      let long = ap length c.front in
      let same = ap total c.rest in
      (omega arith, ap length c.rest ∙ length-set filled c.shard_no c.others)

  -- Where an empty part comes from.
  pub data Source (f : Fund D) : Fund D → Part D → Type 0 where
    stacked :
        (part : Part D) (ps : List (Part D))
        → f.empty_parts ≡ part ∷ ps
        → Source f (record f { empty_parts = ps }) part
    fresh :
        f.empty_parts ≡ []
        → (f.part_count < f.max_part_count) ⊎ (total f.filled_parts ≡ 0)
        → Source f (record f { part_count = f.part_count + 1 }) []
    taken :
        {part : Part D} {filled : List (List (Part D))}
        → f.empty_parts ≡ []
        → f.max_part_count ≤ f.part_count
        → Cleared f.filled_parts part filled
        → Source f (record f { filled_parts = filled }) part

  get_part-Source :
      (f : Fund D) (ps : List (Part D))
      → f.empty_parts ≡ ps
      → Source f (get_part f ps).0 (get_part f ps).1
  get_part-Source f (part ∷ ps) e = stacked part ps e
  get_part-Source f [] e = elim (Bool-cases (leb f.max_part_count f.part_count)) [
    | inr less ↦ rw less (fresh e (inl (ground arith)))
    | inl full ↦ elim (Option-cases (clear_most_filled f.filled_parts)) [
      | inl no_part ↦
          rw (full, no_part) (fresh e (inr (clear_most_filled-none f.filled_parts no_part)))
      | inr ((part, filled), some_part) ↦
          rw (full, some_part)
            (taken e (ground arith) (clear_most_filled-some f.filled_parts some_part))
    ]
  ]

  pub get_empty_part-Source : (f : Fund D) → Source f (get_empty_part f).0 (get_empty_part f).1
  unfolding get_empty_part
  get_empty_part-Source f = get_part-Source f f.empty_parts refl

  pub Source-nil :
      {f f' : Fund D} {part : Part D} → Source f f' part → AllNil f.empty_parts → part ≡ []
  Source-nil (stacked part ps e) nils =
      let nils' : AllNil (part ∷ ps) = subst AllNil e nils in nils'.0
  Source-nil (fresh e room) nils = refl
  Source-nil (taken e full c) nils = c.cleared

  pub Source-length :
      {f f' : Fund D} {part : Part D}
      → Source f f' part
      → length f'.filled_parts ≡ length f.filled_parts
  Source-length (stacked part ps e) = refl
  Source-length (fresh e room) = refl
  Source-length (taken e full c) = (Cleared-total c).1
