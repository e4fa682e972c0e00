-- ===== src/Dumper/DumpStorage/Kept.antt =====
-- elfo-dumper/src/dump_storage.rs: which dumps of a queue a fund keeps.
use mathlib.Core.List.Sublist
use mathlib.Core.List.{Sublist, sublist-append_right}
use elfo.Base.{
  ℕ, zero, suc, ◌≤◌, ◌≡◌, refl, sym, ap, subst, ◌∙◌, ◌≢◌, inl, inr, Bool, true, false, false≢true,
  not, ◌&&◌, ◌||◌, List, [], ◌∷◌, ◌++◌, append_assoc, arith, ltb, leb, ◌==◌, Bool-cases,
  Option-cases, set, get_or, get_or-set_self, get_or-set_ne,
}
use elfo.Dumper.DumpStorage.Fund.{
  Part, Fund, clear_most_filled, drop_empty, drop_filled, configure_fund, get_empty_part,
}
use elfo.Dumper.DumpStorage.Parts.{
  Cleared, clear_most_filled-some, Source, stacked, fresh, taken, get_empty_part-Source,
}

module _ {D : Type 0} where
  -- Some of the dumps in their order, and all of them where the test holds.
  pub record Kept (exact : Bool) (xs ys : List D) : Type 0 where
    pub within : Sublist xs ys
    pub same : exact ≡ true → xs ≡ ys

  pub Kept-refl : {exact : Bool} (xs : List D) → Kept exact xs xs
  Kept-refl xs = record { within = Sublist.refl xs; same = λ e. refl }

  pub Kept-eq : {exact : Bool} {xs ys : List D} → xs ≡ ys → Kept exact xs ys
  Kept-eq {exact = exact} {xs = xs} e = subst (λ zs. Kept exact xs zs) e (Kept-refl xs)

  pub Kept-trans :
      {first second : Bool} {xs ys zs : List D}
      → Kept first xs ys
      → Kept second ys zs
      → Kept (second && first) xs zs
  Kept-trans {first = first} {second = second} k l = record {
    within = Sublist.trans k.within l.within;
    same = λ e. k.same (ground arith) ∙ l.same (ground arith);
  }

  pub Kept-append :
      {exact : Bool} {xs xs' ys ys' : List D}
      → Kept exact xs xs'
      → Kept exact ys ys'
      → Kept exact (xs ++ ys) (xs' ++ ys')
  Kept-append k l = record {
    within = Sublist.append k.within l.within;
    same = λ e. cc (k.same e, l.same e);
  }

  -- The dumps of a queue.
  abbrev pub concat : List (Part D) → List D
  concat [] = []
  concat (p ∷ ps) = p ++ concat ps

  pub concat-append : (ps qs : List (Part D)) → concat (ps ++ qs) ≡ concat ps ++ concat qs
  concat-append [] qs = refl
  concat-append (p ∷ ps) qs =
      ap (λ t. p ++ t) (concat-append ps qs) ∙ sym (append_assoc p (concat ps) (concat qs))

  -- The dumps that wait in the queue of a shard.
  abbrev pub waiting : List (List (Part D)) → ℕ → List D
  waiting filled n = concat (get_or filled n [])

  abbrev is_nil : List (Part D) → Bool
  is_nil [] = true
  is_nil (p ∷ ps) = false

  -- Whether a part can be had without giving up dumps.
  abbrev pub has_room : Fund D → Bool
  has_room f = not (is_nil f.empty_parts) || ltb f.part_count f.max_part_count

  Cleared-Kept :
      {exact : Bool} {filled filled' : List (List (Part D))} {part : Part D}
      → Cleared filled part filled'
      → exact ≡ false
      → (n : ℕ) → Kept exact (waiting filled' n) (waiting filled n)
  Cleared-Kept {filled = filled} c e n = elim (Bool-cases (c.shard_no == n)) [
    | inl here ↦
        let at_n : c.shard_no ≡ n = ground arith in
        let now =
          ap (λ fs. waiting fs n) c.rest
          ∙ ap concat (
              ap (λ k. get_or (set filled c.shard_no c.others) k []) (sym at_n)
              ∙ get_or-set_self filled c.shard_no c.others [] c.in_range) in
        let before = ap (λ k. waiting filled k) (sym at_n) ∙ ap concat c.front in
        record {
          within =
              subst (λ xs. Sublist xs (waiting filled n)) (sym now)
                (subst (λ ys. Sublist (concat c.others) ys) (sym before)
                  (sublist-append_right c.oldest (concat c.others)));
          same = λ t. absurd (false≢true (sym e ∙ t));
        }
    | inr there ↦
        let away : c.shard_no ≢ n = λ q. ground arith in
        Kept-eq (
          ap (λ fs. waiting fs n) c.rest
          ∙ ap concat (get_or-set_ne filled c.shard_no n c.others [] away))
  ]

  Source-Kept :
      {f f' : Fund D} {part : Part D}
      → Source f f' part
      → (n : ℕ) → Kept (has_room f) (waiting f'.filled_parts n) (waiting f.filled_parts n)
  Source-Kept (stacked part ps e) n = Kept-refl _
  Source-Kept (fresh e room) n = Kept-refl _
  Source-Kept {f = f} (taken e full c) n =
      let none_left : is_nil f.empty_parts ≡ true = rw e refl in
      let no_room : ltb f.part_count f.max_part_count ≡ false = ground arith in
      Cleared-Kept c (rw (none_left, no_room) refl) n

  pub get_empty_part-Kept :
      (f : Fund D) (n : ℕ)
      → Kept (has_room f) (waiting (get_empty_part f).0.filled_parts n) (waiting f.filled_parts n)
  get_empty_part-Kept f n = Source-Kept (get_empty_part-Source f) n

  drop_filled-Kept :
      (max_count count : ℕ) (filled : List (List (Part D))) (n : ℕ)
      → Kept
          (leb count max_count)
          (waiting (drop_filled max_count count filled).1 n)
          (waiting filled n)
  unfolding drop_filled
  drop_filled-Kept max_count zero filled n = Kept-refl _
  drop_filled-Kept max_count (suc count) filled n = elim (Bool-cases (ltb max_count (suc count))) [
    | inr less ↦ rw less (Kept-refl _)
    | inl more ↦ elim (Option-cases (clear_most_filled filled)) [
      | inl e ↦ rw (more, e) (Kept-refl _)
      | inr ((part, filled'), e) ↦
          let over : leb (suc count) max_count ≡ false = ground arith in
          let one = Cleared-Kept (clear_most_filled-some filled e) over n in
          let rest = drop_filled-Kept max_count count filled' n in
          rw (more, e)
            (record {
              within = Sublist.trans rest.within one.within;
              same = λ t. absurd (false≢true (sym over ∙ t));
            })
    ]
  ]

  drop_empty-le :
      (max_count count : ℕ) (ps : List (Part D))
      → count ≤ max_count
      → (drop_empty max_count count ps).0 ≡ count
  unfolding drop_empty
  drop_empty-le max_count count [] h = refl
  drop_empty-le max_count count (p ∷ ps) h =
      let less : ltb max_count count ≡ false = ground arith in rw less refl

  pub configure_fund-Kept :
      (f : Fund D) (max_count n : ℕ)
      → Kept
          (leb f.part_count max_count)
          (waiting (configure_fund f max_count).filled_parts n)
          (waiting f.filled_parts n)
  unfolding configure_fund
  configure_fund-Kept f max_count n =
      let left = (drop_empty max_count f.part_count f.empty_parts).0 in
      let k = drop_filled-Kept max_count left f.filled_parts n in
      record {
        within = k.within;
        same = λ e.
            let fits = drop_empty-le max_count f.part_count f.empty_parts (ground arith) in
            k.same (rw fits e);
      }
