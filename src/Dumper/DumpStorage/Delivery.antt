-- ===== src/Dumper/DumpStorage/Delivery.antt =====
-- elfo-dumper/src/dump_storage.rs: the order of the dumps of a thread in any interleaving.
use elfo.Dumper.DumpStorage.Limits.{Inv-Reach}
use mathlib.Core.List.{Sublist}
use elfo.Base.{
  ℕ, ◌≡◌, refl, sym, ap, subst, ◌∙◌, inl, inr, Bool, true, false, not, ◌&&◌, Option, none, some,
  List, [], ◌∷◌, ◌++◌, append_assoc, arith, leb, get_or, done, done_injective,
}
use elfo.Dumper.DumpStorage.Fund.{Part, new_fund, is_empty, is_full}
use elfo.Dumper.DumpStorage.Registry.{Registry, new_registry, configure_registry, renew_active_part}
use elfo.Dumper.DumpStorage.Drain.{new_drain, pop_current, give_back, drop_drain}
use elfo.Dumper.DumpStorage.Changes.{renew_active_part-done}
use elfo.Dumper.DumpStorage.Kept.{
  Kept, Kept-refl, Kept-eq, Kept-trans, Kept-append, has_room, configure_fund-Kept,
}
use elfo.Dumper.DumpStorage.Steps.{
  update, is_none, World, Step, joins, pushes, renews, takes, refreshes, pops, drains, configures,
  start, Reach, here, next,
}
use elfo.Dumper.DumpStorage.Accounts.{held, RegistryAccount, Inv}
use elfo.Dumper.DumpStorage.Order.{
  only_at, update-only_at, cc_append, of_drain, in_registry, make_shard-Kept, replace_part-Kept,
  push-adds, take_filled-moves, pop_part-moves,
}

module _ {D : Type 0} where
  -- The dumps of a shard on their way to the writer, the oldest first.
  abbrev pub on_the_way : World D → ℕ → List D
  on_the_way w k = of_drain (w.drain).current k ++ in_registry w.registry k

  abbrev Ordered : World D → Type 0
  Ordered w = w.whole ≡ true → (k : ℕ) → Kept w.spared (w.drained k ++ on_the_way w k) (w.added k)

  -- A change of the registry alone that keeps some of its dumps.
  changed-Ordered :
      (w : World D) (exact : Bool) (r : Registry D) (renewing : ℕ → Bool)
      → ((k : ℕ) → Kept exact (in_registry r k) (in_registry w.registry k))
      → Ordered w
      → Ordered (record w { registry = r; renewing = renewing; spared = w.spared && exact })
  changed-Ordered w exact r renewing keeps o = λ whole k.
      Kept-trans
        (Kept-append (Kept-refl (w.drained k))
          (Kept-append (Kept-refl (of_drain (w.drain).current k)) (keeps k)))
        (o whole k)

  renewed-Kept :
      (r : Registry D) (n loaned k : ℕ) (predicate : Part D → Bool) {r' : Registry D}
      {renewed : Bool}
      → RegistryAccount r loaned
      → renew_active_part r n predicate ≡ done (r', renewed)
      → Kept (has_room r.fund) (in_registry r' k) (in_registry r k)
  renewed-Kept r n loaned k predicate a h = elim (renew_active_part-done r n predicate h) [
    | inl (no_need, kept, same) ↦ Kept-eq (ap (λ s. in_registry s k) same)
    | inr (need, renewed, e) ↦ replace_part-Kept r n k loaned a e
  ]

  regroup : (ws xs ys zs : List D) → (ws ++ xs) ++ (ys ++ zs) ≡ ws ++ ((xs ++ ys) ++ zs)
  regroup ws xs ys zs =
      append_assoc ws xs (ys ++ zs) ∙ ap (λ t. ws ++ t) (sym (append_assoc xs ys zs))

  at_the_end : (ws xs ys zs : List D) → (ws ++ (xs ++ ys)) ++ zs ≡ ws ++ (xs ++ (ys ++ zs))
  at_the_end ws xs ys zs = append_assoc ws (xs ++ ys) zs ∙ ap (λ t. ws ++ t) (append_assoc xs ys zs)

  -- What a drain without a part leaves when it is dropped.
  given_back :
      (r : Registry D) (current : Option (ℕ × Part D)) (k : ℕ) {r' : Registry D}
      → is_none current ≡ true
      → give_back r current ≡ done r'
      → of_drain current k ++ in_registry r k ≡ in_registry r' k
  given_back r none k e h = ap (λ s. in_registry s k) (done_injective h)
  given_back r (some (n, part)) k e h = cc

  Ordered-Step : {w w' : World D} → Step w w' → Inv w → Ordered w → Ordered w'
  unfolding configure_registry new_drain drop_drain
  Ordered-Step {w = w} (joins {r = r} h) i o =
      changed-Ordered w (has_room (w.registry).fund) r w.renewing
        (λ k.
          subst
            (λ (s : Registry D).
              Kept (has_room (w.registry).fund) (in_registry s k) (in_registry w.registry k))
            (ap (λ t. t.0) h) (make_shard-Kept w.registry k (held (w.drain).current) i))
        o
  Ordered-Step {w = w} (pushes n dump p idle) i o = λ whole k.
      let adds = push-adds w.registry n k dump p in
      let way = of_drain (w.drain).current k in
      let regrouped =
        at_the_end (w.drained k) way (in_registry w.registry k) (only_at n (dump ∷ []) k)
        ∙ ap (λ t. w.drained k ++ (way ++ t)) (sym adds) in
      let more = update-only_at w.added n k (dump ∷ []) in
      subst (λ xs. Kept w.spared xs (update w.added n (w.added n ++ dump ∷ []) k)) regrouped
        (subst (λ ys. Kept w.spared ((w.drained k ++ on_the_way w k) ++ only_at n (dump ∷ []) k) ys)
          (sym more) (Kept-append (o whole k) (Kept-refl (only_at n (dump ∷ []) k))))
  Ordered-Step {w = w} (renews n {r = r} p h) i o =
      changed-Ordered w (has_room (w.registry).fund) r (update w.renewing n false)
        (λ k. renewed-Kept w.registry n (held (w.drain).current) k is_full i h) o
  Ordered-Step {w = w} (takes n rest {r = r} {part = part} e h) i o = λ whole k.
      let moved = take_filled-moves w.registry n k h in
      let before : on_the_way w k ≡ in_registry w.registry k =
        ap (λ c. of_drain c k ++ in_registry w.registry k) e in
      subst (λ xs. Kept w.spared (w.drained k ++ xs) (w.added k)) (before ∙ sym moved) (o whole k)
  Ordered-Step {w = w} (refreshes n {r = r} h) i o =
      changed-Ordered w (has_room (w.registry).fund) r w.renewing
        (λ k.
          renewed-Kept w.registry n (held (w.drain).current) k (λ part. not (is_empty part)) i h)
        o
  Ordered-Step {w = w} (pops n part {r = r} {d = d} {dump = dump} e h) i o = λ whole k.
      let popped = ap (pop_current w.registry w.drain) (sym e) ∙ h in
      let (front, kept) = pop_part-moves w.registry w.drain n k part dump popped refl in
      let more = update-only_at w.drained n k (dump ∷ []) in
      let before =
        ap (λ c. of_drain c k ++ in_registry w.registry k) e
        ∙ ap (λ t. t ++ in_registry w.registry k) front in
      let after = ap (λ t. of_drain d.current k ++ t) kept in
      let same =
        ap (λ t. w.drained k ++ t) before
        ∙ sym (
            cc_append more after
            ∙ regroup (w.drained k) (only_at n (dump ∷ []) k) (of_drain d.current k)
                (in_registry w.registry k)) in
      subst (λ xs. Kept w.spared xs (w.added k)) same (o whole k)
  Ordered-Step {w = w} (drains now timeout h) i o = λ whole k.
      let was_whole : w.whole ≡ true = ground arith in
      let idle : is_none (w.drain).current ≡ true = ground arith in
      subst (λ xs. Kept w.spared (w.drained k ++ xs) (w.added k))
        (given_back w.registry (w.drain).current k idle h) (o was_whole k)
  Ordered-Step {w = w} (configures m) i o =
      changed-Ordered w (leb (w.registry).fund.part_count m) (configure_registry w.registry m)
        w.renewing
        (λ k.
          Kept-append (configure_fund-Kept (w.registry).fund m k)
            (Kept-refl (get_or (w.registry).shards k [])))
        o

  Ordered-Reach : {m : ℕ} {w : World D} → Reach m w → Ordered w
  unfolding start new_registry new_fund new_drain
  Ordered-Reach here = λ whole k. Kept-refl []
  Ordered-Reach (next r s) = Ordered-Step s (Inv-Reach r) (Ordered-Reach r)

  -- In any interleaving of threads that add dumps, of configurations and of drains, what was drained
  -- from the shard of a thread, with what is still on its way, is a part of what the thread has
  -- added, in the same order. It is all of it as long as a part was wanted only while there was an
  -- empty one or room for another, and a configuration came only while there were no more parts than
  -- its new limit. No drain may be dropped with a part that it has not used up, and a search of a
  -- drain for its next part is one step.
  pub drained_in_order :
      (m : ℕ) (w : World D) (k : ℕ)
      → Reach m w
      → w.whole ≡ true
      → Sublist (w.drained k ++ on_the_way w k) (w.added k)
        × (w.spared ≡ true → w.drained k ++ on_the_way w k ≡ w.added k)
  drained_in_order m w k r whole = let kept = Ordered-Reach r whole k in (kept.within, kept.same)
