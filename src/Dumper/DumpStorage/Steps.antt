-- ===== src/Dumper/DumpStorage/Steps.antt =====
-- elfo-dumper/src/dump_storage.rs: the critical sections of threads that add dumps, of a storage
-- that is configured and of one drain at a time, in any interleaving. A thread whose part is full
-- renews it before it adds another dump. Looking into an empty queue changes nothing and is left
-- out.
use elfo.Base.{
  ℕ, ◌<◌, ◌≡◌, Bool, true, false, not, ◌&&◌, Option, none, some, List, [], ◌∷◌, ◌++◌, leb, ◌==◌,
  if◌then◌else◌, length, get_or, done,
}
use elfo.Dumper.DumpStorage.Fund.{Part, is_empty, is_full}
use elfo.Dumper.DumpStorage.Registry.{
  Registry, new_registry, configure_registry, make_shard, push, renew_active_part,
}
use elfo.Dumper.DumpStorage.Drain.{Drain, new_drain, take_filled, pop_current, drop_drain}
use elfo.Dumper.DumpStorage.Kept.{has_room}

abbrev pub update : {A : Type 0} → (ℕ → A) → ℕ → A → ℕ → A
update f n a k = if n == k then a else f k

abbrev pub is_none : {A : Type 0} → Option A → Bool
is_none none = true
is_none (some a) = false

-- `renewing` are the threads between an addition that fills their part and its renewal. What a
-- thread has added and what was drained from its shard is kept in order. `spared` says that a part
-- was wanted only while there was an empty one or room for another and that each configuration
-- allowed as many parts as there were, and `whole` that no drain was dropped with a part.
pub record World (D : Type 0) : Type 0 where
  pub registry : Registry D
  pub drain : Drain D
  pub renewing : ℕ → Bool
  pub added : ℕ → List D
  pub drained : ℕ → List D
  pub spared : Bool
  pub whole : Bool

module _ {D : Type 0} where
  pub data Step (w : World D) : World D → Type 0 where
    joins :
        {r : Registry D} {n : ℕ}
        → make_shard w.registry ≡ (r, n)
        → Step w (record w { registry = r; spared = w.spared && has_room (w.registry).fund })
    pushes :
        (n : ℕ) (dump : D)
        → n < length (w.registry).shards
        → w.renewing n ≡ false
        → Step w (record w {
          registry = push w.registry n dump;
          renewing = update w.renewing n (is_full (get_or (push w.registry n dump).shards n []));
          added = update w.added n (w.added n ++ dump ∷ []);
        })
    renews :
        (n : ℕ) {r : Registry D} {renewed : Bool}
        → w.renewing n ≡ true
        → renew_active_part w.registry n is_full ≡ done (r, renewed)
        → Step w (record w {
          registry = r;
          renewing = update w.renewing n false;
          spared = w.spared && has_room (w.registry).fund;
        })
    takes :
        (n : ℕ) (rest : List ℕ) {r : Registry D} {part : Part D}
        → (w.drain).current ≡ none
        → take_filled w.registry n ≡ done (r, some part)
        → Step w (record w {
          registry = r;
          drain = record (w.drain) { shard_iter = rest; current = some (n, part) };
        })
    refreshes :
        (n : ℕ) {r : Registry D} {renewed : Bool}
        → renew_active_part w.registry n (λ part. not (is_empty part)) ≡ done (r, renewed)
        → Step w (record w { registry = r; spared = w.spared && has_room (w.registry).fund })
    pops :
        (n : ℕ) (part : Part D) {r : Registry D} {d : Drain D} {dump : D}
        → (w.drain).current ≡ some (n, part)
        → pop_current w.registry w.drain (w.drain).current ≡ ((r, d), some dump)
        → Step w (record w {
          registry = r;
          drain = d;
          drained = update w.drained n (w.drained n ++ dump ∷ []);
        })
    drains :
        (now timeout : ℕ) {r : Registry D}
        → drop_drain w.registry w.drain ≡ done r
        → Step w (record w {
          registry = r;
          drain = new_drain r now timeout;
          whole = w.whole && is_none (w.drain).current;
        })
    configures :
        (max_part_count : ℕ)
        → Step w (record w {
          registry = configure_registry w.registry max_part_count;
          spared = w.spared && leb (w.registry).fund.part_count max_part_count;
        })

  unfoldable pub start : ℕ → World D
  unfolding new_registry new_drain
  start max_part_count = record {
    registry = new_registry max_part_count;
    drain = new_drain (new_registry max_part_count) 0 0;
    renewing = λ n. false;
    added = λ n. [];
    drained = λ n. [];
    spared = true;
    whole = true;
  }

  pub data Reach (max_part_count : ℕ) : World D → Type 0 where
    here : Reach max_part_count (start max_part_count)
    next : {w w' : World D} → Reach max_part_count w → Step w w' → Reach max_part_count w'
