-- ===== src/Core/RequestTable/Steps.antt =====
-- elfo-core/src/request_table.rs: a table with the tokens that are alive and the waiters that sleep,
-- under any interleaving of the table's calls (each holds the lock for its whole duration).
use elfo.Base.{ℕ, ◌+◌, ◌≤◌, ◌≡◌, Bool, true, false, some, List, [], ◌∷◌, if◌then◌else◌, done}
use elfo.Core.RequestTable.{
  Response, RequestData, SlotMap, Poll, waiting, ready, new_request, cancel_request, wait, resolve,
  duplicate, drop_token,
}

module _ {E : Type 0} (s : SlotMap (RequestData E)) where
  open s use {Key, Map, same, same_iff, get, issued}

  -- One token of the list, and the others.
  pub data Picks (k : Key) : List Key → List Key → Type 0 where
    first : {ks : List Key} → Picks k (k ∷ ks) ks
    later : {j : Key} {ks rest : List Key} → Picks k ks rest → Picks k (j ∷ ks) (j ∷ rest)

  pub record World : Type 0 where
    pub table : Map
    -- The request of each token that is alive.
    pub tokens : List Key
    -- The requests whose waiter has found them incomplete and was not notified since.
    pub asleep : List Key

  -- `notify_waiters` wakes all who wait, whatever request they wait for.
  abbrev pub left_asleep : Bool → List Key → List Key
  left_asleep true asleep = []
  left_asleep false asleep = asleep

  abbrev pub falls_asleep : Key → Poll (List (Response E)) → List Key → List Key
  falls_asleep k waiting asleep = k ∷ asleep
  falls_asleep k (ready rs) asleep = asleep

  pub data Step : World → World → Type 0 where
    requests :
        (w : World) (collect_all : Bool) {m : Map} {k : Key}
        → new_request s w.table collect_all ≡ (m, k)
        → Step w (record w { table = m; tokens = k ∷ w.tokens })
    duplicates :
        (w : World) {k : Key} {rest : List Key} {m : Map}
        → Picks k w.tokens rest
        → duplicate s w.table k ≡ (m, some k)
        → Step w (record w { table = m; tokens = k ∷ w.tokens })
    resolves :
        (w : World) (k : Key) {rest : List Key} (r : Response E)
        → Picks k w.tokens rest
        → Step w (record {
          table = (resolve s w.table k r).0;
          tokens = rest;
          asleep = left_asleep (resolve s w.table k r).1 w.asleep;
        })
    drops :
        (w : World) (k : Key) {rest : List Key} (received : Bool)
        → Picks k w.tokens rest
        → Step w (record {
          table = (drop_token s w.table k received).0;
          tokens = rest;
          asleep = left_asleep (drop_token s w.table k received).1 w.asleep;
        })
    cancels : (w : World) (k : Key) → Step w (record w { table = cancel_request s w.table k })
    waits :
        (w : World) (k : Key) {m : Map} {p : Poll (List (Response E))}
        → wait s w.table k ≡ done (m, p)
        → Step w (record w { table = m; asleep = falls_asleep k p w.asleep })

  pub data Reach : World → Type 0 where
    here : Reach (record { table = s.empty; tokens = []; asleep = [] })
    next : {v w : World} → Reach v → Step v w → Reach w

  abbrev pub count : Key → List Key → ℕ
  count k [] = 0
  count k (j ∷ ks) = (if same j k then 1 else 0) + count k ks

  -- Every request expects no more responses than it has tokens, exactly as many if it collects
  -- all; and a token belongs to a key that the table gave out.
  pub record Counted (table : Map) (tokens : List Key) : Type 0 where
    pub expected :
        (k : Key) (d : RequestData E)
        → get table k ≡ some d
        → (d.remainder ≤ count k tokens) × (d.collect_all ≡ true → d.remainder ≡ count k tokens)
    pub known : (k : Key) → issued table k ≡ false → count k tokens ≡ 0

  -- Who sleeps waits for a request that is incomplete.
  pub record Inv (w : World) : Type 0 where
    pub counted : Counted w.table w.tokens
    pub awake :
        (k : Key) (d : RequestData E)
        → get w.table k ≡ some d
        → d.remainder ≡ 0
        → count k w.asleep ≡ 0
