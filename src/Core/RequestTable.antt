-- ===== src/Core/RequestTable.antt =====
-- elfo-core/src/request_table.rs. The slot map of the requests is the parameter `SlotMap`; an
-- envelope is an opaque type. Debug assertions are left out, as in a release build.
pub mod Push
pub mod Steps
pub mod Counts
pub mod Waiters
pub mod Tokens
use elfo.Base.{
  ℕ, ◌+◌, ◌-◌, ◌≡◌, ◌↔◌, Bool, true, false, ◌||◌, Option, none, some, List, [], ◌∷◌, ◌++◌, ◌==◌,
  if◌then◌else◌, Run, done, panic,
}

pub data RequestError : Type 0 where
  failed ignored : RequestError

-- `Result<Envelope, RequestError>`.
pub data Response (E : Type 0) : Type 0 where
  ok : E → Response E
  err : RequestError → Response E

pub record RequestData (E : Type 0) : Type 0 where
  pub remainder : ℕ
  pub responses : List (Response E)
  pub collect_all : Bool

module _ {E : Type 0} where
  abbrev pub is_ok : Response E → Bool
  is_ok (ok e) = true
  is_ok (err x) = false

  abbrev pub is_ignored : Response E → Bool
  is_ignored (ok e) = false
  is_ignored (err failed) = false
  is_ignored (err ignored) = true

  -- The responses of an `any` request after one more; the vector holds one at most.
  unfoldable pub keep_best : List (Response E) → Response E → List (Response E)
  keep_best [] r = r ∷ []
  keep_best (old ∷ rest) r = if is_ok r || is_ignored r then r ∷ rest else old ∷ rest

  push_any : RequestData E → Response E → RequestData E × Bool
  unfolding keep_best
  push_any d r =
      let remainder = if is_ok r then 0 else d.remainder in
      (record d { responses = keep_best d.responses r; remainder = remainder }, remainder == 0)

  push_all : RequestData E → Response E → RequestData E × Bool
  push_all d r = (record d { responses = d.responses ++ r ∷ [] }, d.remainder == 0)

  -- `RequestData::push`: the data after, and whether the request is done.
  unfoldable pub push : RequestData E → Response E → RequestData E × Bool
  unfolding push_any push_all
  push d r =
      if d.remainder == 0
      then (d, false)
      else (let d' = record d { remainder = d.remainder - 1 } in
          if d.collect_all then push_all d' r else push_any d' r)

-- The slot map (a library outside the repository): a key finds what was put under it until it is
-- removed, and a new key was never in use before.
pub record SlotMap (V : Type 0) : Type 1 where
  pub Key : Type 0
  pub Map : Type 0
  pub same : Key → Key → Bool
  pub same_iff : (k j : Key) → (same k j ≡ true) ↔ (k ≡ j)
  pub empty : Map
  pub get : Map → Key → Option V
  pub insert : Map → V → Map × Key
  pub write : Map → Key → V → Map
  pub remove : Map → Key → Map
  -- The key was given out by the map.
  pub issued : Map → Key → Bool
  pub get-empty : (k : Key) → get empty k ≡ none
  pub get-insert :
      (m : Map) (v : V) (j : Key)
      → get (insert m v).0 j ≡ (if same (insert m v).1 j then some v else get m j)
  pub get-write :
      (m : Map) (k : Key) (v w : V) (j : Key)
      → get m k ≡ some w
      → get (write m k v) j ≡ (if same k j then some v else get m j)
  pub get-remove : (m : Map) (k j : Key) → get (remove m k) j ≡ (if same k j then none else get m j)
  pub insert-fresh : (m : Map) (v : V) → issued m (insert m v).1 ≡ false
  pub issued-insert :
      (m : Map) (v : V) (j : Key) → issued (insert m v).0 j ≡ (same (insert m v).1 j || issued m j)
  pub issued-write : (m : Map) (k : Key) (v : V) (j : Key) → issued (write m k v) j ≡ issued m j
  pub issued-remove : (m : Map) (k j : Key) → issued (remove m k) j ≡ issued m j

-- What `wait` finds when it looks: it goes on waiting, or takes the responses out.
pub data Poll {ℓ} (A : Type ℓ) : Type ℓ where
  waiting : Poll A
  ready : A → Poll A

module _ {E : Type 0} (s : SlotMap (RequestData E)) where
  open s use {Key, Map, get, insert, write, remove}

  unfoldable pub new_request : Map → Bool → Map × Key
  new_request m collect_all =
      insert m (record { remainder = 1; responses = []; collect_all = collect_all })

  unfoldable pub cancel_request : Map → Key → Map
  cancel_request m k = remove m k

  -- One pass of the loop of `wait`, under the lock.
  unfoldable pub wait : Map → Key → Run (Map × Poll (List (Response E)))
  wait m k = elim (get m k) [
    | none ↦ panic
    | some d ↦ if d.remainder == 0 then done (remove m k, ready d.responses) else done (m, waiting)
  ]

  -- `resolve`: the table after, and whether the waiters are notified.
  unfoldable pub resolve : Map → Key → Response E → Map × Bool
  resolve m k r = elim (get m k) [
    | none ↦ (m, false)
    | some d ↦ (write m k (push d r).0, (push d r).1)
  ]

  -- `do_duplicate` for a token of this node whose owner is alive; `none` is a forgotten token.
  unfoldable pub duplicate : Map → Key → Map × Option Key
  duplicate m k = elim (get m k) [
    | none ↦ (m, none)
    | some d ↦ (write m k (record d { remainder = d.remainder + 1 }), some k)
  ]

  -- `drop` of a token that is not forgotten, while its owner is alive.
  unfoldable pub drop_token : Map → Key → Bool → Map × Bool
  drop_token m k received = resolve m k (err (if received then ignored else failed))
