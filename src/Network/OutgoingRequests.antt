-- ===== src/Network/OutgoingRequests.antt =====
-- elfo-network/src/worker/requests.rs: the tokens of the requests that came from other nodes, by
-- requester and id. A token is an opaque type with its duplication, an id one with its equality;
-- the metrics and the debug assertions are left out.
pub mod MapLike
use elfo.Base.{Bool, ◌&&◌, Option, none, some, List, [], ◌∷◌, ◌==◌, if◌then◌else◌}
use elfo.Core.Addr.{Addr, is_some}

pub record Entry (R T : Type 0) : Type 0 where
  pub owner : Addr
  pub request_id : R
  pub token : T

module _ {R T : Type 0} (same : R → R → Bool) (duplicate_token : T → T) where
  abbrev pub find_token : List (Entry R T) → Addr → R → Option T
  find_token [] owner r = none
  find_token (e ∷ es) owner r =
      let rest = find_token es owner r in
      if e.owner == owner && same e.request_id r then some e.token else rest

  abbrev pub remove_token : List (Entry R T) → Addr → R → List (Entry R T)
  remove_token [] owner r = []
  remove_token (e ∷ es) owner r =
      let rest = remove_token es owner r in
      if e.owner == owner && same e.request_id r then rest else e ∷ rest

  -- The map after, and whether the request was there already.
  unfoldable pub add_token : List (Entry R T) → Addr → R → T → List (Entry R T) × Bool
  add_token m owner r token = (
    record { owner = owner; request_id = r; token = token } ∷ remove_token m owner r,
    is_some (find_token m owner r),
  )

  unfoldable pub get_token : List (Entry R T) → Addr → R → Bool → List (Entry R T) × Option T
  get_token m owner r is_last_response =
      if is_last_response then (remove_token m owner r, find_token m owner r) else (
        m,
        (elim (find_token m owner r) [ none ↦ none | some token ↦ some (duplicate_token token) ]),
      )
