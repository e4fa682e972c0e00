-- ===== src/Network/RequestExamples.antt =====
-- The theorem about the tokens of outgoing requests at a concrete input.
use elfo.Base.{ℕ, ◌≡◌, true, false, none, some, List, [], ◌∷◌, arith, ◌==◌}
use elfo.Network.OutgoingRequests.MapLike.{
  Call, adds, gets, duplicate_request, found_token, outcomes, tokens_are_map,
}

-- Two requests of one requester, and one of them again.
abbrev three_requests : List (Call ℕ ℕ)
three_requests =
    (adds 7 3 100
      ∷ adds 7 4 200
      ∷ gets 7 3 false
      ∷ adds 7 3 300
      ∷ gets 7 3 true
      ∷ gets 7 3 true
      ∷ gets 7 4 true
      ∷ [])

tokens_are_map_example :
    outcomes ◌==◌ (λ t. t) [] three_requests
    ≡ duplicate_request false
      ∷ duplicate_request false
      ∷ found_token (some 100)
      ∷ duplicate_request true
      ∷ found_token (some 300)
      ∷ found_token none
      ∷ found_token (some 200)
      ∷ []
tokens_are_map_example = tokens_are_map ◌==◌ (λ t. t) (λ r s h. ground (arith, h)) three_requests
