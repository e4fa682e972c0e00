-- ===== src/Network/OutgoingRequests/MapLike.antt =====
-- elfo-network/src/worker/requests.rs: the tokens as a function of the requester and the id.
use elfo.Base.{
  ◌≡◌, refl, sym, ap, ◌∙◌, inl, inr, Bool, true, false, ◌&&◌, Option, none, some, List, [], ◌∷◌,
  arith, ◌==◌, if◌then◌else◌, Bool-cases,
}
use elfo.Core.Addr.{Addr, is_some}
use elfo.Network.OutgoingRequests.{Entry, find_token, remove_token, add_token, get_token}

pub data Call (R T : Type 0) : Type 0 where
  adds : (owner : Addr) (r : R) (token : T) → Call R T
  gets : (owner : Addr) (r : R) (is_last_response : Bool) → Call R T

pub data Outcome (T : Type 0) : Type 0 where
  duplicate_request : (was_there : Bool) → Outcome T
  found_token : (token : Option T) → Outcome T

module _ {R T : Type 0} (same : R → R → Bool) (duplicate_token : T → T) where
  abbrev pub outcomes : List (Entry R T) → List (Call R T) → List (Outcome T)
  outcomes m [] = []
  outcomes m (adds o r token ∷ calls) =
      let (after, was_there) = add_token same duplicate_token m o r token in
      duplicate_request was_there ∷ outcomes after calls
  outcomes m (gets o r is_last ∷ calls) =
      let (after, token) = get_token same duplicate_token m o r is_last in
      found_token token ∷ outcomes after calls

  -- A map is a function that is changed at one key.
  abbrev pub put_token : (Addr → R → Option T) → Addr → R → Option T → Addr → R → Option T
  put_token f o r t o' r' = if o == o' && same r r' then t else f o' r'

  abbrev pub duplicated : Option T → Option T
  duplicated none = none
  duplicated (some token) = some (duplicate_token token)

  abbrev pub expected : (Addr → R → Option T) → List (Call R T) → List (Outcome T)
  expected f [] = []
  expected f (adds o r token ∷ calls) =
      duplicate_request (is_some (f o r)) ∷ expected (put_token f o r (some token)) calls
  expected f (gets o r true ∷ calls) = found_token (f o r) ∷ expected (put_token f o r none) calls
  expected f (gets o r false ∷ calls) = found_token (duplicated (f o r)) ∷ expected f calls

  module _ (same_eq : (r s : R) → same r s ≡ true → r ≡ s) where
    key_eq :
        (o : Addr) (r : R) (o' : Addr) (r' : R)
        → (o == o' && same r r') ≡ true
        → (o ≡ o') × (r ≡ r')
    key_eq o r o' r' h = (ground (arith, h), same_eq r r' (ground (arith, h)))

    find-remove :
        (m : List (Entry R T)) (o : Addr) (r : R) (o' : Addr) (r' : R)
        → find_token same duplicate_token (remove_token same duplicate_token m o r) o' r'
          ≡ put_token (find_token same duplicate_token m) o r none o' r'
    find-remove [] o r o' r' = ground arith
    find-remove (e ∷ es) o r o' r' =
        let again = find-remove es o r o' r' in
        elim (Bool-cases (e.owner == o && same e.request_id r)) [
          | inl hit ↦
              let (owner, id) = key_eq e.owner e.request_id o r hit in
              let key : (e.owner == o' && same e.request_id r') ≡ (o == o' && same r r') =
                rw (owner, id) refl in
              elim (Bool-cases (o == o' && same r r')) [
                | inl k ↦ rw (hit, k) (again ∙ rw k refl)
                | inr k ↦ rw (hit, key, k) (again ∙ rw k refl)
              ]
          | inr miss ↦ elim (Bool-cases (o == o' && same r r')) [
            | inl k ↦
                let (owner, id) = key_eq o r o' r' k in
                let key : (e.owner == o' && same e.request_id r') ≡ false =
                  rw (sym owner, sym id) miss in
                rw (miss, k, key) (again ∙ rw k refl)
            | inr k ↦
                rw (miss, k)
                  (ap (λ rest. if e.owner == o' && same e.request_id r' then some e.token else rest)
                    (again ∙ rw k refl))
          ]
        ]

    find-add :
        (m : List (Entry R T)) (o : Addr) (r : R) (t : T) (o' : Addr) (r' : R)
        → find_token same duplicate_token (add_token same duplicate_token m o r t).0 o' r'
          ≡ put_token (find_token same duplicate_token m) o r (some t) o' r'
    unfolding add_token
    find-add m o r t o' r' = elim (Bool-cases (o == o' && same r r')) [
      | inl hit ↦ rw hit refl
      | inr miss ↦ rw miss (find-remove m o r o' r' ∙ rw miss refl)
    ]

    both_equal :
        {x y : Outcome T} {xs ys : List (Outcome T)} → x ≡ y → xs ≡ ys → (x ∷ xs) ≡ (y ∷ ys)
    both_equal h t = cc

    get_duplicated :
        (t : Option T)
        → elim t [ none ↦ none | some token ↦ some (duplicate_token token) ] ≡ duplicated t
    get_duplicated none = refl
    get_duplicated (some token) = refl

    outcomes-expected :
        (m : List (Entry R T)) (f : Addr → R → Option T) (calls : List (Call R T))
        → ((o : Addr) (r : R) → find_token same duplicate_token m o r ≡ f o r)
        → outcomes m calls ≡ expected f calls
    unfolding add_token get_token
    outcomes-expected m f [] agree = refl
    outcomes-expected m f (adds o r token ∷ calls) agree =
        both_equal (ap (λ t. duplicate_request (is_some t)) (agree o r)) (
          outcomes-expected (add_token same duplicate_token m o r token).0
            (put_token f o r (some token)) calls
            (λ o' r'.
              find-add m o r token o' r'
              ∙ ap (λ t. if o == o' && same r r' then some token else t) (agree o' r')))
    outcomes-expected m f (gets o r true ∷ calls) agree = both_equal (ap found_token (agree o r)) (
        outcomes-expected (remove_token same duplicate_token m o r) (put_token f o r none) calls
          (λ o' r'.
            find-remove m o r o' r'
            ∙ ap (λ t. if o == o' && same r r' then none else t) (agree o' r')))
    outcomes-expected m f (gets o r false ∷ calls) agree =
        both_equal
          (ap found_token
            (get_duplicated (find_token same duplicate_token m o r) ∙ ap duplicated (agree o r)))
          (outcomes-expected m f calls agree)

    -- Over any sequence of calls the tokens behave as a map from a requester and an id to a token
    -- that is empty at first: `add_token` tells whether the request was there and replaces its
    -- token, `get_token` takes the token of exactly that request out for the last response and
    -- otherwise leaves it and returns a duplicate. Ids that compare equal are equal.
    pub tokens_are_map :
        (calls : List (Call R T)) → outcomes [] calls ≡ expected (λ o r. none) calls
    tokens_are_map calls = outcomes-expected [] (λ o r. none) calls (λ o r. refl)
