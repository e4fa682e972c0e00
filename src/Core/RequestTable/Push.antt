-- ===== src/Core/RequestTable/Push.antt =====
-- `RequestData::push` over a whole sequence of responses.
use elfo.Base.{
  ℕ, zero, suc, ◌+◌, ◌-◌, ◌≡◌, refl, sym, ap, ◌∙◌, ◌≢◌, ◌↔◌, inl, inr, Bool, true, false, not, ◌||◌,
  Option, none, some, List, [], ◌∷◌, ◌++◌, append-nil, append_assoc, arith, ◌==◌, if◌then◌else◌,
  Bool-cases, length, get_elem?, take, take-nil,
}
use elfo.Core.RequestTable.{ignored, Response, ok, err, RequestData, is_ok, is_ignored, push}

module _ {E : Type 0} where
  abbrev pub pushes : RequestData E → List (Response E) → RequestData E
  pushes d [] = d
  pushes d (r ∷ rs) = pushes (push d r).0 rs

  -- A request before its first response, with `n` tokens out.
  abbrev pub expecting : Bool → ℕ → RequestData E
  expecting collect_all n = record { remainder = n; responses = []; collect_all = collect_all }

  -- The response that `any` is to return: the first `Ok`, or else the last `Ignored`, or else the
  -- first `Failed`.
  abbrev pub better : Option (Response E) → Response E → Option (Response E)
  better none r = some r
  better (some old) r =
      if is_ok old then some old else (if is_ok r || is_ignored r then some r else some old)

  abbrev pub best_from : Option (Response E) → List (Response E) → Option (Response E)
  best_from b [] = b
  best_from b (r ∷ rs) = best_from (better b r) rs

  abbrev pub to_responses : Option (Response E) → List (Response E)
  to_responses none = []
  to_responses (some r) = r ∷ []

  abbrev pub any_ok : List (Response E) → Bool
  any_ok [] = false
  any_ok (r ∷ rs) = is_ok r || any_ok rs

  -- `push` on a request with a token left.
  push_collect :
      (n : ℕ) (old : List (Response E)) (r : Response E)
      → push (record { remainder = suc n; responses = old; collect_all = true }) r
        ≡ (record { remainder = n; responses = old ++ r ∷ []; collect_all = true }, n == 0)
  unfolding push
  push_collect n old r = ground arith

  -- No response is taken once none is expected.
  pushes_finished :
      (old : List (Response E)) (collect_all : Bool) (rs : List (Response E))
      → pushes (record { remainder = 0; responses = old; collect_all = collect_all }) rs
        ≡ record { remainder = 0; responses = old; collect_all = collect_all }
  unfolding push
  pushes_finished old c [] = refl
  pushes_finished old c (r ∷ rs) = pushes_finished old c rs

  collect_from :
      (n : ℕ) (old rs : List (Response E))
      → pushes (record { remainder = n; responses = old; collect_all = true }) rs
        ≡ record { remainder = n - length rs; responses = old ++ take n rs; collect_all = true }
  collect_from n old [] = ground (arith, append-nil old, take-nil {A = Response E} n [] refl)
  collect_from zero old (r ∷ rs) =
      pushes_finished old true (r ∷ rs) ∙ ground (arith, append-nil old)
  collect_from (suc n) old (r ∷ rs) =
      rw (push_collect n old r)
        (collect_from n (old ++ r ∷ []) rs ∙ ground (arith, append_assoc old (r ∷ []) (take n rs)))

  -- With `collect_all` the first responses, as many as there are tokens, are kept in the order of
  -- arrival, later ones are dropped, and each response counts for one token.
  pushes-collect_all :
      (n : ℕ) (rs : List (Response E))
      → pushes (expecting true n) rs
        ≡ record { remainder = n - length rs; responses = take n rs; collect_all = true }
  pushes-collect_all n rs = collect_from n [] rs

  best_of_ok :
      (r : Response E) (rs : List (Response E)) → is_ok r ≡ true → best_from (some r) rs ≡ some r
  best_of_ok r [] h = refl
  best_of_ok r (q ∷ rs) h = rw h (best_of_ok r rs h)

  abbrev not_ok : Option (Response E) → Bool
  not_ok none = true
  not_ok (some r) = not (is_ok r)

  push_first :
      (n : ℕ) (b : Option (Response E)) (r : Response E)
      → not_ok b ≡ true
      → push (record { remainder = suc n; responses = to_responses b; collect_all = false }) r ≡ (
        record {
          remainder = (if is_ok r then 0 else n);
          responses = to_responses (better b r);
          collect_all = false;
        },
        (if is_ok r then 0 else n) == 0,
      )
  unfolding push
  push_first n none r h = ground arith
  push_first n (some old) r h = ground arith

  not_ok-better :
      (b : Option (Response E)) (r : Response E)
      → not_ok b ≡ true
      → is_ok r ≡ false
      → not_ok (better b r) ≡ true
  not_ok-better none r h k = ground arith
  not_ok-better (some old) r h k = ground arith

  better_ok :
      (b : Option (Response E)) (r : Response E)
      → not_ok b ≡ true
      → is_ok r ≡ true
      → better b r ≡ some r
  better_ok none r h k = refl
  better_ok (some old) r h k = ground arith

  still_best :
      (b : Option (Response E)) (r : Response E) (rs : List (Response E))
      → not_ok b ≡ true
      → is_ok r ≡ true
      → best_from (better b r) rs ≡ some r
  still_best b r rs h k = ap (λ o. best_from o rs) (better_ok b r h k) ∙ best_of_ok r rs k

  abbrev answered : Option (Response E) → RequestData E
  answered b = record { remainder = 0; responses = to_responses b; collect_all = false }

  any_from :
      (n : ℕ) (b : Option (Response E)) (rs : List (Response E))
      → not_ok b ≡ true
      → pushes (record { remainder = n; responses = to_responses b; collect_all = false }) rs
        ≡ record {
          remainder = (if any_ok (take n rs) then 0 else n - length rs);
          responses = to_responses (best_from b (take n rs));
          collect_all = false;
        }
  any_from n b [] h = ground (arith, take-nil {A = Response E} n [] refl)
  any_from zero b (r ∷ rs) h = pushes_finished (to_responses b) false (r ∷ rs) ∙ ground arith
  any_from (suc n) b (r ∷ rs) h = elim (Bool-cases (is_ok r)) [
    | inl yes_ok ↦ rw (push_first n b r h) (
        rw yes_ok (
          pushes_finished (to_responses (better b r)) false rs
          ∙ ap answered (better_ok b r h yes_ok ∙ sym (still_best b r (take n rs) h yes_ok))))
    | inr not_yet ↦
        rw (push_first n b r h)
          (rw not_yet (any_from n (better b r) rs (not_ok-better b r h not_yet) ∙ ground arith))
  ]

  -- Without `collect_all`, and if no token is duplicated after a response, the request keeps one of
  -- the first responses, as many as there are tokens: the first `Ok`, or else the last `Ignored`,
  -- or else the first `Failed`. It is done with the first `Ok`, or else with the last token.
  pub pushes-any :
      (n : ℕ) (rs : List (Response E))
      → pushes (expecting false n) rs ≡ record {
        remainder = (if any_ok (take n rs) then 0 else n - length rs);
        responses = to_responses (best_from none (take n rs));
        collect_all = false;
      }
  pushes-any n rs = any_from n none rs refl

  -- `push` reports that the request is done exactly when it takes the last expected response, so
  -- the waiters are notified exactly when the request becomes complete.
  pub push-done :
      (d : RequestData E) (r : Response E)
      → ((push d r).1 ≡ true) ↔ ((d.remainder ≢ 0) × ((push d r).0.remainder ≡ 0))
  unfolding push
  push-done d r = (λ h. ground arith, λ h. ground arith)

  -- A token duplicated after an `Ok` has arrived makes the request incomplete again, and if that
  -- token is then ignored, the `Ok` is lost: the request returns `Ignored`. The request must not
  -- collect all responses and must expect at least one.
  pub ok_lost_by_duplicate :
      (d : RequestData E) (e : E)
      → d.collect_all ≡ false
      → d.remainder ≢ 0
      → let answered = (push d (ok e)).0 in
        let again = record answered { remainder = answered.remainder + 1 } in
        (answered.remainder ≡ 0)
        × ((push again (err ignored)).0.remainder ≡ 0)
        × (get_elem? (push again (err ignored)).0.responses 0 ≡ some (err ignored))
  unfolding push
  ok_lost_by_duplicate d e c h = ground arith
