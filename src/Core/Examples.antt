-- ===== src/Core/Examples.antt =====
-- The theorems about elfo-core at concrete inputs.
use elfo.Core.Slots.{slots}
use elfo.Base.{
  ℕ, ◌+◌, ◌-◌, ◌≡◌, refl, ◌≢◌, ◌↔◌, Bool, true, false, none, some, List, [], ◌∷◌, arith,
  if◌then◌else◌, length, get_elem?, take, done,
}
use elfo.Core.RequestTable.{
  failed, ignored, Response, ok, err, RequestData, push, ready, waiting, new_request, wait, resolve,
}
use elfo.Core.RequestTable.Push.{
  pushes, expecting, best_from, to_responses, any_ok, pushes-any, push-done, ok_lost_by_duplicate,
}
use elfo.Core.RequestTable.Tokens.{request_completes, collect_all_waits}
use elfo.Core.RequestTable.Steps.{World, count}
use elfo.Core.RequestTable.Steps

abbrev one_token : Bool → RequestData ℕ
one_token collect_all = expecting collect_all 1

-- The responses to a request: a failure, then an answer, then an ignored message.
abbrev arrived : List (Response ℕ)
arrived = err failed ∷ ok 5 ∷ err ignored ∷ []

pushes-any_example : pushes (expecting false 3) arrived ≡ record {
  remainder = (if any_ok (take 3 arrived) then 0 else 3 - length arrived);
  responses = to_responses (best_from none (take 3 arrived));
  collect_all = false;
}
pushes-any_example = pushes-any 3 arrived

push-done_example :
    ((push (one_token true) (ok 5)).1 ≡ true)
    ↔ (((one_token true).remainder ≢ 0) × ((push (one_token true) (ok 5)).0.remainder ≡ 0))
push-done_example = push-done (one_token true) (ok 5)

ok_lost_by_duplicate_example :
    let answered = (push (one_token false) (ok 5)).0 in
    let again = record answered { remainder = answered.remainder + 1 } in
    (answered.remainder ≡ 0)
    × ((push again (err ignored)).0.remainder ≡ 0)
    × (get_elem? (push again (err ignored)).0.responses 0 ≡ some (err ignored))
ok_lost_by_duplicate_example = ok_lost_by_duplicate (one_token false) 5 refl (omega arith)

-- A request that has got its only response.
abbrev finished : World (slots {V = RequestData ℕ})
finished = record {
  table = some (record { remainder = 0; responses = ok 5 ∷ []; collect_all = true }) ∷ [];
  tokens = [];
  asleep = [];
}

finished-Reach : Steps.Reach (slots {V = RequestData ℕ}) finished
unfolding new_request resolve push wait
finished-Reach =
    Steps.Reach.next
      (Steps.Reach.next (Steps.Reach.next Steps.Reach.here (Steps.Step.requests _ true refl))
        (Steps.Step.waits _ 0 {p = waiting} refl))
      (Steps.Step.resolves _ 0 (ok 5) Steps.Picks.first)

request_completes_example :
    (count (slots {V = RequestData ℕ}) 0 finished.asleep ≡ 0)
    × (wait slots finished.table 0 ≡ done (none ∷ [], ready (ok 5 ∷ [])))
request_completes_example = request_completes slots finished 0 _ finished-Reach refl refl

abbrev five : List (Response ℕ)
five = ok 5 ∷ []

collect_all_waits_example :
    (count (slots {V = RequestData ℕ}) 0 finished.tokens ≡ 0) × (five ≡ five)
unfolding wait
collect_all_waits_example =
    collect_all_waits slots finished 0 _ {m = none ∷ []} finished-Reach refl refl refl
