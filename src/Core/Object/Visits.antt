-- ===== src/Core/Object/Visits.antt =====
-- elfo-core/src/object.rs: what the visitor of `try_send` has seen after the visits.
use elfo.Base.{
  ℕ, ◌≡◌, refl, ap, ◌∙◌, Bool, true, false, ◌&&◌, ◌||◌, Option, none, some, List, [], ◌∷◌, arith,
  done, ◌>>=◌,
}
use elfo.Base.Assoc.{find}
use elfo.Core.Mailbox.{SendResult, sent}
use elfo.Core.Actor.{MailActor}
use elfo.Core.Supervisor.{Visit, visited, visited_last, visited_none, handled}
use elfo.Core.Object.{
  TrySendGroupVisitor, or_duplicate, Store, visitor_default, note, visitor_finish, try_actor,
  visitor_try_send, on_visit, on_visits, group_try_send,
}
use elfo.Core.Object.Offers.{
  is_some, is_sent, is_full, visit_stored, all_stored, answer, missing_or-answer, offer_to, offer,
  offer_all, offer-keeps,
}

abbrev pub is_cons : List Visit → Bool
is_cons [] = false
is_cons (visit ∷ visits) = true

module _ {E : Type 0} (as_terminate : E → Option Bool) (trace_id : ℕ) where
  -- What the visitor holds is the message.
  abbrev Keeps : TrySendGroupVisitor E → E → Type 0
  Keeps v e = or_duplicate v.extra e ≡ e

  abbrev cleared : TrySendGroupVisitor E → Visit → TrySendGroupVisitor E
  cleared v (visited addr) = record v { extra = none }
  cleared v visit = v

  try_actor-offers :
      (s : Store E) (v : TrySendGroupVisitor E) (addr : ℕ) (e : E) (found : Option (MailActor E))
      → is_some found ≡ true
      → try_actor as_terminate trace_id s v addr e found
        ≡ done (
          (offer_to as_terminate trace_id s addr e found).0,
          note v e (offer_to as_terminate trace_id s addr e found).1,
        )
  try_actor-offers s v addr e none h = cc
  try_actor-offers s v addr e (some a) h = refl

  on_visit-offers :
      (s : Store E) (v : TrySendGroupVisitor E) (e : E) (visit : Visit)
      → visit_stored s visit ≡ true
      → Keeps v e
      → on_visit as_terminate trace_id s v e visit
        ≡ done (
          (offer as_terminate trace_id s e visit).0,
          note (cleared v visit) e (offer as_terminate trace_id s e visit).1,
        )
  unfolding on_visit visitor_try_send
  on_visit-offers s v e (visited addr) h k =
      ap
        (λ copy.
          try_actor as_terminate trace_id s (record v { extra = none }) addr copy (find s addr))
        k
      ∙ try_actor-offers s (record v { extra = none }) addr e (find s addr) h
  on_visit-offers s v e (visited_last addr) h k = try_actor-offers s v addr e (find s addr) h
  on_visit-offers s v e visited_none h k = refl
  on_visit-offers s v e handled h k = refl

  note-Keeps :
      (v : TrySendGroupVisitor E) (e : E) (visit : Visit) (result : SendResult)
      → Keeps v e
      → Keeps (note (cleared v visit) e result) e
  note-Keeps v e (visited addr) sent k = refl
  note-Keeps v e (visited_last addr) sent k = k
  note-Keeps v e visited_none sent k = k
  note-Keeps v e handled sent k = k
  note-Keeps v e visit SendResult.full k = refl
  note-Keeps v e visit SendResult.closed k = refl

  -- After a visit the visitor can answer.
  abbrev Answers : TrySendGroupVisitor E → Type 0
  Answers v = v.has_ok || is_some v.extra ≡ true

  note-Answers :
      (v : TrySendGroupVisitor E) (e : E) (result : SendResult) → Answers (note v e result)
  note-Answers v e sent = refl
  note-Answers v e SendResult.full = ground arith
  note-Answers v e SendResult.closed = ground arith

  note-ok :
      (v : TrySendGroupVisitor E) (e : E) (visit : Visit) (result : SendResult)
      → (note (cleared v visit) e result).has_ok ≡ is_sent result || v.has_ok
  note-ok v e visit result = ground arith

  note-full :
      (v : TrySendGroupVisitor E) (e : E) (visit : Visit) (result : SendResult)
      → (note (cleared v visit) e result).has_full ≡ is_full result || v.has_full
  note-full v e visit result = ground arith

  and_both : (b c : Bool) → b && c ≡ true → (b ≡ true) × (c ≡ true)
  and_both true c h = (refl, h)
  and_both false c h = cc

  or_step :
      (before now : Bool) (later : Bool) {w after : Bool}
      → w ≡ now || before
      → after ≡ w || later
      → after ≡ before || (now || later)
  or_step before now h h' = ground arith

  -- The rest of the visits.
  record Visited (s : Store E) (v : TrySendGroupVisitor E) (e : E) (visits : List Visit)
      (v' : TrySendGroupVisitor E) : Type 0 where
    ran :
        on_visits as_terminate trace_id s v e visits
        ≡ done ((offer_all as_terminate trace_id s e visits).0, v')
    keeps : Keeps v' e
    ok_same : v'.has_ok ≡ v.has_ok || (offer_all as_terminate trace_id s e visits).1.0
    full_same : v'.has_full ≡ v.has_full || (offer_all as_terminate trace_id s e visits).1.1
    answers : (v.has_ok || is_some v.extra) || is_cons visits ≡ true → Answers v'

  on_visits-offers :
      (s : Store E) (v : TrySendGroupVisitor E) (e : E) (visits : List Visit)
      → all_stored s visits ≡ true
      → Keeps v e
      → (v' : TrySendGroupVisitor E) × Visited s v e visits v'
  unfolding on_visits
  on_visits-offers s v e [] h k = (
    v,
    record {
      ran = refl;
      keeps = k;
      ok_same = ground arith;
      full_same = ground arith;
      answers = λ a. ground arith;
    },
  )
  on_visits-offers s v e (visit ∷ visits) h k =
      let result = (offer as_terminate trace_id s e visit).1 in
      let w = note (cleared v visit) e result in
      let (v', r) =
        on_visits-offers (offer as_terminate trace_id s e visit).0 w e visits
          (offer-keeps as_terminate trace_id s e visit visits
            (and_both (visit_stored s visit) (all_stored s visits) h).1)
          (note-Keeps v e visit result k) in
      (
        v',
        record {
          ran =
              ap (λ r. r >>= (λ (s', v'). on_visits as_terminate trace_id s' v' e visits))
                (on_visit-offers s v e visit
                  (and_both (visit_stored s visit) (all_stored s visits) h).0 k)
              ∙ r.ran;
          keeps = r.keeps;
          ok_same = or_step v.has_ok (is_sent result) _ (note-ok v e visit result) r.ok_same;
          full_same =
              or_step v.has_full (is_full result) _ (note-full v e visit result) r.full_same;
          answers = λ a.
              r.answers (ap (λ b. b || is_cons visits) (note-Answers (cleared v visit) e result));
        },
      )

  pub group_try_send-offers :
      (s : Store E) (e : E) (visit : Visit) (visits : List Visit)
      → all_stored s (visit ∷ visits) ≡ true
      → group_try_send as_terminate trace_id s e (visit ∷ visits) ≡ (
          let (s', (taken, was_full)) = offer_all as_terminate trace_id s e (visit ∷ visits) in
          done (s', answer e taken was_full))
  unfolding group_try_send visitor_finish
  group_try_send-offers s e visit visits h =
      let (v, r) = on_visits-offers s visitor_default e (visit ∷ visits) h refl in
      let (s', (taken, was_full)) = offer_all as_terminate trace_id s e (visit ∷ visits) in
      ap (λ m. m >>= (λ (s', v). visitor_finish v >>= (λ result. done (s', result)))) r.ran
      ∙ ap (λ m. m >>= (λ result. done (s', result)))
          (missing_or-answer v.has_ok v.has_full v.extra e r.keeps (r.answers refl))
      ∙ ap (λ ok. done (s', answer e ok v.has_full)) r.ok_same
      ∙ ap (λ b. done (s', answer e taken b)) r.full_same
