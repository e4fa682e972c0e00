-- ===== src/Core/Object.antt =====
-- elfo-core/src/object.rs: a message to a group without waiting. The supervisor of the group tells a
-- visitor the actors; they are stored by address. The copies of an envelope are equal; the tokens in
-- them are those of Core/RequestTable.antt. Debug assertions are left out.
use elfo.Base.{
  ℕ, Bool, true, false, Option, none, some, List, [], ◌∷◌, if◌then◌else◌, Run, done, panic, ◌>>=◌,
}
use elfo.Base.Assoc.{find, insert}
use elfo.Core.Mailbox.{SendResult, sent}
use elfo.Core.Actor.{MailActor, actor_try_send}
use elfo.Core.Supervisor.{Visit, visited, visited_last, visited_none, handled}
pub mod Offers
pub mod Visits
pub mod Groups

pub data TrySendError (E : Type 0) : Type 0 where
  full : E → TrySendError E
  closed : E → TrySendError E

pub record TrySendGroupVisitor (E : Type 0) : Type 0 where
  pub extra : Option E
  pub has_ok : Bool
  pub has_full : Bool

-- `extra.take().unwrap_or_else(|| envelope.duplicate())`.
abbrev pub or_duplicate : {E : Type 0} → Option E → E → E
or_duplicate none e = e
or_duplicate (some copy) e = copy

-- Actors by address.
abbrev pub Store : Type 0 → Type 0
Store E = List (ℕ × MailActor E)

module _ {E : Type 0} where
  abbrev pub visitor_default : TrySendGroupVisitor E
  visitor_default = record { extra = none; has_ok = false; has_full = false }

  -- What an attempt to send tells the visitor.
  abbrev pub note : TrySendGroupVisitor E → E → SendResult → TrySendGroupVisitor E
  note v e sent = record v { has_ok = true }
  note v e SendResult.full = record v { has_full = true; extra = some e }
  note v e SendResult.closed = record v { extra = some e }

  -- A copy that came back, or a new one.
  abbrev pub take_extra : TrySendGroupVisitor E → E → TrySendGroupVisitor E × E
  take_extra v e = (record v { extra = none }, or_duplicate v.extra e)

  abbrev pub missing_or : Bool → Option E → Run (Option (TrySendError E))
  missing_or has_full none = panic
  missing_or has_full (some e) =
      done (some (if has_full then TrySendError.full e else TrySendError.closed e))

  -- `finish` of the visitor; `none` is `Ok`.
  unfoldable pub visitor_finish : TrySendGroupVisitor E → Run (Option (TrySendError E))
  visitor_finish v = if v.has_ok then done none else missing_or v.has_full v.extra

module _ {E : Type 0} (as_terminate : E → Option Bool) (trace_id : ℕ) where
  abbrev pub try_actor :
      Store E
      → TrySendGroupVisitor E
      → ℕ
      → E
      → Option (MailActor E)
      → Run (Store E × TrySendGroupVisitor E)
  try_actor store v addr e none = panic
  try_actor store v addr e (some a) =
      let (a', result) = actor_try_send as_terminate a trace_id e in
      done (insert store addr a', note v e result)

  -- The method `try_send` of the visitor.
  unfoldable pub visitor_try_send :
      Store E → TrySendGroupVisitor E → ℕ → E → Run (Store E × TrySendGroupVisitor E)
  unfolding actor_try_send
  visitor_try_send store v addr e = try_actor store v addr e (find store addr)

  unfoldable pub on_visit :
      Store E → TrySendGroupVisitor E → E → Visit → Run (Store E × TrySendGroupVisitor E)
  unfolding visitor_try_send
  on_visit store v e handled = done (store, record v { has_ok = true })
  on_visit store v e visited_none = done (store, record v { extra = some e })
  on_visit store v e (visited addr) =
      let (v', copy) = take_extra v e in visitor_try_send store v' addr copy
  on_visit store v e (visited_last addr) = visitor_try_send store v addr e

  unfoldable pub on_visits :
      Store E → TrySendGroupVisitor E → E → List Visit → Run (Store E × TrySendGroupVisitor E)
  unfolding on_visit
  on_visits store v e [] = done (store, v)
  on_visits store v e (visit ∷ visits) =
      on_visit store v e visit >>= (λ (store', v'). on_visits store' v' e visits)

  -- `Object::try_send` to a group whose supervisor makes the visits.
  unfoldable pub group_try_send : Store E → E → List Visit → Run (Store E × Option (TrySendError E))
  unfolding on_visits visitor_finish
  group_try_send store e visits =
      on_visits store visitor_default e visits
      >>= (λ (store', v). visitor_finish v >>= (λ result. done (store', result)))
