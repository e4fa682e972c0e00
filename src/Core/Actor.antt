-- ===== src/Core/Actor.antt =====
-- elfo-core/src/actor.rs: an actor with its mailbox and status. Which envelopes are a `Terminate`, with
-- `closing`, and the trace id of the scope are arguments. Metrics, logging and reports to subscribers
-- are left out. The texts of statuses are numbers.
use elfo.Base.{
  ℕ, Bool, true, false, ◌||◌, ◌&&◌, ◌==◌, Option, none, some, if◌then◌else◌, Run, done, ◌>>=◌,
}
use elfo.Core.Mailbox
use elfo.Core.Mailbox.{Mailbox, SendResult, sent}
use elfo.Core.Restarting.{
  ActorStatusKind, normal, initializing, terminating, terminated, alarming, failed,
}

pub record ActorStatus : Type 0 where
  pub kind : ActorStatusKind
  pub details : Option ℕ

abbrev pub kind_no : ActorStatusKind → ℕ
kind_no normal = 0
kind_no initializing = 1
kind_no terminating = 2
kind_no terminated = 3
kind_no alarming = 4
kind_no failed = 5

abbrev pub same_details : Option ℕ → Option ℕ → Bool
same_details none none = true
same_details (some d) (some d') = d == d'
same_details d d' = false

abbrev pub same_status : ActorStatus → ActorStatus → Bool
same_status s t = kind_no s.kind == kind_no t.kind && same_details s.details t.details

pub record MailActor (E : Type 0) : Type 0 where
  pub mailbox : Mailbox E
  pub status_kind : ActorStatusKind
  pub status : ActorStatus
  pub close_mailbox : Bool
  pub capacity_config : ℕ
  pub capacity_override : Option ℕ
  pub finished : Bool

abbrev pub is_finished : ActorStatusKind → Bool
is_finished terminated = true
is_finished failed = true
is_finished other = false

abbrev pub unwrap_capacity : Option ℕ → ℕ → ℕ
unwrap_capacity none n = n
unwrap_capacity (some m) n = m

module _ {E : Type 0} (max_permits : ℕ) where
  unfoldable pub new_actor : ℕ → Bool → MailActor E
  new_actor capacity close_mailbox = record {
    mailbox = Mailbox.new max_permits capacity;
    status_kind = initializing;
    status = record { kind = initializing; details = none };
    close_mailbox = close_mailbox;
    capacity_config = capacity;
    capacity_override = none;
    finished = false;
  }

  unfoldable pub update_mailbox_capacity : MailActor E → Run (MailActor E)
  update_mailbox_capacity a =
      Mailbox.set_capacity max_permits a.mailbox
        (unwrap_capacity a.capacity_override a.capacity_config)
      >>= (λ m. done (record a { mailbox = m }))

  unfoldable pub set_mailbox_capacity_config : MailActor E → ℕ → Run (MailActor E)
  unfolding update_mailbox_capacity
  set_mailbox_capacity_config a capacity =
      update_mailbox_capacity (record a { capacity_config = capacity })

  unfoldable pub set_mailbox_capacity_override : MailActor E → Option ℕ → Run (MailActor E)
  unfolding update_mailbox_capacity
  set_mailbox_capacity_override a capacity =
      update_mailbox_capacity (record a { capacity_override = capacity })

module _ {E : Type 0} where
  abbrev pub finish_if : Bool → MailActor E → ℕ → MailActor E
  finish_if false a t = a
  finish_if true a t = record a {
    mailbox = (Mailbox.close_and_try_drain a.mailbox t).0;
    finished = true;
  }

  -- Another status, and whether it is sent to the subscribers.
  unfoldable pub set_status : MailActor E → ActorStatus → ℕ → MailActor E × Bool
  set_status a status t =
      if same_status status a.status
      then (record a { status_kind = status.kind; status = status }, false)
      else (
        finish_if (is_finished status.kind)
            (record a { status_kind = status.kind; status = status }) t,
        true,
      )

module _ {E : Type 0} (as_terminate : E → Option Bool) where
  abbrev pub close_if : MailActor E → ℕ → E → Bool → MailActor E × Option E
  close_if a t e false = (a, some e)
  close_if a t e true =
      let (m, newly) = Mailbox.close a.mailbox t in
      (record a { mailbox = m }, (if newly then none else some e))

  abbrev pub wants_close : MailActor E → Option Bool → Bool
  wants_close a none = false
  wants_close a (some closing) = closing || a.close_mailbox

  -- The envelope that goes on to the mailbox; the first `Terminate` that closes it does not.
  unfoldable pub handle_system : MailActor E → ℕ → E → MailActor E × Option E
  handle_system a t e = close_if a t e (wants_close a (as_terminate e))

  abbrev pub forward :
      (Mailbox E → E → Mailbox E × SendResult) → MailActor E × Option E → MailActor E × SendResult
  forward send (a, none) = (a, sent)
  forward send (a, some e) =
      let (m, result) = send a.mailbox e in (record a { mailbox = m }, result)

  unfoldable pub actor_try_send : MailActor E → ℕ → E → MailActor E × SendResult
  unfolding handle_system
  actor_try_send a t e = forward Mailbox.try_send (handle_system a t e)

  unfoldable pub actor_unbounded_send : MailActor E → ℕ → E → MailActor E × SendResult
  unfolding handle_system
  actor_unbounded_send a t e = forward Mailbox.unbounded_send (handle_system a t e)
