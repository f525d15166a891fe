-- ===== src/Store/Tables.antt =====
-- The tables of the store, its transactions, and the statements that its operations share.
-- A transaction runs on a database and either commits the new one or fails and rolls back. The rows
-- of a case are found by its primary key; a failure of the database itself is not modelled.
use razorpay_ai_revenue_reco.Base.{
  ℕ, suc, String, ◌+◌, Bool, true, false, Option, none, some, List, [], ◌∷◌, str_eq,
}
use razorpay_ai_revenue_reco.Base.Tests.{ltb, if◌then◌else◌}
use razorpay_ai_revenue_reco.Base.Clock.{Time}
use razorpay_ai_revenue_reco.Domain.Actions.{ActionType}
use razorpay_ai_revenue_reco.Domain.States.{CaseState}
use razorpay_ai_revenue_reco.Domain.Events.{EventType, Actor}
use razorpay_ai_revenue_reco.Domain.Entities.{RecoveryCase, PromiseToPay}
use razorpay_ai_revenue_reco.Store.Rows.{
  Review, ApprovedPolicy, PromiseCheck, PromiseEvent, CustomerProfileRow, Response, Attribution,
  Feedback, WebhookRow, LinkReference,
}
use razorpay_ai_revenue_reco.Optimizer.Candidate.{Candidate}
use razorpay_ai_revenue_reco.Gate.{GateResult}
use razorpay_ai_revenue_reco.Policy.Tally.{PolicyResult}

pub data ScheduleStatus : Type 0 where
  pending claimed executing_ retry_pending observation_pending : ScheduleStatus
  observation_claimed observed failed superseded : ScheduleStatus

-- A row of `scheduled_actions`; `parameters` is left out.
pub record ScheduledAction : Type 0 where
  pub id : String
  pub case_id : String
  pub decision_id : String
  pub policy_evaluation_id : String
  pub recovery_action_id : String
  pub action : ActionType
  pub scheduled_for : Time
  pub status : ScheduleStatus
  pub attempt_count : ℕ
  pub max_attempts : ℕ
  pub idempotency_key : String
  pub case_version_at_schedule : ℕ
  pub next_retry_at : Option Time
  pub lease_owner : Option String
  pub lease_expires_at : Option Time
  pub started_at : Option Time
  pub completed_at : Option Time
  pub failure_reason : Option String

-- A row of `recovery_events`, without its random identifier and its JSON payload.
pub record EventRow : Type 0 where
  pub case_id : String
  pub sequence : ℕ
  pub event_type : EventType
  pub occurred_at : Time
  pub actor : Actor
  pub correlation_id : String

-- A row of `recovery_actions`.
pub data ActionStatus : Type 0 where
  action_scheduled_ action_executed_ action_failed_ : ActionStatus

pub record ActionRow : Type 0 where
  pub id : String
  pub case_id : String
  pub action_type : ActionType
  pub status : ActionStatus
  pub idempotency_key : String
  pub scheduled_at : Time
  pub updated_at : Time

pub data ExecutionStatus : Type 0 where
  succeeded outcome_pending execution_failed : ExecutionStatus

-- A row of `executions`.
pub record ExecutionRow : Type 0 where
  pub id : String
  pub case_id : String
  pub action_id : String
  pub attempt : ℕ
  pub status : ExecutionStatus
  pub provider_reference : String
  pub completed_at : Time
  pub scheduled_action_id : String
  pub idempotency_key : String
  pub failure_class : String
  pub retryable : Bool

-- What one decision leaves in the decision tables.
pub record Snapshot : Type 0 where
  pub decision_id : String
  pub case_id : String
  pub case_version : ℕ
  pub selected : Candidate
  pub candidates : List Candidate
  pub gate : GateResult
  pub policy : PolicyResult
  pub created_at : Time
  pub optimizer_version : String

pub record Database : Type 0 where
  pub cases : String → Option RecoveryCase
  pub schedules : List ScheduledAction
  pub actions : List ActionRow
  pub executions : List ExecutionRow
  -- newest first
  pub events : List EventRow
  pub decisions : List Snapshot
  -- the latest version of a merchant's policies
  pub merchant_policies : String → Option ℕ
  pub reviews : List Review
  pub approvals : List ApprovedPolicy
  pub promises : List PromiseToPay
  pub promise_checks : List PromiseCheck
  pub promise_events : List PromiseEvent
  pub profiles : List CustomerProfileRow
  pub responses : List Response
  pub opted_out : String → Bool
  pub attributions : List Attribution
  pub feedback : List Feedback
  pub webhooks : List WebhookRow
  -- newest first
  pub references : List LinkReference

pub data StoreError : Type 0 where
  not_found conflict no_rows no_due_work no_due_observation : StoreError
  blocked_decision invalid_configured_transition duplicate_key : StoreError
  not_reviewable no_due_promise invalid_promise_transition invalid_outcome : StoreError
  case_terminal : StoreError

pub data Result {ℓ} (A : Type ℓ) : Type ℓ where
  ok : A → Result A
  err : StoreError → Result A

-- A transaction; `err` rolls back.
abbrev pub Tx : Type 0 → Type 0
Tx A = Database → Result (A × Database)

abbrev pub on_ok : {A B : Type 0} → (A → Tx B) → Result (A × Database) → Result (B × Database)
on_ok f (err e) = err e
on_ok f (ok (a, db)) = f a db

infixr 5 ◌>>=◌ ◌>>◌
abbrev pub ◌>>=◌ : {A B : Type 0} → Tx A → (A → Tx B) → Tx B
◌>>=◌ m f db = on_ok f (m db)

abbrev pub ◌>>◌ : {B : Type 0} → Tx (Unit {0}) → Tx B → Tx B
◌>>◌ m k = m >>= λ u. k

abbrev pub pure : {A : Type 0} → A → Tx A
pure a db = ok (a, db)

abbrev pub fail : {A : Type 0} → StoreError → Tx A
fail e db = err e

abbrev pub demand : Bool → StoreError → Tx (Unit {0})
demand true e db = ok (tt, db)
demand false e db = err e

-- What is left after the transaction: the committed database, or the old one.
abbrev pub after_tx : {A : Type 0} → Database → Result (A × Database) → Database
after_tx db (ok (a, db')) = db'
after_tx db (err e) = db

abbrev pub or_missing : Option RecoveryCase → Tx RecoveryCase
or_missing none db = err not_found
or_missing (some c) db = ok (c, db)

-- `SELECT … FROM recovery_cases WHERE id=$1 FOR UPDATE`
abbrev pub lock_case : String → Tx RecoveryCase
lock_case id db = or_missing (db.cases id) db

abbrev pub or_no_rows : Option RecoveryCase → Tx RecoveryCase
or_no_rows none db = err no_rows
or_no_rows (some c) db = ok (c, db)

-- The same query where the source passes the driver's own error on.
unfoldable pub lock_row : String → Tx RecoveryCase
lock_row id db = or_no_rows (db.cases id) db

-- `UPDATE recovery_cases SET … WHERE id=$1`, for the row that the transaction has locked.
abbrev pub put_case : String → RecoveryCase → Tx (Unit {0})
put_case id c db = ok (tt, record db { cases = λ j. if str_eq j id then some c else db.cases j })

abbrev pub updated : String → (RecoveryCase → RecoveryCase) → Option RecoveryCase → Tx (Unit {0})
updated id f none db = ok (tt, db)
updated id f (some c) db = put_case id (f c) db

-- `UPDATE recovery_cases SET … WHERE id=$1`; the number of rows is not read.
unfoldable pub update_case : String → (RecoveryCase → RecoveryCase) → Tx (Unit {0})
update_case id f db = updated id f (db.cases id) db

abbrev pub updated_if :
    String
    → (RecoveryCase → Bool)
    → (RecoveryCase → RecoveryCase)
    → Option RecoveryCase
    → Tx (Unit {0})
updated_if id p f none db = err conflict
updated_if id p f (some c) db = if p c then put_case id (f c) db else err conflict

-- `UPDATE recovery_cases SET … WHERE id=$1 AND …`, and a conflict unless one row is affected.
unfoldable pub update_case_if :
    String → (RecoveryCase → Bool) → (RecoveryCase → RecoveryCase) → Tx (Unit {0})
update_case_if id p f db = updated_if id p f (db.cases id) db

-- `current_state=$to, version=version+1, updated_at=$now`
unfoldable pub move : CaseState → Time → RecoveryCase → RecoveryCase
move to now c = record c { current_state = to; version = c.version + 1; updated_at = now }

-- `SELECT MAX(sequence) FROM recovery_events WHERE case_id=$1`, or 0.
unfoldable pub last_sequence : String → List EventRow → ℕ
last_sequence id [] = 0
last_sequence id (e ∷ es) =
    let rest = last_sequence id es in
    if str_eq e.case_id id then (if ltb rest e.sequence then e.sequence else rest) else rest

-- An event before its sequence number is known.
pub record Draft : Type 0 where
  pub event_type : EventType
  pub occurred_at : Time
  pub actor : Actor
  pub correlation_id : String

unfoldable pub number : String → ℕ → Draft → EventRow
number id n d = record {
  case_id = id;
  sequence = n;
  event_type = d.event_type;
  occurred_at = d.occurred_at;
  actor = d.actor;
  correlation_id = d.correlation_id;
}

-- `insertEvent` for each draft, numbered from `n` on.
unfoldable pub insert_events : String → ℕ → List Draft → List EventRow → List EventRow
unfolding number
insert_events id n [] es = es
insert_events id n (d ∷ ds) es = insert_events id (suc n) ds (number id n d ∷ es)

-- `insertEvent`, with the sequence number given.
abbrev pub insert_event : String → ℕ → Draft → Tx (Unit {0})
insert_event id n d db = ok (tt, record db { events = insert_events id n (d ∷ []) db.events })

-- `nextSequence`.
abbrev pub next_sequence : String → Tx ℕ
next_sequence id db = ok (suc (last_sequence id db.events), db)

-- `nextSequence`, and then the inserts.
abbrev pub record_events : String → List Draft → Tx (Unit {0})
record_events id ds db =
    ok (tt, record db { events = insert_events id (suc (last_sequence id db.events)) ds db.events })

-- `UPDATE scheduled_actions SET … WHERE id=$1 AND …`
unfoldable pub update_where :
    (ScheduledAction → Bool)
    → (ScheduledAction → ScheduledAction)
    → List ScheduledAction
    → List ScheduledAction
update_where p f [] = []
update_where p f (s ∷ ss) = (if p s then f s else s) ∷ update_where p f ss

abbrev pub update_schedules :
    (ScheduledAction → Bool) → (ScheduledAction → ScheduledAction) → Tx (Unit {0})
update_schedules p f db = ok (tt, record db { schedules = update_where p f db.schedules })

abbrev pub has_id : String → ScheduledAction → Bool
has_id id s = str_eq s.id id

abbrev pub system_actor : String → Actor
system_actor id = record { type_ = "SYSTEM"; id = id }

abbrev pub worker_actor : String → Actor
worker_actor id = record { type_ = "WORKER"; id = id }

abbrev pub draft : EventType → Time → Actor → String → Draft
draft t now actor correlation = record {
  event_type = t;
  occurred_at = now;
  actor = actor;
  correlation_id = correlation;
}
