-- ===== src/Recovery.antt =====
-- The recovery service: backend/internal/recovery/service.go. Its reads and its writes are separate
-- transactions, so `transition` reads one database and writes to a later one. The string functions
-- of Go's library and `id.New` are arguments; payloads are left out.
pub mod Interleaving
pub mod Commits
pub mod Runs
use razorpay_ai_revenue_reco.Base.{
  ℕ, zero, suc, String, ◌≡◌, ◌≢◌, refl, Bool, true, false, ◌&&◌, ◌||◌, not, Option, none, some,
  List, [], ◌∷◌, str_eq,
}
use razorpay_ai_revenue_reco.Base.Tests.{◌==◌, if◌then◌else◌}
use razorpay_ai_revenue_reco.Base.Int.{ℤ, pos, negsuc, leb_ℤ}
use razorpay_ai_revenue_reco.Base.Clock.{Time, after}
use razorpay_ai_revenue_reco.Domain.States.{
  CaseState, detected, TransitionError, validate_transition,
}
use razorpay_ai_revenue_reco.Domain.Events.{
  EventType, Actor, event_is_valid, event_for_transition, case_created, state_transitioned,
  revenue_risk_detected,
}
use razorpay_ai_revenue_reco.Domain.Entities.{
  RecoveryCase, LeakType, failed_subscription, checkout_abandonment, other_leak, RawJson,
}
use razorpay_ai_revenue_reco.Store.Tables.{Database, StoreError, conflict, Result, ok, err, Draft}
use razorpay_ai_revenue_reco.Store.Cases.{get_case, transition_case, append_event, create_case}

-- What the service returns: a value, or one of its errors.
pub data Failure : Type 0 where
  store_failed : StoreError → Failure
  not_allowed : TransitionError → Failure
  bad_leak_type missing_fields bad_amount past_deadline bad_event_type : Failure

pub data Reply {ℓ} (A : Type ℓ) : Type ℓ where
  done : A → Reply A
  refused : Failure → Reply A

abbrev pub from_store : {A : Type 0} → Result (A × Database) → Reply (A × Database)
from_store (ok r) = done r
from_store (err e) = refused (store_failed e)

unfoldable pub normalize_actor : Actor → Actor
normalize_actor a = record {
  type_ = if str_eq a.type_ "" then "SYSTEM" else a.type_;
  id = if str_eq a.id "" then "recovery-engine" else a.id;
}

pub record TransitionInput : Type 0 where
  pub to_state : CaseState
  pub expected_version : ℕ
  pub actor : Actor
  pub correlation_id : String

or_fresh : String → String → String
or_fresh fresh s = if str_eq s "" then fresh else s

unfoldable pub transition_event : TransitionInput → String → Time → Draft
unfolding or_fresh
transition_event i fresh now = record {
  event_type = event_for_transition i.to_state;
  occurred_at = now;
  actor = normalize_actor i.actor;
  correlation_id = or_fresh fresh i.correlation_id;
}

validated : Option TransitionError → Option Failure
validated none = none
validated (some e) = some (not_allowed e)

-- The two checks of `Transition`; `none` lets the write go on.
unfoldable pub refusal_of : TransitionInput → RecoveryCase → Option Failure
unfolding validated
refusal_of i c =
    if not (i.expected_version == 0) && not (i.expected_version == c.version)
    then some (store_failed conflict)
    else validated (validate_transition c.current_state i.to_state)

unfoldable pub write_transition :
    Option Failure
    → String
    → ℕ
    → TransitionInput
    → Draft
    → Database
    → Reply (RecoveryCase × Database)
write_transition (some f) id version i event db = refused f
write_transition none id version i event db =
    from_store (transition_case id version i.to_state event db)

unfoldable pub transition_from :
    Result (RecoveryCase × Database)
    → String
    → TransitionInput
    → Draft
    → Database
    → Reply (RecoveryCase × Database)
unfolding write_transition
transition_from (err e) id i event db = refused (store_failed e)
transition_from (ok (c, read)) id i event db =
    write_transition (refusal_of i c) id c.version i event db

-- `Transition`, with its read at `before` and its write at `db`.
unfoldable pub transition :
    TransitionInput → String → Time → String → Database → Database → Reply (RecoveryCase × Database)
unfolding transition_from transition_event
transition i fresh now id before db =
    transition_from (get_case id before) id i (transition_event i fresh now) db

unfoldable pub may_record : EventType → Bool
may_record case_created = false
may_record state_transitioned = false
may_record t = event_is_valid t

-- The functions of Go's `strings` and `encoding/json` that `CreateCase` calls, and `len`.
pub record Texts : Type 0 where
  pub trim_space : String → String
  pub to_upper : String → String
  pub byte_length : String → ℕ
  pub is_json : RawJson → Bool

pub record CreateCaseInput : Type 0 where
  pub leak_type : LeakType
  pub merchant_id : String
  pub customer_id : String
  pub amount_at_risk_minor : ℤ
  pub currency : String
  pub source_reference : String
  pub source_status : String
  pub failure_or_leak_context : RawJson
  pub customer_context_snapshot : RawJson
  pub merchant_policy_snapshot : RawJson
  pub recovery_deadline : Time
  pub actor : Actor
  pub correlation_id : String

unfoldable pub json_object : Texts → RawJson → RawJson
json_object t v = if str_eq v "" || not (t.is_json v) then "{}" else v

is_listed : LeakType → Bool
is_listed (other_leak s) = false
is_listed _ = true

-- The checks of `CreateCase`, in their order.
unfoldable pub input_refusal : Texts → CreateCaseInput → Time → Option Failure
unfolding is_listed
input_refusal t i now =
    if not (is_listed i.leak_type)
    then some bad_leak_type
    else if str_eq i.merchant_id ""
        || str_eq i.customer_id ""
        || str_eq (t.trim_space i.source_reference) ""
    then some missing_fields
    else if leb_ℤ i.amount_at_risk_minor (pos 0) || not (t.byte_length i.currency == 3)
    then some bad_amount
    else if not (after i.recovery_deadline now)
    then some past_deadline
    else none

unfoldable pub new_case : Texts → CreateCaseInput → String → Time → RecoveryCase
new_case t i id now = record {
  id = id;
  leak_type = i.leak_type;
  merchant_id = i.merchant_id;
  customer_id = i.customer_id;
  amount_at_risk_minor = i.amount_at_risk_minor;
  currency = t.to_upper i.currency;
  source_reference = i.source_reference;
  source_status = i.source_status;
  failure_or_leak_context = json_object t i.failure_or_leak_context;
  customer_context_snapshot = json_object t i.customer_context_snapshot;
  merchant_policy_snapshot = json_object t i.merchant_policy_snapshot;
  current_state = detected;
  recovery_deadline = i.recovery_deadline;
  recovered_amount_minor = pos 0;
  attribution_status = "PENDING";
  version = 1;
  created_at = now;
  updated_at = now;
}

unfoldable pub first_events : CreateCaseInput → String → Time → List Draft
unfolding or_fresh
first_events i fresh now = event revenue_risk_detected ∷ event case_created ∷ []
  where
    event : EventType → Draft
    event t = record {
      event_type = t;
      occurred_at = now;
      actor = normalize_actor i.actor;
      correlation_id = or_fresh fresh i.correlation_id;
    }

with_case : RecoveryCase → Result (Unit {0} × Database) → Reply (RecoveryCase × Database)
with_case c (ok (u, db)) = done (c, db)
with_case c (err e) = refused (store_failed e)

store_new : Option Failure → RecoveryCase → List Draft → Database → Reply (RecoveryCase × Database)
unfolding with_case
store_new (some f) c events db = refused f
store_new none c events db = with_case c (create_case c events db)

-- `CreateCase` of the service.
unfoldable pub open_case :
    Texts → CreateCaseInput → String → String → Time → Database → Reply (RecoveryCase × Database)
unfolding store_new
open_case t i fresh id now db =
    store_new (input_refusal t i now) (new_case t i id now) (first_events i fresh now) db

recorded : Result (Unit {0} × Database) → Reply (Unit {0} × Database)
recorded (ok r) = done r
recorded (err e) = refused (store_failed e)

-- `RecordEvent`, without the read that looks for the case before `append_event` does.
unfoldable pub record_event : String → Draft → Database → Reply (Unit {0} × Database)
unfolding recorded
record_event id event db =
    if may_record event.event_type
    then recorded (append_event id event db)
    else refused bad_event_type
