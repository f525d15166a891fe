-- ===== src/Store/Attributions.antt =====
-- The attribution of a payment: `AttributeRecovery` of backend/internal/store/attribution.go. The
-- evidence payload is left out. The windows are the row of `attribution_rule_configs`, if it is
-- there; `spell` writes a category. The overflow of the recovered amount is not modelled.
pub mod Weighing
use razorpay_ai_revenue_reco.Base.{
  ℕ, suc, String, ◌+◌, ◌*◌, Bool, true, false, ◌&&◌, ◌||◌, not, Option, none, some, List, [], ◌∷◌,
  ◌++◌, str_eq,
}
use razorpay_ai_revenue_reco.Base.Tests.{◌==◌, ltb, leb, if◌then◌else◌}
use razorpay_ai_revenue_reco.Base.Lists.{any, find_first}
use razorpay_ai_revenue_reco.Base.Int.{ℤ, ◌+ℤ◌}
use razorpay_ai_revenue_reco.Base.Clock.{Time, minute_ns}
use razorpay_ai_revenue_reco.Domain.Actions.{ActionType, retry_now, retry_later, action_eq}
use razorpay_ai_revenue_reco.Domain.States.{CaseState, recovered, exhausted, stopped, state_eq}
use razorpay_ai_revenue_reco.Domain.Events.{
  EventType, state_transitioned, recovery_attributed, recovery_completed, feedback_recorded,
}
use razorpay_ai_revenue_reco.Domain.Entities.{
  RecoveryCase, PromiseToPay, PromiseStatus, active, fulfilled, is_active,
}
use razorpay_ai_revenue_reco.Store.Rows.{
  Attribution, Category, direct_action_attributed, retry_attributed, ptp_attributed,
  natural_recovery, unknown, EvidenceStrength, insufficient, weak, moderate, strong, Feedback,
}
use razorpay_ai_revenue_reco.Store.Tables.{
  Database, Tx, ok, err, ◌>>=◌, ◌>>◌, pure, fail, demand, lock_case, update_case, record_events,
  draft, system_actor, Draft, case_terminal, no_rows, ExecutionRow, ExecutionStatus, succeeded,
  outcome_pending, ActionRow, Snapshot,
}
use razorpay_ai_revenue_reco.Store.Promises.Outcomes.{transition_promise_tx}
use razorpay_ai_revenue_reco.Store.Attributions.Weighing.{
  ObserveInput, Windows, Match, Finding, Weighed, weighed, dropped, weigh, gather, of_exact,
}

later_snapshot : Snapshot → Option Snapshot → Snapshot
later_snapshot s none = s
later_snapshot s (some t) = if ltb s.created_at t.created_at then t else s

-- `ORDER BY created_at DESC LIMIT 1`
unfoldable pub latest_decision : String → Time → List Snapshot → Option Snapshot
unfolding later_snapshot
latest_decision id observed [] = none
latest_decision id observed (s ∷ ss) =
    let rest = latest_decision id observed ss in
    if str_eq s.case_id id && leb s.created_at observed then some (later_snapshot s rest) else rest

map_id : {A : Type 0} → (A → String) → Option A → Option String
map_id f none = none
map_id f (some a) = some (f a)

unfoldable pub attribution_row : String → ObserveInput → Finding → Option Snapshot → Attribution
unfolding map_id
attribution_row id i f d = record {
  id = id;
  case_id = i.case_id;
  recovered_amount_minor = i.recovered_amount_minor;
  payment_reference = i.payment_reference;
  category = f.category;
  decision_id = map_id (λ s. s.decision_id) d;
  action_id = map_id (λ m. m.action.id) f.match_;
  execution_id = map_id (λ m. m.execution.id) f.match_;
  promise_id = map_id (λ p. p.id) f.promise;
  evidence_strength = f.strength;
  observed_at = i.observed_at;
}

abbrev pub add_attribution : Attribution → Tx (Unit {0})
add_attribution a db = ok (tt, record db { attributions = a ∷ db.attributions })

abbrev pub add_feedback : Feedback → Tx (Unit {0})
add_feedback f db = ok (tt, record db { feedback = f ∷ db.feedback })

-- An active promise that the payment keeps is fulfilled.
unfoldable pub fulfil_if : Option PromiseToPay → ObserveInput → Tx (Unit {0})
fulfil_if none i = pure tt
fulfil_if (some p) i =
    if is_active p.status
    then (transition_promise_tx p fulfilled "ATTRIBUTED_PAYMENT" i.correlation_id
          i.payment_reference i.observed_at
        >>= λ q. pure tt)
    else pure tt

unfoldable pub recover : ObserveInput → String → RecoveryCase → RecoveryCase
recover i status c = record c {
  current_state = recovered;
  recovered_amount_minor = c.recovered_amount_minor +ℤ i.recovered_amount_minor;
  attribution_status = status;
  version = suc c.version;
  updated_at = i.observed_at;
}

is_unknown : Category → Bool
is_unknown unknown = true
is_unknown _ = false

unfoldable pub feedback_row : Snapshot → Attribution → Feedback
unfolding is_unknown
feedback_row d a = record {
  case_id = a.case_id;
  decision_id = d.decision_id;
  execution_id = a.execution_id;
  attribution_id = a.id;
  recovered_amount_minor = a.recovered_amount_minor;
  training_eligible = not (is_unknown a.category);
}

unfoldable pub feedback_with : Bool → Snapshot → Attribution → Tx Bool
feedback_with true d a = add_feedback (feedback_row d a) >> pure true
feedback_with false d a = pure false

-- `insertFeedbackForAttribution`: no row where the selected action is not among the candidates.
unfoldable pub feedback_if : Option Snapshot → Attribution → Tx Bool
unfolding feedback_with
feedback_if none a = pure false
feedback_if (some d) a =
    feedback_with (any (λ c. action_eq c.action d.selected.action) d.candidates) d a

unfoldable pub attribution_events : Bool → ObserveInput → List Draft
attribution_events with_feedback i =
    event state_transitioned
    ∷ event recovery_attributed
    ∷ event recovery_completed
    ∷ (if with_feedback then event feedback_recorded ∷ [] else [])
  where
    event : EventType → Draft
    event t = draft t i.observed_at (system_actor "attribution-engine-v1") i.correlation_id

unfoldable pub write_attribution :
    (Category → String)
    → String
    → ObserveInput
    → Finding
    → Option Snapshot
    → Tx (Attribution × Bool)
write_attribution spell id i f d =
    let a = attribution_row id i f d in
    add_attribution a
    >> fulfil_if f.promise i
    >> update_case i.case_id (recover i (spell f.category))
    >> feedback_if d a
    >>= λ with_feedback.
        record_events i.case_id (attribution_events with_feedback i) >> pure (a, true)

-- The early return gives the record so far, as not created, and no error.
unfoldable pub write_finding :
    (Category → String) → String → ObserveInput → Weighed → Tx (Attribution × Bool)
write_finding spell id i (dropped m) db = ok ((attribution_row id i (of_exact m) none, false), db)
write_finding spell id i (weighed f) db =
    write_attribution spell id i f (latest_decision i.case_id i.observed_at db.decisions) db

unfoldable pub attribute_new :
    (Category → String) → String → ObserveInput → Option Windows → Tx (Attribution × Bool)
attribute_new spell id i none db = err no_rows
attribute_new spell id i (some w) db =
    let e = gather i w db in write_finding spell id i (weigh e.exact e.promise e) db

unfoldable pub attribute_unless :
    (Category → String)
    → String
    → ObserveInput
    → Option Windows
    → Option Attribution
    → Tx (Attribution × Bool)
attribute_unless spell id i w (some a) = pure (a, false)
attribute_unless spell id i w none = attribute_new spell id i w

unfoldable pub find_attribution : String → String → List Attribution → Option Attribution
find_attribution case_id ref as_ =
    find_first (λ a. str_eq a.case_id case_id && str_eq a.payment_reference ref) as_

unfoldable pub has_ended : CaseState → Bool
unfolding state_eq
has_ended s = state_eq s recovered || state_eq s exhausted || state_eq s stopped

-- For the row that the transaction has locked.
unfoldable pub attribute_at :
    (Category → String)
    → String
    → ObserveInput
    → Option Windows
    → RecoveryCase
    → Tx (Attribution × Bool)
attribute_at spell id i w c db =
    (demand (not (has_ended c.current_state)) case_terminal
        >> attribute_unless spell id i w
            (find_attribution i.case_id i.payment_reference db.attributions))
      db

-- `AttributeRecovery`; the flag tells whether the attribution is new.
unfoldable pub attribute_recovery :
    (Category → String) → String → ObserveInput → Option Windows → Tx (Attribution × Bool)
attribute_recovery spell id i w = lock_case i.case_id >>= attribute_at spell id i w
