-- ===== src/Operations.antt =====
-- The review of escalated cases: `Review` of backend/internal/operations/service.go.
pub mod Approval
pub mod Lifecycle
pub mod Guards
pub mod Queue
pub mod Repeats
pub mod Authority
use razorpay_ai_revenue_reco.Base.{
  String, ◌≡◌, refl, Bool, true, false, ◌&&◌, ◌||◌, not, Option, none, some, str_eq, [], ◌∷◌,
}
use razorpay_ai_revenue_reco.Base.Tests.{if◌then◌else◌}
use razorpay_ai_revenue_reco.Base.Clock.{Time, after}
use razorpay_ai_revenue_reco.Domain.Entities.{RawJson}
use razorpay_ai_revenue_reco.Context.{DecisionContext, Platform}
use razorpay_ai_revenue_reco.Policy.Rules.{human_review_not_required}
use razorpay_ai_revenue_reco.Policy.Tally.{PolicyResult, evaluate, approve}
use razorpay_ai_revenue_reco.Store.Rows.{ReviewDecision, review_approve, review_defer, other_review}
use razorpay_ai_revenue_reco.Store.Tables.{Database, StoreError, Result, ok, err}
use razorpay_ai_revenue_reco.Store.Reviews.{ReviewIds, Applied, is_approval, apply_human_review}
use razorpay_ai_revenue_reco.Operations.Approval.{QueueItem, ReviewInput}

pub data ReviewError : Type 0 where
  bad_decision missing_fields bad_actor_type bad_review_after no_item no_context : ReviewError
  store_error : StoreError → ReviewError

-- What the service calls: the queue's query and the decision context of a case, and the functions of
-- Go's library.
pub record Desk : Type 0 where
  pub platform : Platform
  pub trim_space : String → String
  pub is_json : RawJson → Bool
  pub item_of : String → Database → Option QueueItem
  pub context_of : String → Database → Option DecisionContext

is_known : ReviewDecision → Bool
is_known (other_review s) = false
is_known _ = true

is_defer : ReviewDecision → Bool
is_defer review_defer = true
is_defer _ = false

is_past : Option Time → Time → Bool
is_past none now = true
is_past (some t) now = not (after t now)

-- The checks of the input, in their order.
unfoldable pub review_refusal : Desk → ReviewInput → Time → Option ReviewError
unfolding is_known is_defer is_past
review_refusal desk i now =
    if not (is_known i.decision)
    then some bad_decision
    else if str_eq (desk.trim_space i.operator_id) ""
        || str_eq (desk.trim_space i.reason_code) ""
        || str_eq (desk.trim_space i.idempotency_key) ""
    then some missing_fields
    else if not (str_eq i.actor_type "OPERATOR")
        && not (str_eq i.actor_type "SUPERVISOR")
        && not (str_eq i.actor_type "SYSTEM_TEST")
    then some bad_actor_type
    else if is_defer i.decision && is_past i.review_after now
    then some bad_review_after
    else none

-- The policy result that stands where no approval is asked for.
placeholder : QueueItem → Time → PolicyResult
placeholder item now = record {
  id = "";
  decision_id = "";
  economic_gate_id = "";
  case_id = "";
  case_version = 0;
  selected_action = item.recommended_action;
  policy_version = "";
  decision = approve;
  reason_codes = human_review_not_required ∷ [];
  checks = [];
  created_at = now;
}

unfoldable pub fresh_policy :
    Desk → QueueItem → Bool → Option DecisionContext → Time → Option PolicyResult
unfolding placeholder
fresh_policy desk item false ctx now = some (placeholder item now)
fresh_policy desk item true none now = none
fresh_policy desk item true (some ctx) now =
    some
      (evaluate desk.platform ctx item.decision_id ctx.case_.version item.candidate item.gate now)

pub data ReviewReply : Type 0 where
  reviewed : Applied → Database → ReviewReply
  review_refused : ReviewError → ReviewReply

unfoldable pub applied : Result (Applied × Database) → ReviewReply
applied (ok (a, db)) = reviewed a db
applied (err e) = review_refused (store_error e)

unfoldable pub apply_with :
    Desk → ReviewIds → QueueItem → ReviewInput → Option PolicyResult → Time → Database → ReviewReply
unfolding applied
apply_with desk ids item i none now db = review_refused no_context
apply_with desk ids item i (some fresh) now db = applied (
    apply_human_review desk.is_json ids
      (record { item = item; input = i; fresh_policy = fresh; now = now }) db)

unfoldable pub review_item :
    Desk → ReviewIds → String → ReviewInput → Option QueueItem → Time → Database → ReviewReply
unfolding apply_with
review_item desk ids id i none now db = review_refused no_item
review_item desk ids id i (some item) now db =
    apply_with desk ids item i
      (fresh_policy desk item (is_approval i.decision) (desk.context_of id db) now) now db

unfoldable pub checked_review :
    Option ReviewError → Desk → ReviewIds → String → ReviewInput → Time → Database → ReviewReply
unfolding review_item
checked_review (some e) desk ids id i now db = review_refused e
checked_review none desk ids id i now db = review_item desk ids id i (desk.item_of id db) now db

-- `Review`, which reads the clock once here.
unfoldable pub review : Desk → ReviewIds → String → ReviewInput → Time → Database → ReviewReply
unfolding checked_review
review desk ids id i now db = checked_review (review_refusal desk i now) desk ids id i now db
