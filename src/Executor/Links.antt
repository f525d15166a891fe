-- ===== src/Executor/Links.antt =====
-- The creation of a payment link for an action: `PaymentLinkExecutor` of
-- backend/internal/integrations/razorpay/client.go and of backend/internal/executor/executor.go.
-- The provider's answer to a request is an argument, and the requests sent are recorded.
use razorpay_ai_revenue_reco.Base.{String, false, Option, none, some, List, [], ◌∷◌}
use razorpay_ai_revenue_reco.Base.Int.{ℤ}
use razorpay_ai_revenue_reco.Store.Rows.{PaymentLink}
use razorpay_ai_revenue_reco.Store.Tables.{Database}
use razorpay_ai_revenue_reco.Store.PaymentLinks.{get_payment_link, save_payment_link}
use razorpay_ai_revenue_reco.Store.Execution.{ExecutorResult, result_succeeded}
use razorpay_ai_revenue_reco.Executor.{
  Request, Called, referenced, call_failed, CallError, classified_result,
}

-- `PaymentLinkRequest`, without the fields that are never set here.
pub record PaymentLinkRequest : Type 0 where
  pub amount : ℤ
  pub currency : String
  pub reference_id : String
  pub description : String
  pub notes : List (String × String)

unfoldable pub link_request : Request → PaymentLinkRequest
link_request r = record {
  amount = r.amount_minor;
  currency = r.currency;
  reference_id = r.scheduled_action_id;
  description = "Merchant-approved revenue recovery";
  notes =
      ("merchant_id", r.merchant_id)
      ∷ ("customer_id", r.customer_id)
      ∷ ("recovery_case_id", r.case_id)
      ∷ ("recovery_action_id", r.recovery_action_id)
      ∷ [];
}

-- What the provider answers.
pub data Answer : Type 0 where
  created_link : PaymentLink → Answer
  refused_link : CallError → Answer

pub record LinkReply : Type 0 where
  pub answer : Answer
  pub sent : List PaymentLinkRequest
  pub left : Database

unfoldable pub save_created : String → PaymentLinkRequest → Answer → Database → LinkReply
save_created action_id q (refused_link e) db = record {
  answer = refused_link e;
  sent = q ∷ [];
  left = db;
}
save_created action_id q (created_link l) db = record {
  answer = created_link l;
  sent = q ∷ [];
  left = save_payment_link action_id l db;
}

unfoldable pub create_unless :
    (PaymentLinkRequest → Answer)
    → String
    → PaymentLinkRequest
    → Option PaymentLink
    → Database
    → LinkReply
unfolding save_created
create_unless provider action_id q (some l) db = record {
  answer = created_link l;
  sent = [];
  left = db;
}
create_unless provider action_id q none db = save_created action_id q (provider q) db

-- `PaymentLinkExecutor.Execute` of client.go
unfoldable pub create_link :
    (PaymentLinkRequest → Answer) → String → PaymentLinkRequest → Database → LinkReply
create_link provider action_id q db =
    create_unless provider action_id q (get_payment_link action_id db) db

unfoldable pub answered : Answer → Called
answered (created_link l) = referenced l.id
answered (refused_link e) = call_failed e

-- `PaymentLinkExecutor.Execute` of executor.go: the result, with the reply that it is made from.
unfoldable pub execute_link :
    (PaymentLinkRequest → Answer) → Request → Database → ExecutorResult × LinkReply
unfolding answered
execute_link provider r db =
    let reply = create_link provider r.recovery_action_id (link_request r) db in
    (classified_result r (answered reply.answer), reply)

-- `PaymentLinkExecutor.Reconcile` of client.go; `none` is its error.
unfoldable pub fetch_known : (String → Option PaymentLink) → Option PaymentLink → Option PaymentLink
fetch_known fetch none = none
fetch_known fetch (some l) = fetch l.id

unfoldable pub reconcile_link :
    (String → Option PaymentLink) → String → Database → Option PaymentLink
reconcile_link fetch action_id db = fetch_known fetch (get_payment_link action_id db)

reconciled : Option PaymentLink → Option ExecutorResult
reconciled none = none
reconciled (some l) = some (record {
  execution_id = "";
  status = result_succeeded;
  provider_reference = l.id;
  failure_class = "";
  retryable = false;
})

-- `PaymentLinkExecutor.Reconcile` of executor.go
unfoldable pub reconcile_executed :
    (String → Option PaymentLink) → String → Database → Option ExecutorResult
unfolding reconciled
reconcile_executed fetch action_id db = reconciled (reconcile_link fetch action_id db)
