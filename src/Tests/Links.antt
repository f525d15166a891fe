-- ===== src/Tests/Links.antt =====
-- A payment link for an action of the sample case.
use razorpay_ai_revenue_reco.Base.{◌≡◌, refl, none, some, [], ◌∷◌}
use razorpay_ai_revenue_reco.Base.Int.{pos}
use razorpay_ai_revenue_reco.Domain.Actions.{send_payment_link}
use razorpay_ai_revenue_reco.Domain.States.{waiting_outcome}
use razorpay_ai_revenue_reco.Store.Rows.{PaymentLink}
use razorpay_ai_revenue_reco.Store.Tables.{Database, ActionRow, action_scheduled_}
use razorpay_ai_revenue_reco.Store.PaymentLinks.{
  LinkQuery, action_of, get_payment_link, find_link, resolve_payment_link_case,
}
use razorpay_ai_revenue_reco.Executor.{Request, timed_out}
use razorpay_ai_revenue_reco.Executor.Links.{
  Answer, PaymentLinkRequest, created_link, refused_link, create_link, create_unless, save_created,
  link_request, execute_link,
}
use razorpay_ai_revenue_reco.Executor.Journeys.{create_link-once, resolve-execute_link}
use razorpay_ai_revenue_reco.Tests.Samples.{noon, database}

abbrev action : ActionRow
action = record {
  id = "a-1";
  case_id = "case-1";
  action_type = send_payment_link;
  status = action_scheduled_;
  idempotency_key = "key-1";
  scheduled_at = noon;
  updated_at = noon;
}

abbrev db : Database
db = record (database waiting_outcome) { actions = action ∷ [] }

abbrev link : PaymentLink
link = record { id = "plink-1"; short_url = "u"; status = "created"; reference_id = "s-1" }

abbrev provider : PaymentLinkRequest → Answer
provider q = created_link link

abbrev request : Request
request = record {
  execution_id = "e-1";
  scheduled_action_id = "s-1";
  recovery_action_id = "a-1";
  case_id = "case-1";
  action = send_payment_link;
  idempotency_key = "key-1";
  amount_minor = pos 50000;
  currency = "INR";
  merchant_id = "m-1";
  customer_id = "c-1";
  recipient_reference = "c-1";
  parameters = "{}";
}

abbrev paid : LinkQuery
paid = record {
  link_id = "plink-1";
  reference_id = "";
  case_id = "";
  merchant_id = "";
  customer_id = "";
}

found : action_of "a-1" db.actions ≡ some action
unfolding action_of
found = refl

none_yet : get_payment_link "a-1" db ≡ none
unfolding get_payment_link find_link
none_yet = refl

created : (create_link provider "a-1" (link_request request) db).answer ≡ created_link link
unfolding create_link get_payment_link find_link create_unless save_created
created = refl

create_link-once_example :
    create_link
      (λ q. refused_link timed_out)
      "a-1"
      (link_request request)
      (create_link provider "a-1" (link_request request) db).left
    ≡ record {
      answer = created_link link;
      sent = [];
      left = (create_link provider "a-1" (link_request request) db).left;
    }
create_link-once_example =
    create_link-once provider (λ q. refused_link timed_out) "a-1" (link_request request)
      (link_request request) db action link found created

resolve-execute_link_example :
    resolve_payment_link_case paid (execute_link provider request db).1.left ≡ some "case-1"
resolve-execute_link_example =
    resolve-execute_link provider request db action link paid found none_yet refl refl
