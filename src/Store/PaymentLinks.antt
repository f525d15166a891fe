-- ===== src/Store/PaymentLinks.antt =====
-- The links that were created at the provider, and the case of a paid link: `GetPaymentLink`,
-- `SavePaymentLink` and `ResolvePaymentLinkCase` of backend/internal/store/integrations.go.
use razorpay_ai_revenue_reco.Base.{
  String, Bool, false, ◌&&◌, ◌||◌, Option, none, some, List, [], ◌∷◌, str_eq,
}
use razorpay_ai_revenue_reco.Base.Tests.{if◌then◌else◌}
use razorpay_ai_revenue_reco.Base.Lists.{any, find_first}
use razorpay_ai_revenue_reco.Domain.Entities.{RecoveryCase}
use razorpay_ai_revenue_reco.Store.Rows.{PaymentLink, LinkReference}
use razorpay_ai_revenue_reco.Store.Tables.{Database, ActionRow, ScheduledAction, has_id}

unfoldable pub action_of : String → List ActionRow → Option ActionRow
action_of id [] = none
action_of id (a ∷ as_) = let rest = action_of id as_ in if str_eq a.id id then some a else rest

-- `r.action_id=$1 OR a.idempotency_key=$1`, for the joined action.
unfoldable pub names_link : String → LinkReference → Option ActionRow → Bool
names_link key r none = false
names_link key r (some a) = str_eq r.action_id key || str_eq a.idempotency_key key

unfoldable pub find_link : String → List ActionRow → List LinkReference → Option PaymentLink
unfolding names_link
find_link key as_ [] = none
find_link key as_ (r ∷ rs) =
    let rest = find_link key as_ rs in
    if names_link key r (action_of r.action_id as_) then some r.response else rest

-- `GetPaymentLink`
unfoldable pub get_payment_link : String → Database → Option PaymentLink
get_payment_link key db = find_link key db.actions db.references

-- `SavePaymentLink`: `ON CONFLICT(action_id,provider,operation) DO NOTHING`. The action is there, as
-- the foreign key asks.
unfoldable pub save_payment_link : String → PaymentLink → Database → Database
save_payment_link action_id l db =
    if any (λ r. str_eq r.action_id action_id) db.references then db else record db {
      references =
          record { action_id = action_id; provider_reference = l.id; response = l } ∷ db.references;
    }

-- What is known of a paid link: its identifier and reference, and what its notes say.
pub record LinkQuery : Type 0 where
  pub link_id : String
  pub reference_id : String
  pub case_id : String
  pub merchant_id : String
  pub customer_id : String

unfoldable pub case_of_action : Option ActionRow → Option String → Option String
case_of_action none rest = rest
case_of_action (some a) rest = some a.case_id

-- The first query: the newest reference of the link whose action is there.
unfoldable pub case_by_reference : String → List ActionRow → List LinkReference → Option String
unfolding case_of_action
case_by_reference link_id as_ [] = none
case_by_reference link_id as_ (r ∷ rs) =
    let rest = case_by_reference link_id as_ rs in
    if str_eq r.provider_reference link_id
    then case_of_action (action_of r.action_id as_) rest
    else rest

case_of_schedule : Option ScheduledAction → Option String
case_of_schedule none = none
case_of_schedule (some s) = some s.case_id

unfoldable pub case_by_schedule : String → List ScheduledAction → Option String
unfolding case_of_schedule
case_by_schedule id ss = if str_eq id "" then none else case_of_schedule (find_first (has_id id) ss)

unfoldable pub agrees : String → String → Bool
agrees note stored = str_eq note "" || str_eq note stored

unfoldable pub checked_case : LinkQuery → Option RecoveryCase → Option String
unfolding agrees
checked_case q none = none
checked_case q (some c) =
    if agrees q.merchant_id c.merchant_id && agrees q.customer_id c.customer_id
    then some q.case_id
    else none

-- The notes, which count only where they agree with the case.
unfoldable pub case_by_notes : LinkQuery → Database → Option String
case_by_notes q db = if str_eq q.case_id "" then none else checked_case q (db.cases q.case_id)

unfoldable pub or_next : Option String → Option String → Option String
or_next none b = b
or_next (some a) b = some a

-- `ResolvePaymentLinkCase`; `none` is its error.
unfoldable pub resolve_payment_link_case : LinkQuery → Database → Option String
unfolding or_next
resolve_payment_link_case q db =
    or_next (case_by_reference q.link_id db.actions db.references)
      (or_next (case_by_schedule q.reference_id db.schedules) (case_by_notes q db))
