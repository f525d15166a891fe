-- ===== src/Attribution/Evidence.antt =====
-- The chain of tests in backend/internal/store/attribution.go against the precedence that
-- backend/internal/attribution/service.go publishes.
use razorpay_ai_revenue_reco.Base.{Option, none, some, List, [], ◌∷◌, ◌++◌, String}
use razorpay_ai_revenue_reco.Base.Tests.{if◌then◌else◌}
use razorpay_ai_revenue_reco.Domain.Actions.{ActionType, retry_now, retry_later}
use razorpay_ai_revenue_reco.Domain.Entities.{PromiseToPay}
use razorpay_ai_revenue_reco.Store.Rows.{
  Category, ptp_attributed, retry_attributed, direct_action_attributed, natural_recovery,
}
use razorpay_ai_revenue_reco.Store.Attributions.Weighing.{
  Match, Evidence, Weighed, weighed, dropped,
}
use razorpay_ai_revenue_reco.Attribution.{EvidenceCandidate}

if_some : {A : Type 0} → Option A → String → (A → Category) → List EvidenceCandidate
if_some none name f = []
if_some (some a) name f = record { name = name; category = f a } ∷ []

-- The category of a payment that carries the reference of an execution.
unfoldable pub by_action : ActionType → Category
by_action retry_now = retry_attributed
by_action retry_later = retry_attributed
by_action _ = direct_action_attributed

-- The candidates that a body of evidence offers.
unfoldable pub candidates_of : Evidence → List EvidenceCandidate
unfolding if_some by_action
candidates_of e =
    if_some e.exact "EXACT_PROVIDER_REFERENCE" (λ m. by_action m.action.action_type)
    ++ if_some e.promise "PTP" (λ p. ptp_attributed)
    ++ if_some e.retry "RETRY" (λ m. retry_attributed)
    ++ if_some e.direct "DIRECT_ACTION" (λ m. direct_action_attributed)
    ++ (if e.was_executed
        then []
        else record { name = "NATURAL"; category = natural_recovery } ∷ [])

-- The category that a chain of tests ends with, where it records the payment at all.
unfoldable pub category_of : Weighed → Option Category
category_of (weighed f) = some f.category
category_of (dropped m) = none

-- What the precedence gives, unless an exact reference and a promise meet.
unfoldable pub unless_both : Option Match → Option PromiseToPay → Category → Option Category
unless_both (some m) (some p) c = none
unless_both _ _ c = some c
