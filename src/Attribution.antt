-- ===== src/Attribution.antt =====
-- The attribution service: backend/internal/attribution/service.go.
pub mod Effects
pub mod Course
pub mod Evidence
use razorpay_ai_revenue_reco.Base.{
  String, ◌≡◌, Bool, true, false, ◌||◌, Option, none, some, List, [], ◌∷◌, str_eq,
}
use razorpay_ai_revenue_reco.Base.Tests.{if◌then◌else◌}
use razorpay_ai_revenue_reco.Base.Int.{pos, leb_ℤ}
use razorpay_ai_revenue_reco.Base.Clock.{Time, is_zero}
use razorpay_ai_revenue_reco.Store.Rows.{Attribution, Category, unknown}
use razorpay_ai_revenue_reco.Store.Tables.{Database, StoreError, Result, ok, err}
use razorpay_ai_revenue_reco.Store.Attributions.{attribute_recovery}
use razorpay_ai_revenue_reco.Store.Attributions.Weighing.{ObserveInput, Windows}

pub record EvidenceCandidate : Type 0 where
  pub name : String
  pub category : Category

abbrev pub precedence : List String
precedence =
    "EXACT_PROVIDER_REFERENCE" ∷ "PTP" ∷ "RETRY" ∷ "DIRECT_ACTION" ∷ "NATURAL" ∷ "UNKNOWN" ∷ []

-- The inner loop: the category of the first candidate of a name.
unfoldable pub category_named : String → List EvidenceCandidate → Option Category
category_named name [] = none
category_named name (c ∷ cs) =
    let rest = category_named name cs in if str_eq c.name name then some c.category else rest

or_else : Option Category → Category → Category
or_else none c = c
or_else (some d) c = d

unfoldable pub resolve_in : List String → List EvidenceCandidate → Category
unfolding category_named or_else
resolve_in [] cs = unknown
resolve_in (name ∷ names) cs = or_else (category_named name cs) (resolve_in names cs)

-- `ResolveCandidates`
unfoldable pub resolve_candidates : List EvidenceCandidate → Category
unfolding resolve_in
resolve_candidates cs = resolve_in precedence cs

pub data ObserveReply : Type 0 where
  observed : Attribution → Bool → Database → ObserveReply
  bad_observation : ObserveReply
  not_observed : StoreError → ObserveReply

-- The observation with its defaults; `payment` writes "payment:" before a reference.
unfoldable pub completed_observation : (String → String) → Time → ObserveInput → ObserveInput
completed_observation payment now i = record i {
  observed_at = if is_zero i.observed_at then now else i.observed_at;
  correlation_id =
      if str_eq i.correlation_id "" then payment i.payment_reference else i.correlation_id;
}

stored : Result ((Attribution × Bool) × Database) → ObserveReply
stored (ok ((a, created), db)) = observed a created db
stored (err e) = not_observed e

-- `Observe`
unfoldable pub observe :
    (Category → String)
    → (String → String)
    → String
    → Option Windows
    → Time
    → ObserveInput
    → Database
    → ObserveReply
unfolding stored
observe spell payment id w now i db =
    if str_eq i.case_id ""
      || str_eq i.payment_reference ""
      || leb_ℤ i.recovered_amount_minor (pos 0)
    then bad_observation
    else stored (attribute_recovery spell id (completed_observation payment now i) w db)
