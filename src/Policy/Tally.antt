-- ===== src/Policy/Tally.antt =====
-- The closure `add` and the verdict of `Evaluate` in backend/internal/policy/policy.go.
use razorpay_ai_revenue_reco.Base.{ℕ, String, Bool, not, List, [], ◌∷◌, ◌++◌}
use razorpay_ai_revenue_reco.Base.Tests.{if◌then◌else◌}
use razorpay_ai_revenue_reco.Base.Lists.{is_empty}
use razorpay_ai_revenue_reco.Base.Clock.{Time}
use razorpay_ai_revenue_reco.Domain.Actions.{ActionType}
use razorpay_ai_revenue_reco.Context.{DecisionContext, Platform}
use razorpay_ai_revenue_reco.Optimizer.Candidate.{Candidate}
use razorpay_ai_revenue_reco.Gate.{GateResult}
use razorpay_ai_revenue_reco.Policy.Rules.{
  PolicyReason, Level, Check, stops, denies, escalates, all_policy_checks_passed, rules,
}

pub data Decision : Type 0 where
  approve stop deny escalate : Decision

-- The variables that `add` writes; the map `checks` in the order of its insertions.
pub record Tally : Type 0 where
  pub stop_reasons : List PolicyReason
  pub deny_reasons : List PolicyReason
  pub escalate_reasons : List PolicyReason
  pub checks : List (PolicyReason × Bool)

-- `*target = append(*target, reason)`
append_to : Level → PolicyReason → Tally → Tally
append_to stops r t = record t { stop_reasons = t.stop_reasons ++ r ∷ [] }
append_to denies r t = record t { deny_reasons = t.deny_reasons ++ r ∷ [] }
append_to escalates r t = record t { escalate_reasons = t.escalate_reasons ++ r ∷ [] }

unfoldable pub add : Check → Tally → Tally
unfolding append_to
add c t =
    let noted = record t { checks = t.checks ++ (c.reason, not c.fires) ∷ [] } in
    if c.fires then append_to c.level c.reason noted else noted

unfoldable pub add_all : List Check → Tally → Tally
add_all [] t = t
add_all (c ∷ cs) t = add_all cs (add c t)

pub record PolicyResult : Type 0 where
  pub id : String
  pub decision_id : String
  pub economic_gate_id : String
  pub case_id : String
  pub case_version : ℕ
  pub selected_action : ActionType
  pub policy_version : String
  pub decision : Decision
  pub reason_codes : List PolicyReason
  pub checks : List (PolicyReason × Bool)
  pub created_at : Time

unfoldable pub verdict : Tally → Decision × List PolicyReason
verdict t =
    if not (is_empty t.stop_reasons)
    then (stop, t.stop_reasons)
    else if not (is_empty t.deny_reasons)
    then (deny, t.deny_reasons)
    else if not (is_empty t.escalate_reasons)
    then (escalate, t.escalate_reasons)
    else (approve, all_policy_checks_passed ∷ [])

abbrev pub nothing_noted : Tally
nothing_noted = record { stop_reasons = []; deny_reasons = []; escalate_reasons = []; checks = [] }

unfoldable pub tally : List Check → Tally
tally cs = add_all cs nothing_noted

unfoldable pub evaluate :
    Platform → DecisionContext → String → ℕ → Candidate → GateResult → Time → PolicyResult
evaluate p ctx decision_id decision_version c gate now = record {
  id = "";
  decision_id = decision_id;
  economic_gate_id = "";
  case_id = ctx.case_.id;
  case_version = ctx.case_.version;
  selected_action = c.action;
  policy_version = "policy-v1";
  decision = (verdict t).0;
  reason_codes = (verdict t).1;
  checks = t.checks;
  created_at = now;
}
  where
    t : Tally
    t = tally (rules p ctx decision_version c gate now)
