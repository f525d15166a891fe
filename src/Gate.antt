-- ===== src/Gate.antt =====
-- The economic gate: backend/internal/economicgate/gate.go.
use razorpay_ai_revenue_reco.Base.{String, ◌≡◌, ◌↔◌, ◌⊎◌, true, arith}
use razorpay_ai_revenue_reco.Base.Tests.{if◌then◌else◌}
use razorpay_ai_revenue_reco.Base.Int.{ℤ, pos, ltb_ℤ, eqb_ℤ, ◌≤ℤ◌}
use razorpay_ai_revenue_reco.Base.Clock.{Time}
use razorpay_ai_revenue_reco.Domain.Actions.{ActionType, wait, action_eq}
use razorpay_ai_revenue_reco.Optimizer.Candidate.{Candidate}

pub data GateDecision : Type 0 where
  allow block : GateDecision

pub data GateReason : Type 0 where
  above_minimum_value wait_selected economically_unjustified : GateReason
  below_minimum_value at_minimum_value : GateReason

pub record GateResult : Type 0 where
  pub id : String
  pub decision_id : String
  pub case_id : String
  pub action : ActionType
  pub nerv_minor : ℤ
  pub threshold_minor : ℤ
  pub decision : GateDecision
  pub reason : GateReason
  pub gate_version : String
  pub created_at : Time

-- The chain of `if`s of `Evaluate`.
unfoldable pub judge : Candidate → ℤ → GateDecision × GateReason
unfolding action_eq
judge c threshold =
    if action_eq c.action wait
    then (allow, wait_selected)
    else if ltb_ℤ c.nerv_minor (pos 0)
    then (block, economically_unjustified)
    else if ltb_ℤ c.nerv_minor threshold
    then (block, below_minimum_value)
    else if eqb_ℤ c.nerv_minor threshold
    then (allow, at_minimum_value)
    else (allow, above_minimum_value)

unfoldable pub evaluate : String → String → Candidate → ℤ → Time → GateResult
unfolding judge
evaluate decision_id case_id c threshold now = record {
  id = "";
  decision_id = decision_id;
  case_id = case_id;
  action = c.action;
  nerv_minor = c.nerv_minor;
  threshold_minor = threshold;
  decision = (judge c threshold).0;
  reason = (judge c threshold).1;
  gate_version = "economic-gate-v1";
  created_at = now;
}

-- The gate lets a candidate through exactly when it waits, or when its value is neither negative
-- nor under the merchant's threshold.
pub gate_allows_iff :
    (d k : String) (c : Candidate) (threshold : ℤ) (now : Time)
    → ((evaluate d k c threshold now).decision ≡ allow)
      ↔ ((action_eq c.action wait ≡ true) ⊎ ((pos 0 ≤ℤ c.nerv_minor) × (threshold ≤ℤ c.nerv_minor)))
unfolding evaluate
gate_allows_iff d k c threshold now = (λ h. ground arith, λ h. ground arith)
