-- ===== src/Optimizer/Candidate.antt =====
-- A scored action: `Candidate` of backend/internal/optimizer/optimizer.go.
use razorpay_ai_revenue_reco.Base.{ℕ, List}
use razorpay_ai_revenue_reco.Base.Int.{ℤ}
use razorpay_ai_revenue_reco.Domain.Actions.{ActionType}
use razorpay_ai_revenue_reco.Domain.Entities.{Float64}

pub data ScoreReason : Type 0 where
  incremental_value_scoring negative_incremental_uplift : ScoreReason
  natural_recovery_reference negative_nerv : ScoreReason

pub record Candidate : Type 0 where
  pub action : ActionType
  pub action_recovery_probability : Float64
  pub natural_recovery_probability : Float64
  pub incremental_uplift : Float64
  pub gross_incremental_value_minor : ℤ
  pub channel_cost_minor : ℤ
  pub incentive_cost_minor : ℤ
  pub operational_cost_minor : ℤ
  pub fatigue_penalty_minor : ℤ
  pub risk_penalty_minor : ℤ
  pub nerv_minor : ℤ
  pub objective_score_minor : ℤ
  pub rank : ℕ
  pub reason_codes : List ScoreReason
