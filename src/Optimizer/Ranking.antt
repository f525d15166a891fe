-- ===== src/Optimizer/Ranking.antt =====
-- `Rank` of backend/internal/optimizer/optimizer.go. The operations on `float64` are parameters.
use razorpay_ai_revenue_reco.Base.{
  ℕ, suc, String, Bool, true, false, ◌&&◌, not, Option, none, some, List, [], ◌∷◌, ◌++◌, map,
}
use razorpay_ai_revenue_reco.Base.Tests.{if◌then◌else◌, ltb_text}
use razorpay_ai_revenue_reco.Base.Int.{ℤ, pos, ◌+₆₄◌, ◌-₆₄◌, ◌*₆₄◌, ltb_ℤ, eqb_ℤ, quo}
use razorpay_ai_revenue_reco.Base.Sort.{sort_by}
use razorpay_ai_revenue_reco.Base.Clock.{Time}
use razorpay_ai_revenue_reco.Domain.Actions.{
  ActionType, action_eq, action_name, wait, retry_now, retry_later, send_reminder,
  send_payment_link, send_checkout_recovery_link, request_payment_method_update,
  suggest_alternate_method, wait_for_promise_to_pay, retention_action,
}
use razorpay_ai_revenue_reco.Domain.Entities.{Float64}
use razorpay_ai_revenue_reco.Context.{
  DecisionContext, MerchantContext, Objective, minimize_contact, minimize_recovery_cost,
  maximize_retention, balanced, other_objective,
}
use razorpay_ai_revenue_reco.Optimizer.Candidate.{
  Candidate, incremental_value_scoring, negative_incremental_uplift, natural_recovery_reference,
  negative_nerv,
}
use razorpay_ai_revenue_reco.Portfolio.Priority.{mul_div}

-- The arithmetic of floats: `round` is `int64(math.Round(x))`, and `of_int` is `float64(n)`.
pub record Floats : Type 0 where
  pub sub : Float64 → Float64 → Float64
  pub mul : Float64 → Float64 → Float64
  pub of_int : ℤ → Float64
  pub round : Float64 → ℤ
  pub less : Float64 → Float64 → Bool

pub record Cost : Type 0 where
  pub channel_minor : ℤ
  pub operational_minor : ℤ
  pub contact : Bool

-- An action that the map lacks has the zero cost.
pub record CostModel : Type 0 where
  pub version : String
  pub actions : ActionType → Cost
  pub fatigue_penalty_bps : ℤ
  pub risk_penalty_bps : ℤ
  pub retention_incentive_bps : ℤ

cost : ℕ → ℕ → Bool → Cost
cost channel operational contact = record {
  channel_minor = pos channel;
  operational_minor = pos operational;
  contact = contact;
}

unfoldable pub default_costs_of : ActionType → Cost
unfolding cost
default_costs_of retry_now = cost 0 35 false
default_costs_of retry_later = cost 0 35 false
default_costs_of send_reminder = cost 25 0 true
default_costs_of send_payment_link = cost 25 45 true
default_costs_of send_checkout_recovery_link = cost 25 45 true
default_costs_of request_payment_method_update = cost 25 35 true
default_costs_of suggest_alternate_method = cost 25 30 true
default_costs_of wait_for_promise_to_pay = cost 0 10 false
default_costs_of retention_action = cost 25 100 true
default_costs_of _ = cost 0 0 false

unfoldable pub default_cost_model : CostModel
default_cost_model = record {
  version = "cost-v1";
  actions = default_costs_of;
  fatigue_penalty_bps = pos 80;
  risk_penalty_bps = pos 50;
  retention_incentive_bps = pos 500;
}

-- `byAction[action] = probability`, on a map as a list of its entries.
unfoldable pub set_probability :
    ActionType → Float64 → List (ActionType × Float64) → List (ActionType × Float64)
set_probability a x [] = (a, x) ∷ []
set_probability a x ((b, y) ∷ rest) =
    if action_eq a b then (a, x) ∷ rest else (b, y) ∷ set_probability a x rest

unfoldable pub probabilities :
    List (ActionType × Float64) → List (ActionType × Float64) → List (ActionType × Float64)
unfolding set_probability
probabilities [] acc = acc
probabilities ((a, x) ∷ rest) acc = probabilities rest (set_probability a x acc)

by_objective : Objective → ℤ → ℤ → ℤ → ℤ → ℤ
by_objective minimize_contact nerv costs fatigue risk = nerv -₆₄ (fatigue *₆₄ pos 2)
by_objective minimize_recovery_cost nerv costs fatigue risk = nerv -₆₄ costs
by_objective maximize_retention nerv costs fatigue risk = nerv -₆₄ risk
by_objective balanced nerv costs fatigue risk = nerv -₆₄ quo (fatigue +₆₄ risk) 2
by_objective (other_objective s) nerv costs fatigue risk = nerv

unfoldable pub objective_score : MerchantContext → ℤ → ℤ → ℤ → ℤ → ℤ → ℤ → ℤ
unfolding by_objective
objective_score m amount_at_risk gross nerv costs fatigue risk =
    if ltb_ℤ (pos 0) m.optimization_profile_version
    then mul_div gross m.revenue_weight_bps 10000
      +₆₄ mul_div (gross -₆₄ risk) m.retention_weight_bps 10000
      -₆₄ mul_div (if ltb_ℤ (pos 0) fatigue then amount_at_risk else pos 0)
          m.contact_penalty_weight_bps 10000
      -₆₄ mul_div costs m.cost_penalty_weight_bps 10000
      -₆₄ mul_div fatigue m.fatigue_penalty_weight_bps 10000
      -₆₄ mul_div risk m.risk_penalty_weight_bps 10000
    else by_objective m.recovery_objective nerv costs fatigue risk

when : {A : Type 0} → Bool → A → List A
when true a = a ∷ []
when false a = []

-- The body of the first loop.
unfoldable pub score_candidate :
    Floats → DecisionContext → CostModel → Float64 → ActionType × Float64 → Candidate
unfolding when
score_candidate f ctx costs natural (action, probability) = record {
  action = action;
  action_recovery_probability = probability;
  natural_recovery_probability = natural;
  incremental_uplift = uplift;
  gross_incremental_value_minor = gross;
  channel_cost_minor = c.channel_minor;
  incentive_cost_minor = incentive;
  operational_cost_minor = c.operational_minor;
  fatigue_penalty_minor = fatigue;
  risk_penalty_minor = risk;
  nerv_minor = nerv;
  objective_score_minor =
      objective_score ctx.merchant amount gross nerv
        (c.channel_minor +₆₄ c.operational_minor +₆₄ incentive) fatigue risk;
  rank = 0;
  reason_codes =
      incremental_value_scoring
        ∷ when (f.less uplift (f.of_int (pos 0))) negative_incremental_uplift
      ++ when (action_eq action wait) natural_recovery_reference
      ++ when (ltb_ℤ nerv (pos 0)) negative_nerv;
}
  where
    amount : ℤ
    amount = ctx.case_.amount_at_risk_minor

    uplift : Float64
    uplift = f.sub probability natural

    gross : ℤ
    gross = mul_div amount (f.round (f.mul uplift (f.of_int (pos 1000000)))) 1000000

    c : Cost
    c = costs.actions action

    fatigue : ℤ
    fatigue =
        if c.contact
        then mul_div amount
            (f.round (f.mul ctx.profile.recovery_fatigue (f.of_int costs.fatigue_penalty_bps)))
            10000
        else pos 0

    risk : ℤ
    risk =
        if action_eq action wait
        then pos 0
        else mul_div amount
            (f.round (
              f.mul (f.sub (f.of_int (pos 1)) ctx.diagnosis.confidence)
                (f.of_int costs.risk_penalty_bps)))
            10000

    full : ℤ
    full = mul_div amount costs.retention_incentive_bps 10000

    most : ℤ
    most = ctx.merchant.maximum_incentive_minor

    incentive : ℤ
    incentive =
        if action_eq action retention_action
        then (if ltb_ℤ (pos 0) most && ltb_ℤ most full then most else full)
        else pos 0

    nerv : ℤ
    nerv = gross -₆₄ c.channel_minor -₆₄ c.operational_minor -₆₄ incentive -₆₄ fatigue -₆₄ risk

unfoldable pub candidate_less : Candidate → Candidate → Bool
candidate_less i j =
    if not (eqb_ℤ i.objective_score_minor j.objective_score_minor)
    then ltb_ℤ j.objective_score_minor i.objective_score_minor
    else if not (eqb_ℤ i.nerv_minor j.nerv_minor)
    then ltb_ℤ j.nerv_minor i.nerv_minor
    else ltb_text (action_name i.action) (action_name j.action)

unfoldable pub number_candidates : ℕ → List Candidate → List Candidate
number_candidates n [] = []
number_candidates n (c ∷ cs) = record c { rank = n } ∷ number_candidates (suc n) cs

-- `candidates[0]`: `none` is the panic on an empty list.
unfoldable pub first_candidate : List Candidate → Option Candidate
first_candidate [] = none
first_candidate (c ∷ cs) = some c

pub record RankResult : Type 0 where
  pub optimizer_version : String
  pub cost_model_version : String
  pub merchant_objective : Objective
  pub candidates : List Candidate
  pub selected : Option Candidate
  pub created_at : Time
  pub merchant_profile_id : String
  pub merchant_profile_version : ℤ

-- Go ranges over the map in any order, which the sort then forgets.
unfoldable pub ranked_candidates :
    Floats → DecisionContext → List (ActionType × Float64) → Float64 → CostModel → List Candidate
ranked_candidates f ctx predictions natural costs = number_candidates 1 (
    sort_by candidate_less (
      map (score_candidate f ctx costs natural)
        (set_probability wait natural (probabilities predictions []))))

unfoldable pub rank_actions :
    Floats → DecisionContext → List (ActionType × Float64) → Float64 → CostModel → Time → RankResult
rank_actions f ctx predictions natural costs now = record {
  optimizer_version = "nba-v2-profiled";
  cost_model_version = costs.version;
  merchant_objective = ctx.merchant.recovery_objective;
  candidates = ranked_candidates f ctx predictions natural costs;
  selected = first_candidate (ranked_candidates f ctx predictions natural costs);
  created_at = now;
  merchant_profile_id = ctx.merchant.optimization_profile_id;
  merchant_profile_version = ctx.merchant.optimization_profile_version;
}
