-- ===== src/Tests/Samples.antt =====
-- The inputs of the tests: one case of one merchant, at noon of a day.
use razorpay_ai_revenue_reco.Base.{ℕ, String, ◌+◌, ◌*◌, false, none, some, List, [], ◌∷◌, str_eq}
use razorpay_ai_revenue_reco.Base.Tests.{if◌then◌else◌}
use razorpay_ai_revenue_reco.Base.Int.{pos}
use razorpay_ai_revenue_reco.Base.Clock.{Time, hour_ns}
use razorpay_ai_revenue_reco.Domain.Actions.{ActionType, send_reminder, retry_now}
use razorpay_ai_revenue_reco.Domain.States.{CaseState, scheduled, stopped}
use razorpay_ai_revenue_reco.Domain.Entities.{Float64, bits, RecoveryCase, failed_subscription}
use razorpay_ai_revenue_reco.Context.{DecisionContext, Platform, balanced, temporary, RecentAction}
use razorpay_ai_revenue_reco.Optimizer.Candidate.{Candidate}
use razorpay_ai_revenue_reco.Optimizer.Ranking.{Floats}
use razorpay_ai_revenue_reco.Gate.{GateResult}
use razorpay_ai_revenue_reco.Gate
use razorpay_ai_revenue_reco.Budget.Allocation.{Limits}
use razorpay_ai_revenue_reco.Portfolio.Priority.{PortfolioCandidate, Item, rank_items}
use razorpay_ai_revenue_reco.Store.Tables.{Database, ScheduledAction, pending}
use razorpay_ai_revenue_reco.Store.Execution.{ExecutorResult, result_succeeded}
use razorpay_ai_revenue_reco.Recovery.{TransitionInput}
use razorpay_ai_revenue_reco.Worker.{World}

abbrev pub noon : Time
noon = 100 * 24 * hour_ns + 12 * hour_ns

abbrev pub half : Float64
half = bits 4602678819172646912

-- Noon on every clock, and no window that can be decoded.
abbrev pub platform : Platform
platform = record {
  float_less = λ a b. false;
  decode_window = λ raw. none;
  parse_clock = λ t. none;
  local_clock = λ zone t. some (12, 0);
}

abbrev pub case_at : CaseState → ℕ → RecoveryCase
case_at s v = record {
  id = "case-1";
  leak_type = failed_subscription;
  merchant_id = "m-1";
  customer_id = "c-1";
  amount_at_risk_minor = pos 50000;
  currency = "INR";
  source_reference = "sub-1";
  source_status = "failed";
  failure_or_leak_context = "{}";
  customer_context_snapshot = "{}";
  merchant_policy_snapshot = "{}";
  current_state = s;
  recovery_deadline = noon + 24 * hour_ns;
  recovered_amount_minor = pos 0;
  attribution_status = "PENDING";
  version = v;
  created_at = noon;
  updated_at = noon;
}

abbrev pub an_earlier_contact : RecentAction
an_earlier_contact = record {
  action = send_reminder;
  status = "EXECUTED";
  created_at = 100 * 24 * hour_ns;
}

abbrev pub context_at : CaseState → ℕ → DecisionContext
context_at s v = record {
  feature_version = "v1";
  case_ = case_at s v;
  diagnosis = record {
    failure_category = "INSUFFICIENT_FUNDS";
    recoverability = temporary;
    confidence = half;
    evidence = [];
  };
  profile = record {
    successful_payment_ratio = half;
    successful_payment_count = pos 4;
    recent_failures = pos 1;
    previous_recovery_attempts = 0;
    average_transaction_value_minor = pos 40000;
    contact_count = 1;
    promise_reliability = half;
    recovery_fatigue = half;
    subscription_tenure_days = pos 90;
    preferred_payment_method = "UPI";
    prior_checkout_recoveries = pos 0;
    opted_out = false;
  };
  merchant = record {
    optimization_profile_id = "";
    optimization_profile_version = pos 0;
    merchant_type = "";
    recovery_objective = balanced;
    allowed_channels = "EMAIL" ∷ [];
    allowed_actions = send_reminder ∷ retry_now ∷ [];
    max_retries = pos 3;
    max_contacts_per_day = pos 2;
    max_contacts_per_week = pos 5;
    minimum_contact_interval_minutes = pos 60;
    recovery_window_hours = pos 72;
    quiet_hours = "{}";
    minimum_economic_value_minor = pos 100;
    high_value_threshold_minor = pos 1000000;
    low_confidence_threshold = half;
    maximum_incentive_minor = pos 0;
    timezone = "UTC";
    revenue_weight_bps = pos 0;
    retention_weight_bps = pos 0;
    contact_penalty_weight_bps = pos 0;
    cost_penalty_weight_bps = pos 0;
    fatigue_penalty_weight_bps = pos 0;
    risk_penalty_weight_bps = pos 0;
    escalation_preference = "";
  };
  recent_actions = an_earlier_contact ∷ [];
  active_promise = none;
  timing = record { evaluated_at = noon; hours_since_leak = half; hours_until_deadline = half };
  payment = record {
    already_recovered = false;
    mandate_status = "ACTIVE";
    payment_method_status = "VALID";
    available_channels = "EMAIL" ∷ [];
  };
}

abbrev pub candidate : ActionType → Candidate
candidate a = record {
  action = a;
  action_recovery_probability = half;
  natural_recovery_probability = half;
  incremental_uplift = half;
  gross_incremental_value_minor = pos 5000;
  channel_cost_minor = pos 25;
  incentive_cost_minor = pos 0;
  operational_cost_minor = pos 10;
  fatigue_penalty_minor = pos 0;
  risk_penalty_minor = pos 0;
  nerv_minor = pos 4965;
  objective_score_minor = pos 4965;
  rank = 1;
  reason_codes = [];
}

abbrev pub gate : ActionType → GateResult
gate a = Gate.evaluate "d-1" "case-1" (candidate a) (pos 100) noon

abbrev pub portfolio_candidate : String → ℕ → PortfolioCandidate
portfolio_candidate id nerv = record {
  merchant_id = "m-1";
  case_id = id;
  decision_id = "d-1";
  action = send_reminder;
  amount_at_risk_minor = pos 50000;
  expected_incremental_value_minor = pos 5000;
  expected_nerv_minor = pos nerv;
  deadline = noon + 24 * hour_ns;
  arrival_at = noon;
  recoverability_bps = pos 8000;
}

abbrev pub candidates : List PortfolioCandidate
candidates = portfolio_candidate "case-1" 1000 ∷ portfolio_candidate "case-2" 4000 ∷ []

abbrev pub items : List Item
items = rank_items candidates noon "run-1"

-- Room for one of the two reminders.
abbrev pub limits : Limits
limits = record {
  spend_minor = pos 40;
  contacts = pos 5;
  retries = pos 5;
  discount_minor = pos 0;
  human_reviews = pos 0;
}

abbrev pub schedule : ScheduledAction
schedule = record {
  id = "s-1";
  case_id = "case-1";
  decision_id = "d-1";
  policy_evaluation_id = "p-1";
  recovery_action_id = "a-1";
  action = send_reminder;
  scheduled_for = noon;
  status = pending;
  attempt_count = 0;
  max_attempts = 3;
  idempotency_key = "scheduled-action:s-1";
  case_version_at_schedule = 3;
  next_retry_at = none;
  lease_owner = none;
  lease_expires_at = none;
  started_at = none;
  completed_at = none;
  failure_reason = none;
}

abbrev pub second_schedule : ScheduledAction
second_schedule = record schedule { id = "s-2"; scheduled_for = noon + 1 }

-- One case, and its two schedules.
abbrev pub database : CaseState → Database
database s = record {
  cases = λ id. if str_eq id "case-1" then some (case_at s 3) else none;
  schedules = schedule ∷ second_schedule ∷ [];
  actions = [];
  executions = [];
  events = [];
  decisions = [];
  merchant_policies = λ id. some 7;
  reviews = [];
  approvals = [];
  promises = [];
  promise_checks = [];
  promise_events = [];
  profiles = [];
  responses = [];
  opted_out = λ id. false;
  attributions = [];
  feedback = [];
  webhooks = [];
  references = [];
}

abbrev pub to_stopped : TransitionInput
to_stopped = record {
  to_state = stopped;
  expected_version = 3;
  actor = record { type_ = "OPERATOR"; id = "o-1" };
  correlation_id = "r-1";
}

abbrev pub success : ExecutorResult
success = record {
  execution_id = "e-1";
  status = result_succeeded;
  provider_reference = "ref-1";
  failure_class = "";
  retryable = false;
}

abbrev pub world : World
world = record {
  platform = platform;
  context_of = λ id db. some (context_at scheduled 3);
  authorization_of = λ d p db. some (record {
    decision_case_version = 1;
    candidate = candidate send_reminder;
    gate = gate send_reminder;
    human_approved = false;
  });
  reconcile = λ a key. none;
  execute = λ s ctx. success;
  execution_key = λ key n. key;
  correlation = λ id v. id;
  decision_of = λ id db. none;
  ids_for = λ s. record { action_id = "a-2"; scheduled_id = "s-3"; idempotency_key = "k-3" };
  has_reassessor = false;
}

-- Floats of which every one rounds to half a million.
abbrev pub floats : Floats
floats = record {
  sub = λ a b. a;
  mul = λ a b. a;
  of_int = λ n. half;
  round = λ x. pos 500000;
  less = λ a b. false;
}
