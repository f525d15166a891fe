-- ===== src/Store/Attributions/Weighing.antt =====
-- What a payment is attributed to: the queries and the chain of tests of `AttributeRecovery` in
-- backend/internal/store/attribution.go.
use razorpay_ai_revenue_reco.Base.{
  ℕ, String, ◌+◌, ◌*◌, Bool, true, false, ◌&&◌, ◌||◌, Option, none, some, List, [], ◌∷◌, str_eq,
}
use razorpay_ai_revenue_reco.Base.Tests.{ltb, leb, if◌then◌else◌}
use razorpay_ai_revenue_reco.Base.Lists.{any, find_first}
use razorpay_ai_revenue_reco.Base.Int.{ℤ}
use razorpay_ai_revenue_reco.Base.Clock.{Time, minute_ns}
use razorpay_ai_revenue_reco.Domain.Actions.{ActionType, retry_now, retry_later, action_eq}
use razorpay_ai_revenue_reco.Domain.Entities.{PromiseToPay, PromiseStatus, active, fulfilled}
use razorpay_ai_revenue_reco.Store.Rows.{
  Category, direct_action_attributed, retry_attributed, ptp_attributed, natural_recovery, unknown,
  EvidenceStrength, insufficient, weak, moderate, strong,
}
use razorpay_ai_revenue_reco.Store.Tables.{
  Database, ExecutionRow, ExecutionStatus, succeeded, outcome_pending, ActionRow,
}

pub record ObserveInput : Type 0 where
  pub case_id : String
  pub recovered_amount_minor : ℤ
  pub payment_reference : String
  pub observed_at : Time
  pub correlation_id : String

-- Minutes.
pub record Windows : Type 0 where
  pub retry : ℕ
  pub direct : ℕ
  pub ptp : ℕ

pub record Match : Type 0 where
  pub execution : ExecutionRow
  pub action : ActionRow

has_succeeded : ExecutionStatus → Bool
has_succeeded succeeded = true
has_succeeded outcome_pending = true
has_succeeded _ = false

find_action : String → List ActionRow → Option ActionRow
find_action id as_ = find_first (λ a. str_eq a.id id) as_

later_match : Match → Option Match → Match
later_match m none = m
later_match m (some n) = if ltb m.execution.completed_at n.execution.completed_at then n else m

add_match : (Match → Bool) → ExecutionRow → Option ActionRow → Option Match → Option Match
unfolding later_match
add_match p e none rest = rest
add_match p e (some a) rest =
    let m : Match = record { execution = e; action = a } in
    if p m then some (later_match m rest) else rest

-- The join of executions and actions, `ORDER BY e.completed_at DESC LIMIT 1`.
unfoldable pub latest_match : (Match → Bool) → List ActionRow → List ExecutionRow → Option Match
unfolding add_match find_action
latest_match p as_ [] = none
latest_match p as_ (e ∷ es) =
    let rest = latest_match p as_ es in add_match p e (find_action e.action_id as_) rest

-- `completed_at<=observed AND completed_at >= observed - window`
unfoldable pub in_time : Time → ℕ → ExecutionRow → Bool
in_time observed window e =
    leb e.completed_at observed && leb observed (e.completed_at + window * minute_ns)

unfoldable pub is_retry : ActionType → Bool
unfolding action_eq
is_retry a = action_eq a retry_now || action_eq a retry_later

of_case : String → Match → Bool
unfolding has_succeeded
of_case id m = str_eq m.execution.case_id id && has_succeeded m.execution.status

-- What the queries before the decision find.
pub record Evidence : Type 0 where
  pub exact : Option Match
  pub promise : Option PromiseToPay
  pub retry : Option Match
  pub direct : Option Match
  -- `COUNT(*)` of the executions so far is not 0
  pub was_executed : Bool

earlier_due : PromiseToPay → Option PromiseToPay → PromiseToPay
earlier_due p none = p
earlier_due p (some q) = if ltb q.due_at p.due_at then q else p

may_keep : PromiseStatus → Bool
may_keep active = true
may_keep fulfilled = true
may_keep _ = false

-- `ORDER BY due_at LIMIT 1` of the promises near the payment.
unfoldable pub near_promise : String → Time → ℕ → List PromiseToPay → Option PromiseToPay
unfolding earlier_due may_keep
near_promise id observed window [] = none
near_promise id observed window (p ∷ ps) =
    let rest = near_promise id observed window ps in
    if str_eq p.case_id id
      && may_keep p.status
      && leb observed (p.due_at + window * minute_ns)
      && leb p.due_at (observed + window * minute_ns)
    then some (earlier_due p rest)
    else rest

unfoldable pub gather : ObserveInput → Windows → Database → Evidence
unfolding latest_match near_promise in_time is_retry of_case
gather i w db = record {
  exact =
      latest_match
        (λ m. of_case i.case_id m && str_eq m.execution.provider_reference i.payment_reference)
        db.actions db.executions;
  promise = near_promise i.case_id i.observed_at w.ptp db.promises;
  retry =
      latest_match
        (λ m.
          of_case i.case_id m
          && in_time i.observed_at w.retry m.execution
          && is_retry m.action.action_type)
        db.actions db.executions;
  direct =
      latest_match (λ m. of_case i.case_id m && in_time i.observed_at w.direct m.execution)
        db.actions db.executions;
  was_executed =
      any (λ e. str_eq e.case_id i.case_id && leb e.completed_at i.observed_at) db.executions;
}

-- The category, and what it rests on.
pub record Finding : Type 0 where
  pub category : Category
  pub strength : EvidenceStrength
  pub match_ : Option Match
  pub promise : Option PromiseToPay

unfoldable pub finding : Category → EvidenceStrength → Option Match → Option PromiseToPay → Finding
finding c s m p = record { category = c; strength = s; match_ = m; promise = p }

unfoldable pub of_exact : Match → Finding
unfolding finding
of_exact m =
    finding (if is_retry m.action.action_type then retry_attributed else direct_action_attributed)
      strong (some m) none

unfoldable pub of_none : Bool → Finding
unfolding finding
of_none true = finding unknown insufficient none none
of_none false = finding natural_recovery weak none none

unfoldable pub of_direct : Option Match → Bool → Finding
unfolding finding of_none
of_direct (some m) executed = finding direct_action_attributed moderate (some m) none
of_direct none executed = of_none executed

unfoldable pub of_retry : Option Match → Option Match → Bool → Finding
unfolding finding of_direct
of_retry (some m) direct executed = finding retry_attributed strong (some m) none
of_retry none direct executed = of_direct direct executed

-- What the chain of tests comes to. `dropped` is the early return of the source with a nil error,
-- which leaves the transaction to be rolled back: an exact match, and a promise too.
pub data Weighed : Type 0 where
  weighed : Finding → Weighed
  dropped : Match → Weighed

unfoldable pub weigh : Option Match → Option PromiseToPay → Evidence → Weighed
unfolding of_retry finding
weigh (some m) (some p) e = dropped m
weigh (some m) none e = weighed (of_exact m)
weigh none (some p) e = weighed (finding ptp_attributed strong none (some p))
weigh none none e = weighed (of_retry e.retry e.direct e.was_executed)
