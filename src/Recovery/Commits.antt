-- ===== src/Recovery/Commits.antt =====
-- The transactions of backend/internal/store that commit, and the cases after them.
use razorpay_ai_revenue_reco.Base.{
  ℕ, String, ◌≡◌, refl, Bool, true, false, Option, none, some, List, str_eq, arith, eq_iff,
}
use razorpay_ai_revenue_reco.Base.Tests.{if◌then◌else◌}
use razorpay_ai_revenue_reco.Base.Clock.{Time}
use razorpay_ai_revenue_reco.Domain.Entities.{
  RecoveryCase, RawJson, Float64, PromiseToPay, PromiseStatus,
}
use razorpay_ai_revenue_reco.Store.Rows.{Response, Attribution, Category}
use razorpay_ai_revenue_reco.Store.Reviews.{ReviewIds, Applied, apply_human_review}
use razorpay_ai_revenue_reco.Operations.Approval.{ApplyCommand}
use razorpay_ai_revenue_reco.Operations.Lifecycle.{apply_human_review-Keeps}
use razorpay_ai_revenue_reco.Store.Promises.{create_promise}
use razorpay_ai_revenue_reco.Store.Promises.Checks.{claim_due_check}
use razorpay_ai_revenue_reco.Store.Promises.Outcomes.{
  resolve_promise, resolve_for_demo, cancel_promise,
}
use razorpay_ai_revenue_reco.Store.Promises.Lifecycle.{
  create_promise-Keeps, claim_due_check-Keeps, resolve_promise-Keeps, resolve_for_demo-Keeps,
  cancel_promise-Keeps,
}
use razorpay_ai_revenue_reco.Store.Responses.{save_customer_response, save_customer_response-Keeps}
use razorpay_ai_revenue_reco.Store.Tables.{
  Database, StoreError, ok, Draft, Snapshot, ScheduledAction,
}
use razorpay_ai_revenue_reco.Store.Cases.{create_case, append_event, insert_case}
use razorpay_ai_revenue_reco.Store.Decisions.{
  FreshIds, prepare_for_decision, save_decision_and_schedule,
}
use razorpay_ai_revenue_reco.Store.Execution.{
  ExecutorResult, mark_executing, complete_execution, mark_suppressed,
}
use razorpay_ai_revenue_reco.Store.Observation.{prepare_reassessment}
use razorpay_ai_revenue_reco.Store.Queue.{claim_row, claim_due, claim_due_observation}
use razorpay_ai_revenue_reco.Store.Lifecycle.{
  Moves, Moves-refl, Follows, Follows-refl, Follows-trans, Follows-same, Keeps, lock_case-Keeps,
}
use razorpay_ai_revenue_reco.Store.Operations.{
  prepare_for_decision-Follows, save_decision_and_schedule-Keeps,
}
use razorpay_ai_revenue_reco.Store.Work.{
  mark_executing-Keeps, complete_execution-Keeps, mark_suppressed-Keeps, prepare_reassessment-Keeps,
}
use razorpay_ai_revenue_reco.Store.Attributions.{attribute_recovery}
use razorpay_ai_revenue_reco.Store.Attributions.Weighing.{ObserveInput, Windows}
use razorpay_ai_revenue_reco.Attribution.Course.{attribute_recovery-Keeps}

-- One committed transaction of the store.
pub data Commits (db db' : Database) : Type 0 where
  created :
      (c : RecoveryCase) (events : List Draft) (u : Unit {0})
      → create_case c events db ≡ ok (u, db')
      → Commits db db'
  appended :
      (id : String) (event : Draft) (u : Unit {0})
      → append_event id event db ≡ ok (u, db')
      → Commits db db'
  prepared :
      (correlation : String → ℕ → String) (id : String) (now : Time) (u : Unit {0})
      → prepare_for_decision correlation id now db ≡ ok (u, db')
      → Commits db db'
  decided :
      (ids : FreshIds) (now : Time) (s : Snapshot) (r : Option ScheduledAction)
      → save_decision_and_schedule ids now s db ≡ ok (r, db')
      → Commits db db'
  claimed_work :
      (worker : String) (now : Time) (lease : ℕ) (s : ScheduledAction)
      → claim_due worker now lease db ≡ ok (s, db')
      → Commits db db'
  started :
      (s : ScheduledAction) (now : Time) (u : Unit {0})
      → mark_executing s now db ≡ ok (u, db')
      → Commits db db'
  completed :
      (key : String → ℕ → String) (s : ScheduledAction) (r : ExecutorResult) (now : Time)
      (u : Unit {0})
      → complete_execution key s r now db ≡ ok (u, db')
      → Commits db db'
  suppressed :
      (s : ScheduledAction) (reason : String) (now : Time) (u : Unit {0})
      → mark_suppressed s reason now db ≡ ok (u, db')
      → Commits db db'
  claimed_observation :
      (worker : String) (now : Time) (lease : ℕ) (s : ScheduledAction)
      → claim_due_observation worker now lease db ≡ ok (s, db')
      → Commits db db'
  reassessed :
      (s : ScheduledAction) (now : Time) (ready : Bool)
      → prepare_reassessment s now db ≡ ok (ready, db')
      → Commits db db'
  human_reviewed :
      (is_json : RawJson → Bool) (ids : ReviewIds) (cmd : ApplyCommand) (r : Applied)
      → apply_human_review is_json ids cmd db ≡ ok (r, db')
      → Commits db db'
  promise_created_ :
      (p : PromiseToPay) (check_id correlation : String) (r : PromiseToPay × Bool)
      → create_promise p check_id correlation db ≡ ok (r, db')
      → Commits db db'
  check_claimed_ :
      (worker : String) (now : Time) (lease : ℕ) (id : String)
      → claim_due_check worker now lease db ≡ ok (id, db')
      → Commits db db'
  promise_resolved :
      (ratio : ℕ → ℕ → Float64) (correlation id : String) (forced : Option PromiseStatus)
      (now : Time) (r : PromiseToPay)
      → resolve_promise ratio correlation id forced now db ≡ ok (r, db')
      → Commits db db'
  promise_resolved_for_demo :
      (ratio : ℕ → ℕ → Float64) (correlation id : String) (outcome : PromiseStatus) (now : Time)
      (r : PromiseToPay)
      → resolve_for_demo ratio correlation id outcome now db ≡ ok (r, db')
      → Commits db db'
  promise_cancelled_ :
      (id correlation : String) (now : Time) (r : PromiseToPay)
      → cancel_promise id correlation now db ≡ ok (r, db')
      → Commits db db'
  answered : (r : Response) (b : Bool) → save_customer_response r db ≡ ok (b, db') → Commits db db'
  attributed :
      (spell : Category → String) (id : String) (i : ObserveInput) (w : Option Windows)
      (r : Attribution × Bool)
      → attribute_recovery spell id i w db ≡ ok (r, db')
      → Commits db db'

created_row :
    (c : RecoveryCase) (db : Database) (j : String) (e : RecoveryCase)
    → db.cases c.id ≡ none
    → db.cases j ≡ some e
    → (b : Bool) → str_eq j c.id ≡ b
    → (x : RecoveryCase) × ((if b then some c else db.cases j) ≡ some x) × Moves e x
created_row c db j e free g true q = let same : j ≡ c.id = ground (arith, eq_iff j c.id) in cc same
created_row c db j e free g false q = (e, g, Moves-refl e)

create_case-Keeps : (c : RecoveryCase) (events : List Draft) → Keeps (create_case c events)
unfolding create_case
create_case-Keeps c events db u db' h = go (db.cases c.id) refl h
  where
    go :
        (r : Option RecoveryCase)
        → db.cases c.id ≡ r
        → insert_case c events r db ≡ ok (u, db')
        → Follows db db'
    go none e g =
        Follows-trans (record { moved = λ j d k. created_row c db j d e k (str_eq j c.id) refl })
          (Follows-same (record db { cases = λ j. if str_eq j c.id then some c else db.cases j })
            db' db' (cc g) (Follows-refl db'))
    go (some old) e g = cc g

append_event-Keeps : (id : String) (event : Draft) → Keeps (append_event id event)
unfolding append_event
append_event-Keeps id event =
    lock_case-Keeps id _ (λ c db u db' e h. Follows-same db db' db' (cc h) (Follows-refl db'))

claim_row-Keeps :
    (e : StoreError) (f : ScheduledAction → ScheduledAction) (r : Option ScheduledAction)
    (db : Database) (s : ScheduledAction) (db' : Database)
    → claim_row e f r db ≡ ok (s, db')
    → Follows db db'
unfolding claim_row
claim_row-Keeps e f none db s db' h = cc h
claim_row-Keeps e f (some t) db s db' h = Follows-same db db' db' (cc h) (Follows-refl db')

pub Commits-Follows : {db db' : Database} → Commits db db' → Follows db db'
unfolding claim_due claim_due_observation
Commits-Follows {db = db} {db' = db'} (created c events u h) = create_case-Keeps c events db u db' h
Commits-Follows {db = db} {db' = db'} (appended id event u h) =
    append_event-Keeps id event db u db' h
Commits-Follows {db = db} {db' = db'} (prepared correlation id now u h) =
    prepare_for_decision-Follows correlation id now db db' u h
Commits-Follows {db = db} {db' = db'} (decided ids now s r h) =
    save_decision_and_schedule-Keeps ids now s db r db' h
Commits-Follows {db = db} {db' = db'} (claimed_work worker now lease s h) =
    claim_row-Keeps _ _ _ db s db' h
Commits-Follows {db = db} {db' = db'} (started s now u h) = mark_executing-Keeps s now db u db' h
Commits-Follows {db = db} {db' = db'} (completed key s r now u h) =
    complete_execution-Keeps s now key r db u db' h
Commits-Follows {db = db} {db' = db'} (suppressed s reason now u h) =
    mark_suppressed-Keeps s now reason db u db' h
Commits-Follows {db = db} {db' = db'} (claimed_observation worker now lease s h) =
    claim_row-Keeps _ _ _ db s db' h
Commits-Follows {db = db} {db' = db'} (reassessed s now ready h) =
    prepare_reassessment-Keeps s now db ready db' h
Commits-Follows {db = db} {db' = db'} (human_reviewed is_json ids cmd r h) =
    apply_human_review-Keeps is_json ids cmd db r db' h
Commits-Follows {db = db} {db' = db'} (promise_created_ p check_id correlation r h) =
    create_promise-Keeps p check_id correlation db r db' h
Commits-Follows {db = db} {db' = db'} (check_claimed_ worker now lease id h) =
    claim_due_check-Keeps worker now lease db id db' h
Commits-Follows {db = db} {db' = db'} (promise_resolved ratio correlation id forced now r h) =
    resolve_promise-Keeps ratio correlation id now forced db r db' h
Commits-Follows {db = db} {db' = db'}
      (promise_resolved_for_demo ratio correlation id outcome now r h) =
    resolve_for_demo-Keeps ratio correlation id now outcome db r db' h
Commits-Follows {db = db} {db' = db'} (promise_cancelled_ id correlation now r h) =
    cancel_promise-Keeps id correlation now db r db' h
Commits-Follows {db = db} {db' = db'} (answered r b h) = save_customer_response-Keeps r db b db' h
Commits-Follows {db = db} {db' = db'} (attributed spell id i w r h) =
    attribute_recovery-Keeps spell id i w db r db' h
