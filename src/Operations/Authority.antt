-- ===== src/Operations/Authority.antt =====
-- The authority of a schedule that `Review` returns: backend/internal/operations/service.go over
-- backend/internal/store/operations.go.
use razorpay_ai_revenue_reco.Base.{ℕ, String, ◌≡◌, refl, Bool, true, false, Option, none, some, ap}
use razorpay_ai_revenue_reco.Base.Clock.{Time}
use razorpay_ai_revenue_reco.Domain.States.{scheduled}
use razorpay_ai_revenue_reco.Domain.Entities.{RecoveryCase}
use razorpay_ai_revenue_reco.Context.{DecisionContext}
use razorpay_ai_revenue_reco.Policy.Tally.{PolicyResult, evaluate}
use razorpay_ai_revenue_reco.Store.Tables.{Database, ScheduledAction, Result, ok, err}
use razorpay_ai_revenue_reco.Store.Reviews.{ReviewIds, Applied, is_approval}
use razorpay_ai_revenue_reco.Operations.{
  Desk, ReviewError, reviewed, review_refusal, fresh_policy, applied, apply_with, review_item,
  checked_review, review,
}
use razorpay_ai_revenue_reco.Operations.Approval.{QueueItem, ReviewInput, ApplyCommand}
use razorpay_ai_revenue_reco.Operations.Guards.{IsReauthorized, schedule-IsReauthorized}

-- The case before and after, for a command.
abbrev pub IsScheduled : ApplyCommand → Database → Database → ScheduledAction → Type 0
IsScheduled cmd db db' t =
    (c : RecoveryCase) × (v : ℕ) × (db.cases cmd.item.case_id ≡ some c)
    × (db.merchant_policies c.merchant_id ≡ some v)
    × IsReauthorized cmd c v
    × (d : RecoveryCase) × (db'.cases cmd.item.case_id ≡ some d)
    × (d.current_state ≡ scheduled)
    × (d.version ≡ t.case_version_at_schedule)

applied-inv :
    (r : Result (Applied × Database)) (a : Applied) (db : Database)
    → applied r ≡ reviewed a db
    → r ≡ ok (a, db)
unfolding applied
applied-inv (ok (b, db1)) a db h = cc h
applied-inv (err e) a db h = cc h

module _ (desk : Desk) (ids : ReviewIds) (i : ReviewInput) (now : Time) (db : Database)
    (r : Applied) (db' : Database) (t : ScheduledAction) (returned : r.schedule ≡ some t) where
  command : QueueItem → PolicyResult → ApplyCommand
  command item fresh = record { item = item; input = i; fresh_policy = fresh; now = now }

  -- The context and the evaluation behind a schedule.
  abbrev Evaluated : QueueItem → Option DecisionContext → PolicyResult → Type 0
  Evaluated item o fresh =
      (ctx : DecisionContext) × (o ≡ some ctx)
      × (fresh
          ≡ evaluate desk.platform ctx item.decision_id ctx.case_.version item.candidate item.gate
              now)

  evaluated :
      (item : QueueItem) (o : Option DecisionContext) (fresh : PolicyResult) (b : Bool)
      → b ≡ true
      → fresh_policy desk item b o now ≡ some fresh
      → Evaluated item o fresh
  unfolding fresh_policy
  evaluated item (some ctx) fresh true e h = (ctx, refl, cc h)
  evaluated item none fresh true e h = cc h
  evaluated item o fresh false e h = cc e

  with_fresh :
      (item : QueueItem) (o : Option DecisionContext) (p : Option PolicyResult)
      → fresh_policy desk item (is_approval i.decision) o now ≡ p
      → apply_with desk ids item i p now db ≡ reviewed r db'
      → (fresh : PolicyResult) × Evaluated item o fresh × IsScheduled (command item fresh) db db' t
  unfolding apply_with command is_approval
  with_fresh item o none e h = cc h
  with_fresh item o (some fresh) e h =
      let g =
        schedule-IsReauthorized desk.is_json ids (command item fresh) db r db' t
          (applied-inv _ r db' h) returned in
      (fresh, evaluated item o fresh (is_approval i.decision) (ap is_approval g.4.asked) e, g)

  with_item :
      (id : String) (o : Option QueueItem)
      → desk.item_of id db ≡ o
      → review_item desk ids id i o now db ≡ reviewed r db'
      → (item : QueueItem) × (desk.item_of id db ≡ some item)
        × (fresh : PolicyResult) × Evaluated item (desk.context_of id db) fresh
        × IsScheduled (command item fresh) db db' t
  unfolding review_item
  with_item id none e h = cc h
  with_item id (some item) e h =
      let (fresh, v, g) = with_fresh item (desk.context_of id db) _ refl h in (item, e, fresh, v, g)

  with_checks :
      (id : String) (o : Option ReviewError)
      → checked_review o desk ids id i now db ≡ reviewed r db'
      → review_item desk ids id i (desk.item_of id db) now db ≡ reviewed r db'
  unfolding checked_review
  with_checks id (some e) h = cc h
  with_checks id none h = h

-- A review by the service that returns a schedule was an approval of a case that was still
-- escalated, at the version that the request names, before the deadline, and under the version of
-- the merchant's policy that the service has read with the item of the queue. The policy was
-- evaluated again on the context of the case at the time of the review, and approved the action or
-- escalated it. The case is then SCHEDULED at the version that the schedule carries.
pub review-IsReauthorized :
    (desk : Desk) (ids : ReviewIds) (id : String) (i : ReviewInput) (now : Time) (db : Database)
    (r : Applied) (db' : Database) (t : ScheduledAction)
    → review desk ids id i now db ≡ reviewed r db'
    → r.schedule ≡ some t
    → (item : QueueItem) × (desk.item_of id db ≡ some item)
      × (fresh : PolicyResult) × ((ctx : DecisionContext) × (desk.context_of id db ≡ some ctx)
          × (fresh
              ≡ evaluate desk.platform ctx item.decision_id ctx.case_.version item.candidate
                  item.gate now))
      × IsScheduled (record { item = item; input = i; fresh_policy = fresh; now = now }) db db' t
unfolding review command
review-IsReauthorized desk ids id i now db r db' t h returned =
    with_item desk ids i now db r db' t returned id (desk.item_of id db) refl
      (with_checks desk ids i now db r db' t returned id (review_refusal desk i now) h)
