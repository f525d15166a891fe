-- ===== src/Store/Queue.antt =====
-- The claims of the two work queues in backend/internal/store/workflow.go: `ClaimDue` and
-- `ClaimDueObservation`. A row that another transaction has locked (`SKIP LOCKED`) is not
-- modelled: the transactions run one after the other.
pub mod Leases
use razorpay_ai_revenue_reco.Base.{
  ℕ, zero, suc, String, ◌≡◌, ◌+◌, refl, Bool, true, false, ◌&&◌, ◌||◌, not, Option, none, some,
  List, [], ◌∷◌, str_eq,
}
use razorpay_ai_revenue_reco.Base.Tests.{◌==◌, ltb, leb, ltb_text, if◌then◌else◌}
use razorpay_ai_revenue_reco.Base.Clock.{Time}
use razorpay_ai_revenue_reco.Store.Tables.{
  Database, StoreError, no_due_work, no_due_observation, Tx, Result, ok, err, has_id, update_where,
  ScheduledAction, ScheduleStatus, pending, claimed, executing_, retry_pending, observation_pending,
  observation_claimed,
}

-- `COALESCE(next_retry_at, scheduled_for)`
coalesce : Option Time → Time → Time
coalesce none t = t
coalesce (some r) t = r

unfoldable pub due_at : ScheduledAction → Time
unfolding coalesce
due_at s = coalesce s.next_retry_at s.scheduled_for

-- `lease_expires_at <= $1`; NULL is not.
unfoldable pub lease_over : Time → Option Time → Bool
lease_over now none = false
lease_over now (some t) = leb t now

-- `status IN(…) AND (status NOT IN('CLAIMED','EXECUTING') OR lease_expires_at <= $1)`
unfoldable pub may_claim : ScheduleStatus → Bool → Bool
may_claim pending over = true
may_claim retry_pending over = true
may_claim claimed over = over
may_claim executing_ over = over
may_claim _ over = false

unfoldable pub is_due : Time → ScheduledAction → Bool
unfolding due_at lease_over may_claim
is_due now s = may_claim s.status (lease_over now s.lease_expires_at) && leb (due_at s) now

unfoldable pub may_observe : ScheduleStatus → Bool → Bool
may_observe observation_pending over = true
may_observe observation_claimed over = over
may_observe _ over = false

unfoldable pub is_due_observation : Time → ScheduledAction → Bool
unfolding lease_over may_observe
is_due_observation now s =
    may_observe s.status (lease_over now s.lease_expires_at) && lease_over now s.next_retry_at

-- `ORDER BY COALESCE(next_retry_at,scheduled_for),id`
unfoldable pub comes_first : ScheduledAction → ScheduledAction → Bool
unfolding due_at
comes_first s t = if due_at s == due_at t then ltb_text s.id t.id else ltb (due_at s) (due_at t)

unfoldable pub better : ScheduledAction → Option ScheduledAction → ScheduledAction
unfolding comes_first
better s none = s
better s (some t) = if comes_first t s then t else s

-- `LIMIT 1` of the rows that the test accepts.
unfoldable pub first_of : (ScheduledAction → Bool) → List ScheduledAction → Option ScheduledAction
unfolding better
first_of p [] = none
first_of p (s ∷ ss) = let rest = first_of p ss in if p s then some (better s rest) else rest

unfoldable pub take_lease : ScheduleStatus → String → Time → ScheduledAction → ScheduledAction
take_lease st worker expires s = record s {
  status = st;
  lease_owner = some worker;
  lease_expires_at = some expires;
}

unfoldable pub claim : String → Time → ScheduledAction → ScheduledAction
unfolding take_lease
claim worker expires s =
    take_lease claimed worker expires (record s { attempt_count = suc s.attempt_count })

-- The chosen row is updated and returned.
unfoldable pub claim_row :
    StoreError → (ScheduledAction → ScheduledAction) → Option ScheduledAction → Tx ScheduledAction
claim_row e f none db = err e
claim_row e f (some s) db =
    ok (f s, record db { schedules = update_where (has_id s.id) f db.schedules })

unfoldable pub claim_due : String → Time → ℕ → Tx ScheduledAction
unfolding claim_row
claim_due worker now lease db =
    claim_row no_due_work (claim worker (now + lease)) (first_of (is_due now) db.schedules) db

unfoldable pub claim_due_observation : String → Time → ℕ → Tx ScheduledAction
unfolding claim_row
claim_due_observation worker now lease db =
    claim_row no_due_observation (take_lease observation_claimed worker (now + lease))
      (first_of (is_due_observation now) db.schedules) db
