-- ===== src/Store/Promises/Checks.antt =====
-- The due checks of promises, and their claim: backend/internal/store/promises.go.
use razorpay_ai_revenue_reco.Base.{
  ℕ, suc, String, ◌+◌, Bool, true, false, ◌&&◌, Option, none, some, List, [], ◌∷◌, str_eq,
}
use razorpay_ai_revenue_reco.Base.Tests.{◌==◌, ltb, leb, ltb_text, if◌then◌else◌}
use razorpay_ai_revenue_reco.Base.Clock.{Time}
use razorpay_ai_revenue_reco.Store.Rows.{PromiseCheck, CheckStatus, check_pending, check_claimed}
use razorpay_ai_revenue_reco.Store.Tables.{Tx, ok, err, no_due_promise}
use razorpay_ai_revenue_reco.Store.Queue.{lease_over}

-- `status IN('PENDING','CLAIMED') AND scheduled_for<=$1 AND (status<>'CLAIMED' OR lease_expires_at<=$1)`
may_check : CheckStatus → Bool → Bool
may_check check_pending over = true
may_check check_claimed over = over
may_check _ over = false

unfoldable pub is_due_check : Time → PromiseCheck → Bool
unfolding may_check lease_over
is_due_check now c =
    may_check c.status (lease_over now c.lease_expires_at) && leb c.scheduled_for now

checked_before : PromiseCheck → PromiseCheck → Bool
checked_before c d =
    if c.scheduled_for == d.scheduled_for
    then ltb_text c.id d.id
    else ltb c.scheduled_for d.scheduled_for

sooner : PromiseCheck → Option PromiseCheck → PromiseCheck
unfolding checked_before
sooner c none = c
sooner c (some d) = if checked_before d c then d else c

unfoldable pub first_check : Time → List PromiseCheck → Option PromiseCheck
unfolding sooner
first_check now [] = none
first_check now (c ∷ cs) =
    let rest = first_check now cs in if is_due_check now c then some (sooner c rest) else rest

unfoldable pub update_checks :
    (PromiseCheck → Bool) → (PromiseCheck → PromiseCheck) → List PromiseCheck → List PromiseCheck
update_checks p f [] = []
update_checks p f (c ∷ cs) = (if p c then f c else c) ∷ update_checks p f cs

unfoldable pub claim_check : String → Time → PromiseCheck → PromiseCheck
claim_check worker expires c = record c {
  status = check_claimed;
  lease_owner = some worker;
  lease_expires_at = some expires;
  attempt_count = suc c.attempt_count;
}

unfoldable pub claim_found : String → Time → Option PromiseCheck → Tx String
claim_found worker expires none db = err no_due_promise
claim_found worker expires (some c) db = ok (
  c.promise_id,
  record db {
    promise_checks =
        update_checks (λ d. str_eq d.id c.id) (claim_check worker expires) db.promise_checks;
  },
)

-- The statement of `ClaimDuePromise`, which reads the promise in a statement of its own after it.
unfoldable pub claim_due_check : String → Time → ℕ → Tx String
unfolding claim_found
claim_due_check worker now lease db =
    claim_found worker (now + lease) (first_check now db.promise_checks) db
