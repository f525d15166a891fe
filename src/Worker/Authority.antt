-- ===== src/Worker/Authority.antt =====
-- What has been checked when the worker acts: backend/internal/orchestrator/orchestrator.go.
use razorpay_ai_revenue_reco.Base.{
  String, ◌≡◌, refl, Bool, true, false, Option, none, some, ◌⊎◌, arith,
}
use razorpay_ai_revenue_reco.Base.Clock.{Time}
use razorpay_ai_revenue_reco.Domain.States.{recovered, state_eq}
use razorpay_ai_revenue_reco.Context.{DecisionContext, Platform}
use razorpay_ai_revenue_reco.Gate.{allow}
use razorpay_ai_revenue_reco.Policy.Tally.{Decision, approve, escalate, evaluate}
use razorpay_ai_revenue_reco.Store.Tables.{Database, Result, ok, err, ScheduledAction}
use razorpay_ai_revenue_reco.Store.Queue.{claim_due}
use razorpay_ai_revenue_reco.Store.Decisions.{gate_is_allow}
use razorpay_ai_revenue_reco.Worker.{
  World, Authorization, RunResult, reconciled_with, executed, not_recorded, run_once, claimed_run,
  context_run, fresh_run, authorized_run, checked_run, suppress_run, recheck, is_stale, may_run,
  lease,
}

-- The round got to the provider, or to the result of an earlier call.
unfoldable pub has_acted : RunResult → Bool
has_acted (reconciled_with r) = true
has_acted (executed r) = true
has_acted (not_recorded r e) = true
has_acted _ = false

-- What stands between a claimed schedule and the provider.
pub record IsAuthorized (p : Platform) (ctx : DecisionContext) (s : ScheduledAction)
    (auth : Authorization) (now : Time) : Type 0 where
  pub same_version : ctx.case_.version ≡ s.case_version_at_schedule
  pub not_recovered : state_eq ctx.case_.current_state recovered ≡ false
  pub unpaid : ctx.payment.already_recovered ≡ false
  pub worth_it : auth.gate.decision ≡ allow
  pub policy_passed :
      ((evaluate p ctx s.decision_id ctx.case_.version auth.candidate auth.gate now).decision
        ≡ approve)
      ⊎ (((evaluate p ctx s.decision_id ctx.case_.version auth.candidate auth.gate now).decision
            ≡ escalate)
          × (auth.human_approved ≡ true))

may_run-inv :
    (d : Decision) (human : Bool)
    → may_run d human ≡ true
    → (d ≡ approve) ⊎ ((d ≡ escalate) × (human ≡ true))
unfolding may_run
may_run-inv d human h = ground arith

checks-IsAuthorized :
    (p : Platform) (ctx : DecisionContext) (s : ScheduledAction) (auth : Authorization) (now : Time)
    → is_stale ctx s ≡ false
    → recheck p ctx s auth now ≡ none
    → IsAuthorized p ctx s auth now
unfolding is_stale recheck gate_is_allow
checks-IsAuthorized p ctx s auth now h g = record {
  same_version = ground arith;
  not_recovered = ground arith;
  unpaid = ground arith;
  worth_it = ground arith;
  policy_passed = may_run-inv _ auth.human_approved (ground arith);
}

-- A round of the worker that acts has claimed a schedule, and has read a context and an
-- authorization under which: the case has the version it was scheduled with and is neither recovered
-- nor paid, the gate allowed the candidate, and a fresh policy evaluation approves it, or escalates
-- it where a human has approved.
pub run_once-IsAuthorized :
    (w : World) (worker : String) (now later : Time) (db : Database)
    → has_acted (run_once w worker now later db).0 ≡ true
    → (s : ScheduledAction) × (claimed : Database) × (ctx : DecisionContext)
      × (auth : Authorization) × (claim_due worker now lease db ≡ ok (s, claimed))
      × (w.context_of s.case_id claimed ≡ some ctx)
      × (w.authorization_of s.decision_id s.policy_evaluation_id claimed ≡ some auth)
      × IsAuthorized w.platform ctx s auth now
unfolding run_once claimed_run context_run fresh_run authorized_run checked_run suppress_run
    has_acted
run_once-IsAuthorized w worker now later db h = by_claim (claim_due worker now lease db) refl h
  where
    Goal : Type 0
    Goal =
        (s : ScheduledAction) × (claimed : Database) × (ctx : DecisionContext)
        × (auth : Authorization) × (claim_due worker now lease db ≡ ok (s, claimed))
        × (w.context_of s.case_id claimed ≡ some ctx)
        × (w.authorization_of s.decision_id s.policy_evaluation_id claimed ≡ some auth)
        × IsAuthorized w.platform ctx s auth now

    by_recheck :
        (s : ScheduledAction) (d : Database) (ctx : DecisionContext) (auth : Authorization)
        → claim_due worker now lease db ≡ ok (s, d)
        → w.context_of s.case_id d ≡ some ctx
        → is_stale ctx s ≡ false
        → w.authorization_of s.decision_id s.policy_evaluation_id d ≡ some auth
        → (r : Option String) → recheck w.platform ctx s auth now ≡ r
        → has_acted (checked_run w ctx s now later r d).0 ≡ true
        → Goal
    by_recheck s d ctx auth e c f a none q g =
        (s, d, ctx, auth, e, c, a, checks-IsAuthorized w.platform ctx s auth now f q)
    by_recheck s d ctx auth e c f a (some r) q g = cc g

    by_auth :
        (s : ScheduledAction) (d : Database) (ctx : DecisionContext)
        → claim_due worker now lease db ≡ ok (s, d)
        → w.context_of s.case_id d ≡ some ctx
        → is_stale ctx s ≡ false
        → (r : Option Authorization) → w.authorization_of s.decision_id s.policy_evaluation_id d ≡ r
        → has_acted (authorized_run w ctx s now later r d).0 ≡ true
        → Goal
    by_auth s d ctx e c f none q g = cc g
    by_auth s d ctx e c f (some auth) q g =
        by_recheck s d ctx auth e c f q (recheck w.platform ctx s auth now) refl g

    by_stale :
        (s : ScheduledAction) (d : Database) (ctx : DecisionContext)
        → claim_due worker now lease db ≡ ok (s, d)
        → w.context_of s.case_id d ≡ some ctx
        → (b : Bool) → is_stale ctx s ≡ b
        → has_acted (fresh_run w ctx s now later b d).0 ≡ true
        → Goal
    by_stale s d ctx e c true q g = cc g
    by_stale s d ctx e c false q g =
        by_auth s d ctx e c q (w.authorization_of s.decision_id s.policy_evaluation_id d) refl g

    by_context :
        (s : ScheduledAction) (d : Database)
        → claim_due worker now lease db ≡ ok (s, d)
        → (r : Option DecisionContext) → w.context_of s.case_id d ≡ r
        → has_acted (context_run w s now later r d).0 ≡ true
        → Goal
    by_context s d e none q g = cc g
    by_context s d e (some ctx) q g = by_stale s d ctx e q (is_stale ctx s) refl g

    by_claim :
        (r : Result (ScheduledAction × Database))
        → claim_due worker now lease db ≡ r
        → has_acted (claimed_run w now later r db).0 ≡ true
        → Goal
    by_claim (err x) q g = cc g
    by_claim (ok (s, d)) q g = by_context s d q (w.context_of s.case_id d) refl g
