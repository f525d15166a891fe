-- ===== src/Operations/Lifecycle.antt =====
-- What a human review does to the cases.
use razorpay_ai_revenue_reco.Base.{
  ℕ, ◌+◌, ◌≡◌, refl, Bool, true, false, ◌||◌, Option, none, some, List, sym, subst,
}
use razorpay_ai_revenue_reco.Domain.States.{
  CaseState, action_pending, policy_review, scheduled, escalated, stopped, can_transition, state_eq,
  state_eq→≡,
}
use razorpay_ai_revenue_reco.Domain.Entities.{RecoveryCase, RawJson}
use razorpay_ai_revenue_reco.Store.Rows.{Review, ReviewReason}
use razorpay_ai_revenue_reco.Store.Tables.{
  Tx, ◌>>◌, pure, demand, move, update_case_if, not_reviewable, ScheduledAction,
}
use razorpay_ai_revenue_reco.Store.Lifecycle.{
  Moves, Keeps, bind-Keeps, pass, Quiet-Keeps, demand-Quiet, move-Moves, lock_row-Keeps,
  update_case_if-Keeps,
}
use razorpay_ai_revenue_reco.Store.Decisions.{add_action, add_schedule}
use razorpay_ai_revenue_reco.Base.Clock.{Time}
use razorpay_ai_revenue_reco.Operations.Approval.{ApplyCommand}
use razorpay_ai_revenue_reco.Store.Reviews

-- The guard on the state is what the table asks for.
pub from_state :
    (from to : CaseState) (now : Time) (c : RecoveryCase)
    → can_transition from to ≡ true
    → Reviews.in_state from c ≡ true
    → Moves c (move to now c)
unfolding Reviews.in_state
from_state from to now c e h =
    move-Moves c to now
      (subst (λ s. can_transition s to ≡ true) (sym (state_eq→≡ c.current_state from h)) e)

module _ (is_json : RawJson → Bool) (ids : Reviews.ReviewIds) (cmd : ApplyCommand) where
  schedule_approved-Keeps :
      (version : ℕ) (reasons : List ReviewReason)
      → Keeps (Reviews.schedule_approved ids cmd version reasons)
  unfolding Reviews.schedule_approved can_transition
  schedule_approved-Keeps version reasons =
      pass (Reviews.add_approval (Reviews.approved_policy ids cmd version reasons))
        (add_action (Reviews.approved_action ids cmd) >> first) (λ db a db' h. cc h)
        (pass (add_action (Reviews.approved_action ids cmd)) first (λ db a db' h. cc h)
          (update_case_if-Keeps cmd.item.case_id (Reviews.in_state escalated)
            (move action_pending cmd.now) second
            (λ c h. from_state escalated action_pending cmd.now c refl h)
            (update_case_if-Keeps cmd.item.case_id (Reviews.in_state action_pending)
              (move policy_review cmd.now) third
              (λ c h. from_state action_pending policy_review cmd.now c refl h)
              (update_case_if-Keeps cmd.item.case_id (Reviews.in_state policy_review)
                (move scheduled cmd.now) last
                (λ c h. from_state policy_review scheduled cmd.now c refl h)
                (Quiet-Keeps last (λ db a db' h. cc h))))))
    where
      row : ScheduledAction
      row = Reviews.approved_schedule ids cmd (version + 3)

      last : Tx (Option ScheduledAction)
      last = add_schedule row >> pure (some row)

      third : Tx (Option ScheduledAction)
      third =
          update_case_if cmd.item.case_id (Reviews.in_state policy_review) (move scheduled cmd.now)
          >> last

      second : Tx (Option ScheduledAction)
      second =
          update_case_if cmd.item.case_id (Reviews.in_state action_pending)
            (move policy_review cmd.now)
          >> third

      first : Tx (Option ScheduledAction)
      first =
          update_case_if cmd.item.case_id (Reviews.in_state escalated) (move action_pending cmd.now)
          >> second

  schedule_allowed-Keeps :
      (b : Bool) (version : ℕ) (reasons : List ReviewReason)
      → Keeps (Reviews.schedule_allowed b ids cmd version reasons)
  unfolding Reviews.schedule_allowed
  schedule_allowed-Keeps true version reasons = schedule_approved-Keeps version reasons
  schedule_allowed-Keeps false version reasons = Quiet-Keeps (pure none) (λ db a db' h. cc h)

  stop_if-Keeps : (b : Bool) {B : Type 0} (k : Tx B) → Keeps k → Keeps (Reviews.stop_if b cmd >> k)
  unfolding Reviews.stop_if can_transition
  stop_if-Keeps true k q =
      update_case_if-Keeps cmd.item.case_id (Reviews.in_state escalated) (move stopped cmd.now) k
        (λ c h. from_state escalated stopped cmd.now c refl h) q
  stop_if-Keeps false k q = q

  apply_locked-Keeps :
      (c : RecoveryCase) (v : Option ℕ) → Keeps (Reviews.apply_locked is_json ids cmd c v)
  unfolding Reviews.apply_locked Reviews.apply_authorized Reviews.record_review
  apply_locked-Keeps c none = λ db a db' h. cc h
  apply_locked-Keeps c (some v) =
      pass
        (demand (Reviews.is_approval cmd.input.decision || state_eq c.current_state escalated)
          not_reviewable)
        _ (demand-Quiet _ not_reviewable)
        (bind-Keeps (Reviews.schedule_allowed _ ids cmd c.version _) _
          (schedule_allowed-Keeps _ c.version _)
          (λ s.
            stop_if-Keeps (Reviews.is_stop cmd.input.decision) _
              (Quiet-Keeps (Reviews.record_review _ s _) (λ db a db' h. cc h))))

  apply_new-Keeps : (r : Option Review) → Keeps (Reviews.apply_new is_json ids cmd r)
  unfolding Reviews.apply_new Reviews.apply_row
  apply_new-Keeps (some r) = Quiet-Keeps _ (λ db a db' h. cc h)
  apply_new-Keeps none =
      lock_row-Keeps cmd.item.case_id (Reviews.apply_row is_json ids cmd)
        (λ c db a db' e h. apply_locked-Keeps c (db.merchant_policies c.merchant_id) db a db' h)

  pub apply_human_review-Keeps : Keeps (Reviews.apply_human_review is_json ids cmd)
  unfolding Reviews.apply_human_review
  apply_human_review-Keeps db a db' h =
      apply_new-Keeps (Reviews.find_review cmd.input.idempotency_key db.reviews) db a db' h
