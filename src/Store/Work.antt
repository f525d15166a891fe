-- ===== src/Store/Work.antt =====
-- The transactions of backend/internal/store/workflow.go that workers run, and what they do to the
-- cases.
use razorpay_ai_revenue_reco.Base.{
  ℕ, suc, String, ◌≡◌, refl, Bool, true, false, ◌&&◌, [], ◌∷◌, sym, subst,
}
use razorpay_ai_revenue_reco.Base.Tests.{if◌then◌else◌}
use razorpay_ai_revenue_reco.Base.Lists.{any}
use razorpay_ai_revenue_reco.Base.Clock.{Time, after}
use razorpay_ai_revenue_reco.Domain.States.{
  CaseState, action_pending, scheduled, executing, waiting_outcome, reassessing, exhausted,
  can_transition, state_eq, state_eq→≡,
}
use razorpay_ai_revenue_reco.Domain.Entities.{RecoveryCase}
use razorpay_ai_revenue_reco.Store.Tables.{
  Database, Tx, ◌>>=◌, ◌>>◌, pure, demand, lock_row, action_failed_, action_executed_,
  record_events, update_schedules, has_id, update_case, move, ScheduledAction, conflict,
}
use razorpay_ai_revenue_reco.Store.Lifecycle.{
  Moves, Follows-same, Keeps, KeepsAt, Quiet, pass, Quiet-Keeps, demand-Quiet, move-Moves,
  lock_row-Keeps, update_case-KeepsAt, update_case-last, at_then_Keeps,
}
use razorpay_ai_revenue_reco.Store.Execution
use razorpay_ai_revenue_reco.Store.Observation

-- A transaction that writes no case.
ok-Quiet : {A : Type 0} (id : String) (c : RecoveryCase) (m : Tx A) → Quiet m → KeepsAt id c m
ok-Quiet id c m q db a db' e h = Quiet-Keeps m q db a db' h

-- A move to a state that the table allows from the state that was read.
known :
    (c : RecoveryCase) (from to : CaseState) (now : Time)
    → c.current_state ≡ from
    → can_transition from to ≡ true
    → Moves c (move to now c)
known c from to now e h = move-Moves c to now (subst (λ s. can_transition s to ≡ true) (sym e) h)

-- The two moves that a worker writes after it has executed an action.
module _ (s : ScheduledAction) (now : Time) where
  start_if-Keeps :
      (c : RecoveryCase) (b : Bool)
      → state_eq c.current_state scheduled ≡ b
      → KeepsAt s.case_id c (Execution.start_if b s now c.version)
  unfolding Execution.start_if can_transition
  start_if-Keeps c true e =
      update_case-KeepsAt s.case_id c (move executing now)
        (update_schedules (has_id s.id)
          (λ r. record r { case_version_at_schedule = suc c.version }))
        (known c scheduled executing now (state_eq→≡ c.current_state scheduled e) refl)
        (λ db a db' e1 h.
          Quiet-Keeps
            (update_schedules (has_id s.id)
              (λ r. record r { case_version_at_schedule = suc c.version }))
            (λ x y z w. cc w) db a db' h)
  start_if-Keeps c false e = λ db a db' e1 h. Quiet-Keeps (pure tt) (λ x y z w. cc w) db a db' h

  start_row-Keeps : Keeps (lock_row s.case_id >>= Execution.start_case s now)
  unfolding Execution.start_case
  start_row-Keeps =
      lock_row-Keeps s.case_id (Execution.start_case s now)
        (λ c. start_if-Keeps c (state_eq c.current_state scheduled) refl)

  move_on-Keeps :
      (failure : Bool) (c : RecoveryCase) (st : CaseState)
      → c.current_state ≡ st
      → KeepsAt s.case_id c (Execution.move_on failure s.case_id now st)
  unfolding Execution.move_on can_transition move
  move_on-Keeps true c executing e =
      update_case-KeepsAt s.case_id c (move reassessing now)
        (update_case s.case_id (move action_pending now)) (known c executing reassessing now e refl)
        (update_case-last s.case_id (move reassessing now c) (move action_pending now)
          (known (move reassessing now c) reassessing action_pending now refl refl))
  move_on-Keeps false c executing e =
      update_case-last s.case_id c (move waiting_outcome now)
        (known c executing waiting_outcome now e refl)
  move_on-Keeps failure c _ e = λ db a db' e1 h. Quiet-Keeps (pure tt) (λ x y z w. cc w) db a db' h

  settle-Keeps :
      (r : Execution.ExecutorResult) (failure : Bool) → Keeps (Execution.settle s r failure now)
  unfolding Execution.settle
  settle-Keeps r failure =
      pass (Execution.finish s r failure now) (written >> (lock_row s.case_id >>= tail))
        (λ db a db' h. cc h)
        (pass written (lock_row s.case_id >>= tail) (λ db a db' h. cc h)
          (lock_row-Keeps s.case_id tail (λ c.
            at_then_Keeps (Execution.move_on failure s.case_id now c.current_state) (λ u. event)
              s.case_id c (move_on-Keeps failure c c.current_state refl)
              (λ u. Quiet-Keeps event (λ x y z w. cc w)))))
    where
      written : Tx (Unit {0})
      written =
          Execution.update_action s.recovery_action_id
            (if failure then action_failed_ else action_executed_) now

      event : Tx (Unit {0})
      event = record_events s.case_id (Execution.settled_event failure now s.id ∷ [])

      tail : RecoveryCase → Tx (Unit {0})
      tail c = Execution.move_on failure s.case_id now c.current_state >> event

  retry_or_settle-Keeps :
      (retry : Bool) (r : Execution.ExecutorResult) (failure : Bool)
      → Keeps (Execution.retry_or_settle retry s r failure now)
  unfolding Execution.retry_or_settle
  retry_or_settle-Keeps true r failure = Quiet-Keeps (Execution.postpone s r now) (λ x y z w. cc w)
  retry_or_settle-Keeps false r failure = settle-Keeps r failure

  pub complete_execution-Keeps :
      (key : String → ℕ → String) (r : Execution.ExecutorResult)
      → Keeps (Execution.complete_execution key s r now)
  unfolding Execution.complete_execution
  complete_execution-Keeps key r db u db' h = Follows-same db _ db' refl (
      retry_or_settle-Keeps (Execution.wants_retry s r) r
        (Execution.is_failed (Execution.status_of r.status)) _ u db' h)

  pub mark_suppressed-Keeps : (reason : String) → Keeps (Execution.mark_suppressed s reason now)
  unfolding Execution.mark_suppressed
  mark_suppressed-Keeps reason =
      Quiet-Keeps (Execution.mark_suppressed s reason now) (λ x y z w. cc w)

  pub mark_executing-Keeps : Keeps (Execution.mark_executing s now)
  unfolding Execution.mark_executing
  mark_executing-Keeps db u db' h = Follows-same db _ db' refl (
      pass (demand (found db) conflict) (lock_row s.case_id >>= Execution.start_case s now)
        (demand-Quiet (found db) conflict) start_row-Keeps _ u db' h)
    where
      found : Database → Bool
      found d = any (λ r. has_id s.id r && Execution.is_claimed r.status) d.schedules

  reassess-Keeps :
      (in_window : Bool) (c : RecoveryCase) (st : CaseState)
      → c.current_state ≡ st
      → KeepsAt s.case_id c (Observation.reassess in_window s.case_id now st)
  unfolding Observation.reassess can_transition move
  reassess-Keeps true c waiting_outcome e =
      update_case-KeepsAt s.case_id c (move reassessing now)
        (update_case s.case_id (move action_pending now) >> pure true)
        (known c waiting_outcome reassessing now e refl)
        (update_case-KeepsAt s.case_id (move reassessing now c) (move action_pending now)
          (pure true) (known (move reassessing now c) reassessing action_pending now refl refl)
          (λ db a db' e1 h. Quiet-Keeps (pure true) (λ x y z w. cc w) db a db' h))
  reassess-Keeps false c waiting_outcome e =
      update_case-KeepsAt s.case_id c (move exhausted now) (pure false)
        (known c waiting_outcome exhausted now e refl)
        (λ db a db' e1 h. Quiet-Keeps (pure false) (λ x y z w. cc w) db a db' h)
  reassess-Keeps b c _ e = λ db a db' e1 h. Quiet-Keeps (pure false) (λ x y z w. cc w) db a db' h

  pub prepare_reassessment-Keeps : Keeps (Observation.prepare_reassessment s now)
  unfolding Observation.prepare_reassessment Observation.observe
  prepare_reassessment-Keeps = lock_row-Keeps s.case_id tail (λ c.
      at_then_Keeps
        (Observation.reassess (after c.recovery_deadline now) s.case_id now c.current_state)
        (Observation.observe s now) s.case_id c
        (reassess-Keeps (after c.recovery_deadline now) c c.current_state refl)
        (λ ready. Quiet-Keeps (Observation.observe s now ready) (λ x y z w. cc w)))
    where
      tail : RecoveryCase → Tx Bool
      tail c =
          Observation.reassess (after c.recovery_deadline now) s.case_id now c.current_state
          >>= Observation.observe s now
