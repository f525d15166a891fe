-- ===== src/Store/Operations.antt =====
-- The transactions of backend/internal/store/decision_workflow.go and decisions.go, and what they do
-- to the cases.
use razorpay_ai_revenue_reco.Base.{
  ℕ, suc, String, ◌≡◌, refl, Bool, true, false, ◌&&◌, not, Option, none, some, List, [], ◌∷◌, arith,
  sym, subst,
}
use razorpay_ai_revenue_reco.Base.Tests.{◌==◌}
use razorpay_ai_revenue_reco.Base.Clock.{Time}
use razorpay_ai_revenue_reco.Domain.States.{
  CaseState, action_pending, policy_review, scheduled, escalated, stopped, can_transition, state_eq,
  state_eq→≡, is_valid, is_terminal,
}
use razorpay_ai_revenue_reco.Domain.Entities.{RecoveryCase}
use razorpay_ai_revenue_reco.Store.Tables.{
  Database, Tx, ok, ◌>>◌, pure, demand, record_events, update_case_if, move, Snapshot,
  ScheduledAction, invalid_configured_transition, conflict, insert_event, draft, system_actor,
}
use razorpay_ai_revenue_reco.Store.Lifecycle.{
  Moves, Follows, Keeps, KeepsAt, Quiet, bind-Keeps, pass, Quiet-Keeps, demand-Quiet, move-Moves,
  lock_case-Keeps, update_case_if-Keeps,
}
use razorpay_ai_revenue_reco.Domain.Actions.{action_eq, wait}
use razorpay_ai_revenue_reco.Policy.Tally.{Decision, escalate, stop}
use razorpay_ai_revenue_reco.Store.Decisions

-- A transaction that writes no case.
ok-Quiet : {A : Type 0} (id : String) (c : RecoveryCase) (m : Tx A) → Quiet m → KeepsAt id c m
ok-Quiet id c m q db a db' e h = Quiet-Keeps m q db a db' h

-- The guard of a target is what the next write needs.
from_target :
    (from to : CaseState) (v : ℕ) (now : Time) (c : RecoveryCase)
    → can_transition from to ≡ true
    → Decisions.is_row from v c ≡ true
    → Moves c (move to now c)
unfolding Decisions.is_row
from_target from to v now c e h =
    move-Moves c to now (subst (λ s. can_transition s to ≡ true) (sym same) e)
  where
    same : c.current_state ≡ from
    same = state_eq→≡ c.current_state from (ground arith)

module _ (correlation : String → ℕ → String) (id : String) (now : Time) where
  one_target :
      (n v : ℕ) (t : Decisions.Target) (k : Tx (Unit {0}))
      → Keeps k
      → (b : Bool) → can_transition t.from_state t.to_state ≡ b
      → Keeps (
          demand b invalid_configured_transition
          >> update_case_if id (Decisions.is_row t.from_state v) (move t.to_state now)
          >> insert_event id n
              (draft t.event_type now (system_actor "decision-lifecycle-v1") (correlation id v))
          >> k)
  one_target n v t k q true e =
      update_case_if-Keeps id (Decisions.is_row t.from_state v) (move t.to_state now) (event >> k)
        (λ c h. from_target t.from_state t.to_state v now c e h)
        (bind-Keeps event (λ u. k) (Quiet-Keeps event (λ db a db' h. cc h)) (λ u. q))
    where
      event : Tx (Unit {0})
      event =
          insert_event id n
            (draft t.event_type now (system_actor "decision-lifecycle-v1") (correlation id v))
  one_target n v t k q false e = λ db b db' h. cc h

  advance-Keeps :
      (n v : ℕ) (ts : List Decisions.Target) → Keeps (Decisions.advance correlation id now n v ts)
  unfolding Decisions.advance
  advance-Keeps n v [] = Quiet-Keeps (pure tt) (λ db b db' h. cc h)
  advance-Keeps n v (t ∷ ts) =
      one_target n v t (Decisions.advance correlation id now (suc n) (suc v) ts)
        (advance-Keeps (suc n) (suc v) ts) (can_transition t.from_state t.to_state) refl

  advance_to-Keeps :
      (v : ℕ) (ts : Option (List Decisions.Target))
      → Keeps (Decisions.advance_to correlation id now v ts)
  unfolding Decisions.advance_to
  advance_to-Keeps v none = λ db b db' h. cc h
  advance_to-Keeps v (some []) = Quiet-Keeps (pure tt) (λ db b db' h. cc h)
  advance_to-Keeps v (some (t ∷ ts)) = λ db b db' h. advance-Keeps _ v (t ∷ ts) db b db' h

  -- A committed `PrepareForDecision` moves the case along the table.
  pub prepare_for_decision-Follows :
      (db db' : Database) (u : Unit {0})
      → Decisions.prepare_for_decision correlation id now db ≡ ok (u, db')
      → Follows db db'
  unfolding Decisions.prepare_for_decision Decisions.decision_targets
  prepare_for_decision-Follows db db' u h =
      lock_case-Keeps id
        (λ c.
          Decisions.advance_to correlation id now c.version
            (Decisions.decision_targets c.current_state))
        (λ c db1 b db2 e h1.
          advance_to-Keeps c.version (Decisions.decision_targets c.current_state) db1 b db2 h1)
        db u db' h

live_stops :
    (v : ℕ) (c : RecoveryCase)
    → Decisions.is_live v c ≡ true
    → can_transition c.current_state stopped ≡ true
unfolding Decisions.is_live is_valid is_terminal can_transition
live_stops v c h = ground arith

module _ (ids : Decisions.FreshIds) (now : Time) (s : Snapshot) where
  insert_schedule-Keeps : (row : ScheduledAction) → Keeps (Decisions.insert_schedule ids now s row)
  unfolding Decisions.insert_schedule
  insert_schedule-Keeps row =
      Quiet-Keeps (Decisions.insert_schedule ids now s row) (λ db a db' h. cc h)

  schedule_writes-Keeps : (v : ℕ) → Keeps (Decisions.schedule_writes ids now s v)
  unfolding Decisions.schedule_writes can_transition
  schedule_writes-Keeps v =
      pass (Decisions.add_action (Decisions.new_action ids now s)) (first >> second >> last)
        (λ db a db' h. cc h)
        (update_case_if-Keeps s.case_id (Decisions.is_row action_pending v) (move policy_review now)
          (second >> last) (λ c h. from_target action_pending policy_review v now c refl h)
          (update_case_if-Keeps s.case_id (Decisions.is_row policy_review (suc v))
            (move scheduled now) last
            (λ c h. from_target policy_review scheduled (suc v) now c refl h)
            (insert_schedule-Keeps row)))
    where
      row : ScheduledAction
      row =
          Decisions.new_schedule ids now (Decisions.due_time now s.selected.action) (suc (suc v)) s

      first : Tx (Unit {0})
      first = update_case_if s.case_id (Decisions.is_row action_pending v) (move policy_review now)

      second : Tx (Unit {0})
      second =
          update_case_if s.case_id (Decisions.is_row policy_review (suc v)) (move scheduled now)

      last : Tx ScheduledAction
      last = Decisions.insert_schedule ids now s row

  schedule_decision-Keeps : Keeps (Decisions.schedule_decision ids now s)
  unfolding Decisions.schedule_decision
  schedule_decision-Keeps = lock_case-Keeps s.case_id _ (λ c db b db' e h.
      pass
        (demand (state_eq c.current_state action_pending && (c.version == s.case_version)) conflict)
        (Decisions.schedule_writes ids now s c.version)
        (demand-Quiet (state_eq c.current_state action_pending && (c.version == s.case_version))
          conflict)
        (schedule_writes-Keeps c.version) db b db' h)

  close_case-Keeps : (d : Decision) (live : Bool) → Keeps (Decisions.close_case d live s)
  unfolding Decisions.close_case can_transition
  close_case-Keeps escalate live =
      update_case_if-Keeps s.case_id (Decisions.is_row action_pending s.case_version)
        (move escalated s.policy.created_at) (pure tt)
        (λ c h. from_target action_pending escalated s.case_version s.policy.created_at c refl h)
        (Quiet-Keeps (pure tt) (λ db a db' h. cc h))
  close_case-Keeps stop true =
      update_case_if-Keeps s.case_id (Decisions.is_live s.case_version)
        (move stopped s.policy.created_at) (pure tt)
        (λ c h. move-Moves c stopped s.policy.created_at (live_stops s.case_version c h))
        (Quiet-Keeps (pure tt) (λ db a db' h. cc h))
  close_case-Keeps stop false = Quiet-Keeps (pure tt) (λ db a db' h. cc h)
  close_case-Keeps _ live = Quiet-Keeps (pure tt) (λ db a db' h. cc h)

  save_decision-Keeps : Keeps (Decisions.save_decision s)
  unfolding Decisions.save_decision
  save_decision-Keeps = lock_case-Keeps s.case_id _ (λ c db b db' e h.
      pass (demand (c.version == s.case_version) conflict) (Decisions.add_snapshot s >> rest c)
        (demand-Quiet (c.version == s.case_version) conflict)
        (pass (Decisions.add_snapshot s) (rest c) (λ db1 a db2 h1. cc h1)
          (pass events (last c) (λ db1 a db2 h1. cc h1)
            (close_case-Keeps s.policy.decision (not (is_terminal c.current_state)))))
        db b db' h)
    where
      events : Tx (Unit {0})
      events = record_events s.case_id (Decisions.decision_events s)

      last : RecoveryCase → Tx (Unit {0})
      last c = Decisions.close_case s.policy.decision (not (is_terminal c.current_state)) s

      rest : RecoveryCase → Tx (Unit {0})
      rest c = events >> last c

  schedule_if-Keeps :
      (approved allowed waits : Bool)
      → Keeps (Decisions.schedule_if approved allowed waits (Decisions.schedule_decision ids now s))
  schedule_if-Keeps false allowed waits = Quiet-Keeps _ (λ db a db' h. cc h)
  schedule_if-Keeps true false waits = λ db a db' h. cc h
  schedule_if-Keeps true true true = Quiet-Keeps _ (λ db a db' h. cc h)
  schedule_if-Keeps true true false =
      bind-Keeps (Decisions.schedule_decision ids now s) (λ r. pure (some r))
        schedule_decision-Keeps (λ r. Quiet-Keeps (pure (some r)) (λ db a db' h. cc h))

  pub save_decision_and_schedule-Keeps : Keeps (Decisions.save_decision_and_schedule ids now s)
  unfolding Decisions.save_decision_and_schedule
  save_decision_and_schedule-Keeps =
      bind-Keeps (Decisions.save_decision s)
        (λ u.
          Decisions.schedule_if (Decisions.decision_is_approve s.policy.decision)
            (Decisions.gate_is_allow s.gate.decision) (action_eq s.selected.action wait)
            (Decisions.schedule_decision ids now s))
        save_decision-Keeps
        (λ u.
          schedule_if-Keeps (Decisions.decision_is_approve s.policy.decision)
            (Decisions.gate_is_allow s.gate.decision) (action_eq s.selected.action wait))
