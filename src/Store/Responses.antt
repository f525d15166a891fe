-- ===== src/Store/Responses.antt =====
-- The answers of customers: `SaveCustomerResponse` of backend/internal/store/responses.go.
use razorpay_ai_revenue_reco.Base.{
  String, ◌≡◌, refl, Bool, true, false, ◌&&◌, not, List, [], ◌∷◌, str_eq, arith,
}
use razorpay_ai_revenue_reco.Base.Tests.{if◌then◌else◌}
use razorpay_ai_revenue_reco.Base.Lists.{any}
use razorpay_ai_revenue_reco.Domain.States.{
  CaseState, action_pending, waiting_outcome, reassessing, state_eq, state_eq→≡, can_transition,
}
use razorpay_ai_revenue_reco.Domain.Events.{EventType, state_transitioned, customer_responded}
use razorpay_ai_revenue_reco.Domain.Entities.{RecoveryCase}
use razorpay_ai_revenue_reco.Store.Rows.{
  Response, ResponseType, acknowledgement, promise_to_pay, opt_out,
}
use razorpay_ai_revenue_reco.Store.Tables.{
  Tx, ok, ◌>>=◌, ◌>>◌, pure, demand, duplicate_key, lock_case, update_case, move, record_events,
  draft, Draft,
}
use razorpay_ai_revenue_reco.Store.Lifecycle.{
  Keeps, KeepsAt, Quiet, bind-Quiet, demand-Quiet, update_case-last, pass_at, Quiet-Keeps,
  move-Moves, lock_case-Keeps, update_case-KeepsAt, at_then_Keeps,
}

-- `ON CONFLICT(correlation_id) DO NOTHING`
unfoldable pub is_repeated : String → List Response → Bool
is_repeated correlation rs = any (λ r. str_eq r.correlation_id correlation) rs

abbrev pub add_response_row : Response → Tx (Unit {0})
add_response_row r db = ok (tt, record db { responses = r ∷ db.responses })

-- The insert, where the primary key is `id`.
unfoldable pub add_response : Response → Tx (Unit {0})
add_response r db =
    (demand (not (any (λ s. str_eq s.id r.id) db.responses)) duplicate_key >> add_response_row r) db

unfoldable pub is_opt_out : ResponseType → Bool
is_opt_out opt_out = true
is_opt_out _ = false

-- `UPDATE customers SET opted_out=TRUE`
unfoldable pub opt_out_if : Bool → String → Tx (Unit {0})
opt_out_if true customer db =
    ok (tt, record db { opted_out = λ c. if str_eq c customer then true else db.opted_out c })
opt_out_if false customer db = ok (tt, db)

-- Neither an acknowledgement nor a promise, which holds the case.
unfoldable pub calls_for_decision : ResponseType → Bool
calls_for_decision acknowledgement = false
calls_for_decision promise_to_pay = false
calls_for_decision _ = true

unfoldable pub reassess_answered : Bool → Response → Tx (Unit {0})
reassess_answered true r =
    update_case r.case_id (move reassessing r.received_at)
    >> update_case r.case_id (move action_pending r.received_at)
reassess_answered false r = pure tt

unfoldable pub answer_events : Bool → Response → String → List Draft
answer_events reassessed r customer =
    event customer_responded
    ∷ (if reassessed then event state_transitioned ∷ event state_transitioned ∷ [] else [])
  where
    event : EventType → Draft
    event t = draft t r.received_at (record { type_ = "CUSTOMER"; id = customer }) r.correlation_id

unfoldable pub needs_decision : Response → RecoveryCase → Bool
unfolding calls_for_decision
needs_decision r c = state_eq c.current_state waiting_outcome && calls_for_decision r.type_

-- The statements after the insert, for the row that is locked.
unfoldable pub process_response : Response → RecoveryCase → Tx Bool
process_response r c =
    add_response r
    >> opt_out_if (is_opt_out r.type_) c.customer_id
    >> reassess_answered (needs_decision r c) r
    >> record_events r.case_id (answer_events (needs_decision r c) r c.customer_id)
    >> pure true

unfoldable pub save_if_new : Bool → Response → RecoveryCase → Tx Bool
save_if_new true r c = pure false
save_if_new false r c = process_response r c

unfoldable pub save_at : Response → RecoveryCase → Tx Bool
save_at r c db = save_if_new (is_repeated r.correlation_id db.responses) r c db

-- The result tells whether the response is new.
unfoldable pub save_customer_response : Response → Tx Bool
save_customer_response r = lock_case r.case_id >>= save_at r

needs-allowed :
    (r : Response) (c : RecoveryCase)
    → needs_decision r c ≡ true
    → c.current_state ≡ waiting_outcome
unfolding needs_decision
needs-allowed r c h = state_eq→≡ c.current_state waiting_outcome (ground arith)

allowed_from : (s : CaseState) → s ≡ waiting_outcome → can_transition s reassessing ≡ true
unfolding can_transition
allowed_from s e = rw e refl

reassess_answered-KeepsAt :
    (b : Bool) (r : Response) (c : RecoveryCase)
    → (b ≡ true → c.current_state ≡ waiting_outcome)
    → KeepsAt r.case_id c (reassess_answered b r)
unfolding reassess_answered can_transition move
reassess_answered-KeepsAt true r c at =
    update_case-KeepsAt r.case_id c (move reassessing r.received_at)
      (update_case r.case_id (move action_pending r.received_at))
      (move-Moves c reassessing r.received_at (allowed_from c.current_state (at refl)))
      (update_case-last r.case_id (move reassessing r.received_at c)
        (move action_pending r.received_at)
        (move-Moves (move reassessing r.received_at c) action_pending r.received_at refl))
reassess_answered-KeepsAt false r c at =
    λ db a db' e h. Quiet-Keeps (pure tt) (λ x y z w. cc w) db a db' h

opt_out_if-Quiet : (b : Bool) (customer : String) → Quiet (opt_out_if b customer)
unfolding opt_out_if
opt_out_if-Quiet true customer db u db' h = cc h
opt_out_if-Quiet false customer db u db' h = cc h

add_response-Quiet : (r : Response) → Quiet (add_response r)
unfolding add_response
add_response-Quiet r db u db' h =
    bind-Quiet (demand _ duplicate_key) (λ x. add_response_row r) (demand-Quiet _ duplicate_key)
      (λ x db1 a db2 g. cc g) db u db' h

save_if_new-KeepsAt :
    (b : Bool) (r : Response) (c : RecoveryCase) → KeepsAt r.case_id c (save_if_new b r c)
unfolding save_if_new process_response
save_if_new-KeepsAt true r c = λ db a db' e h. Quiet-Keeps (pure false) (λ x y z w. cc w) db a db' h
save_if_new-KeepsAt false r c = pass_at (add_response r) _ r.case_id c (add_response-Quiet r) (
    pass_at (opt_out_if (is_opt_out r.type_) c.customer_id) _ r.case_id c
      (opt_out_if-Quiet (is_opt_out r.type_) c.customer_id)
      (at_then_Keeps (reassess_answered (needs_decision r c) r)
        (λ u.
          record_events r.case_id (answer_events (needs_decision r c) r c.customer_id) >> pure true)
        r.case_id c (reassess_answered-KeepsAt (needs_decision r c) r c (needs-allowed r c))
        (λ u.
          Quiet-Keeps
            (record_events r.case_id (answer_events (needs_decision r c) r c.customer_id)
              >> pure true)
            (λ db a db' h. cc h))))

pub save_customer_response-Keeps : (r : Response) → Keeps (save_customer_response r)
unfolding save_customer_response save_at
save_customer_response-Keeps r = lock_case-Keeps r.case_id (save_at r) (λ c db a db' e h.
    save_if_new-KeepsAt (is_repeated r.correlation_id db.responses) r c db a db' e h)
