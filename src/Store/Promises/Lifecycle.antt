-- ===== src/Store/Promises/Lifecycle.antt =====
-- What the transactions of backend/internal/store/promises.go do to the cases.
use razorpay_ai_revenue_reco.Base.{
  ℕ, ◌+◌, String, ◌≡◌, refl, Bool, true, false, not, Option, none, some, [], ◌∷◌, arith,
}
use razorpay_ai_revenue_reco.Base.Clock.{Time}
use razorpay_ai_revenue_reco.Domain.States.{CaseState, action_pending, reassessing, can_transition}
use razorpay_ai_revenue_reco.Domain.Entities.{
  Float64, RecoveryCase, PromiseToPay, PromiseStatus, cancelled, is_active,
}
use razorpay_ai_revenue_reco.Store.Rows.{PromiseCheck, PromiseEvent}
use razorpay_ai_revenue_reco.Store.Tables.{
  Database, ok, ◌>>◌, pure, demand, update_case, move, record_events, conflict,
  invalid_promise_transition, invalid_outcome, duplicate_key,
}
use razorpay_ai_revenue_reco.Store.Lifecycle.{
  Keeps, KeepsAt, Quiet, bind-Keeps, bind-KeepsAt, bind-Quiet, pass, pass_at, Quiet-Keeps,
  demand-Quiet, move-Moves, lock_case-Keeps, lock_row-Keeps, update_case-KeepsAt, at_then_Keeps,
}
use razorpay_ai_revenue_reco.Store.Promises
use razorpay_ai_revenue_reco.Store.Promises.Outcomes
use razorpay_ai_revenue_reco.Store.Promises.Checks

insert_event-Quiet : (e : PromiseEvent) → Quiet (Promises.insert_promise_event e)
unfolding Promises.insert_promise_event
insert_event-Quiet e db u db' h =
    bind-Quiet (demand _ duplicate_key) (λ x. Promises.insert_event_row e)
      (demand-Quiet _ duplicate_key) (λ x db1 a db2 g. cc g) db u db' h

insert_promise-Quiet : (p : PromiseToPay) → Quiet (Promises.insert_promise p)
unfolding Promises.insert_promise
insert_promise-Quiet p db u db' h =
    bind-Quiet (demand _ duplicate_key) (λ x. Promises.insert_row p) (demand-Quiet _ duplicate_key)
      (λ x db1 a db2 g. cc g) db u db' h

insert_check-Quiet : (c : PromiseCheck) → Quiet (Promises.insert_check c)
unfolding Promises.insert_check
insert_check-Quiet c db u db' h =
    bind-Quiet (demand _ duplicate_key) (λ x. Promises.insert_check_row c)
      (demand-Quiet _ duplicate_key) (λ x db1 a db2 g. cc g) db u db' h

write_promise-Quiet :
    (p : PromiseToPay) (check_id correlation : String)
    → Quiet (Promises.write_promise p check_id correlation)
unfolding Promises.write_promise
write_promise-Quiet p check_id correlation =
    bind-Quiet (Promises.insert_promise _) _ (insert_promise-Quiet _) (λ u.
      bind-Quiet (Promises.insert_check _) _ (insert_check-Quiet _) (λ v.
        bind-Quiet (Promises.insert_promise_event _) _ (insert_event-Quiet _)
          (λ w db a db' h. cc h)))

write_unless-Keeps :
    (o : Option PromiseToPay) (p : PromiseToPay) (check_id correlation : String)
    → Keeps (Promises.write_unless o p check_id correlation)
unfolding Promises.write_unless
write_unless-Keeps (some old) p check_id correlation = Quiet-Keeps _ (λ db a db' h. cc h)
write_unless-Keeps none p check_id correlation =
    Quiet-Keeps (Promises.write_promise p check_id correlation)
      (write_promise-Quiet p check_id correlation)

pub create_promise-Keeps :
    (p : PromiseToPay) (check_id correlation : String)
    → Keeps (Promises.create_promise p check_id correlation)
unfolding Promises.create_promise Promises.create_at
create_promise-Keeps p check_id correlation =
    lock_case-Keeps p.case_id (Promises.create_at p check_id correlation) (λ c db a db' e h.
      write_unless-Keeps (Promises.find_answer p.source_response_id db.promises) _ check_id
        correlation db a db' h)

pub transition-Quiet :
    (p : PromiseToPay) (target : PromiseStatus) (reason correlation ref : String) (now : Time)
    → Quiet (Outcomes.transition_promise_tx p target reason correlation ref now)
unfolding Outcomes.transition_promise_tx
transition-Quiet p target reason correlation ref now =
    bind-Quiet (demand (is_active p.status) conflict) _ (demand-Quiet _ conflict) (λ u.
      bind-Quiet (demand (not (is_active target)) invalid_promise_transition) _
        (demand-Quiet _ invalid_promise_transition)
        (λ v.
          bind-Quiet (Outcomes.write_outcome p.id (Outcomes.resolve target now ref)) _
            (λ db a db' h. cc h)
            (λ w.
              bind-Quiet
                (Promises.insert_promise_event
                  (Outcomes.change_event p target reason correlation now))
                (λ x.
                  record_events p.case_id (Outcomes.change_draft target correlation now ∷ [])
                  >> pure (Outcomes.resolve target now ref p))
                (insert_event-Quiet (Outcomes.change_event p target reason correlation now))
                (λ x db a db' h. cc h))))

lock_promise-Quiet : (id : String) → Quiet (Outcomes.lock_promise id)
unfolding Outcomes.lock_promise Outcomes.or_no_promise
lock_promise-Quiet id db p db' h = go (Promises.find_promise id db.promises) h
  where
    go :
        (o : Option PromiseToPay) → Outcomes.or_no_promise o db ≡ ok (p, db') → db'.cases ≡ db.cases
    go none g = cc g
    go (some q) g = cc g

pub cancel_promise-Keeps :
    (id correlation : String) (now : Time) → Keeps (Outcomes.cancel_promise id correlation now)
unfolding Outcomes.cancel_promise
cancel_promise-Keeps id correlation now = Quiet-Keeps (Outcomes.cancel_promise id correlation now) (
    bind-Quiet (Outcomes.lock_promise id) _ (lock_promise-Quiet id) (λ p.
      bind-Quiet (Outcomes.transition_promise_tx p cancelled _ correlation _ now) _
        (transition-Quiet p cancelled _ correlation _ now) (λ q db a db' h. cc h)))

reopens-allowed :
    (target : PromiseStatus) (s : CaseState)
    → Outcomes.reopens target s ≡ true
    → can_transition s reassessing ≡ true
unfolding Outcomes.reopens can_transition
reopens-allowed target s h = ground arith

reopen-KeepsAt :
    (b : Bool) (c : RecoveryCase) (id correlation : String) (now : Time)
    → (b ≡ true → can_transition c.current_state reassessing ≡ true)
    → KeepsAt id c (Outcomes.reopen b id correlation now)
unfolding Outcomes.reopen can_transition move
reopen-KeepsAt true c id correlation now ok_move =
    update_case-KeepsAt id c (move reassessing now)
      (update_case id (move action_pending now) >> record_events id _)
      (move-Moves c reassessing now (ok_move refl))
      (update_case-KeepsAt id (move reassessing now c) (move action_pending now)
        (record_events id _) (move-Moves (move reassessing now c) action_pending now refl)
        (λ db a db' e h. Quiet-Keeps (record_events id _) (λ x y z w. cc w) db a db' h))
reopen-KeepsAt false c id correlation now ok_move =
    λ db a db' e h. Quiet-Keeps (pure tt) (λ x y z w. cc w) db a db' h

reliability_if-Keeps :
    (b : Bool) (ratio : ℕ → ℕ → Float64) (customer : String) (now : Time) (r : PromiseToPay)
    → Keeps (Outcomes.reliability_if b ratio customer now >> pure r)
unfolding Outcomes.reliability_if Outcomes.update_reliability
reliability_if-Keeps true ratio customer now r = Quiet-Keeps _ (λ db a db' h. cc h)
reliability_if-Keeps false ratio customer now r = Quiet-Keeps _ (λ db a db' h. cc h)

module _ (ratio : ℕ → ℕ → Float64) (correlation id : String) (now : Time) where
  resolve_with-KeepsAt :
      (p : PromiseToPay) (c : RecoveryCase) (o : Outcomes.Outcome)
      → KeepsAt p.case_id c (Outcomes.resolve_with ratio correlation p c.current_state o now)
  unfolding Outcomes.resolve_with
  resolve_with-KeepsAt p c o =
      bind-KeepsAt (Outcomes.transition_promise_tx p o.target o.reason correlation o.reference now)
        _ p.case_id c (transition-Quiet p o.target o.reason correlation o.reference now)
        (λ r.
          pass_at (Outcomes.finish_checks _ _) _ p.case_id c (λ db a db' h. cc h)
            (at_then_Keeps
              (Outcomes.reopen (Outcomes.reopens o.target c.current_state) p.case_id correlation
                now)
              _ p.case_id c
              (reopen-KeepsAt (Outcomes.reopens o.target c.current_state) c p.case_id correlation
                now (reopens-allowed o.target c.current_state))
              (λ u. reliability_if-Keeps _ ratio p.customer_id now r)))

  pub resolve_promise-Keeps :
      (forced : Option PromiseStatus)
      → Keeps (Outcomes.resolve_promise ratio correlation id forced now)
  unfolding Outcomes.resolve_promise
  resolve_promise-Keeps forced =
      bind-Keeps (Outcomes.lock_promise id) _
        (Quiet-Keeps (Outcomes.lock_promise id) (lock_promise-Quiet id))
        (λ p.
          pass (demand (is_active p.status) conflict) _ (demand-Quiet _ conflict)
            (lock_row-Keeps p.case_id _ (λ c. resolve_with-KeepsAt p c _)))

  pub resolve_for_demo-Keeps :
      (outcome : PromiseStatus) → Keeps (Outcomes.resolve_for_demo ratio correlation id outcome now)
  unfolding Outcomes.resolve_for_demo
  resolve_for_demo-Keeps outcome =
      pass (demand (Outcomes.counts_for_reliability outcome) invalid_outcome) _
        (demand-Quiet _ invalid_outcome) (resolve_promise-Keeps (some outcome))

pub claim_due_check-Keeps :
    (worker : String) (now : Time) (lease : ℕ) → Keeps (Checks.claim_due_check worker now lease)
unfolding Checks.claim_due_check Checks.claim_found
claim_due_check-Keeps worker now lease =
    Quiet-Keeps (Checks.claim_due_check worker now lease)
      (λ db id db' h. go db id db' (Checks.first_check now db.promise_checks) h)
  where
    go :
        (db : Database) (id : String) (db' : Database) (o : Option PromiseCheck)
        → Checks.claim_found worker (now + lease) o db ≡ ok (id, db')
        → db'.cases ≡ db.cases
    go db id db' none h = cc h
    go db id db' (some c) h = cc h
