-- ===== src/Store/Promises/Writes.antt =====
-- Each transaction of backend/internal/store/promises.go is one step of the table of promises.
use razorpay_ai_revenue_reco.Base.{
  ℕ, String, ◌≡◌, Bool, true, Option, none, some, ◌∷◌, sym, ap, subst, ◌∙◌, str_eq,
}
use razorpay_ai_revenue_reco.Base.Clock.{Time}
use razorpay_ai_revenue_reco.Domain.States.{CaseState}
use razorpay_ai_revenue_reco.Domain.Entities.{
  Float64, PromiseToPay, PromiseStatus, cancelled, is_active,
}
use razorpay_ai_revenue_reco.Store.Tables.{
  Database, Tx, ok, ◌>>◌, pure, demand, record_events, conflict, invalid_outcome, duplicate_key,
}
use razorpay_ai_revenue_reco.Store.Lifecycle.{on_ok-inv}
use razorpay_ai_revenue_reco.Store.Ensures.{
  bind-Preserves, demand-same, lock_case-inv, lock_row-inv,
}
use razorpay_ai_revenue_reco.Store.Promises
use razorpay_ai_revenue_reco.Store.Promises.{find_promise}
use razorpay_ai_revenue_reco.Store.Promises.Outcomes
use razorpay_ai_revenue_reco.Store.Promises.Endings.{Evolves, unchanged, inserted, ended}
use razorpay_ai_revenue_reco.Store.Promises.Table.{
  table, KeepsTable, insert_event-KeepsTable, insert_check-KeepsTable, transition-written,
  lock_promise-inv, reopen-KeepsTable, reliability_if-KeepsTable, finish_checks-KeepsTable,
  pure-KeepsTable,
}

pub cancel_promise-Evolves :
    (id correlation : String) (now : Time) (db : Database) (r : PromiseToPay) (db' : Database)
    → Outcomes.cancel_promise id correlation now db ≡ ok (r, db')
    → Evolves (table db) (table db')
unfolding Outcomes.cancel_promise
cancel_promise-Evolves id correlation now db r db' h =
    let (p, found, g) = lock_promise-inv id _ db r db' h in
    let (q, db1, e, k) =
      on_ok-inv _
        (Outcomes.transition_promise_tx p cancelled "EXPLICIT_CANCELLATION" correlation "" now db) r
        db' g in
    let (a, b, w) =
      transition-written p cancelled "EXPLICIT_CANCELLATION" correlation "" now db q db1 e in
    let last : table db' ≡ table db1 = cc k in
    subst (Evolves (table db)) (sym (last ∙ w)) (ended p cancelled now "" found a b)

module _ (ratio : ℕ → ℕ → Float64) (correlation id : String) (now : Time) where
  after_transition :
      (p r : PromiseToPay) (state : CaseState) (target : PromiseStatus)
      → KeepsTable (
          Outcomes.finish_checks
            (λ c. str_eq c.promise_id p.id)
            (Outcomes.complete_check now target)
          >> Outcomes.reopen (Outcomes.reopens target state) p.case_id correlation now
          >> Outcomes.reliability_if
              (Outcomes.counts_for_reliability target)
              ratio
              p.customer_id
              now
          >> pure r)
  after_transition p r state target =
      bind-Preserves table
        (Outcomes.finish_checks (λ c. str_eq c.promise_id p.id)
          (Outcomes.complete_check now target))
        _ (finish_checks-KeepsTable _ _)
        (λ u.
          bind-Preserves table
            (Outcomes.reopen (Outcomes.reopens target state) p.case_id correlation now) _
            (reopen-KeepsTable _ p.case_id correlation now)
            (λ v.
              bind-Preserves table
                (Outcomes.reliability_if (Outcomes.counts_for_reliability target) ratio
                  p.customer_id now)
                (λ w. pure r) (reliability_if-KeepsTable _ ratio p.customer_id now)
                (λ w. pure-KeepsTable r)))

  resolve_with-Evolves :
      (p : PromiseToPay) (state : CaseState) (o : Outcomes.Outcome) (db : Database)
      (r : PromiseToPay) (db' : Database)
      → find_promise p.id (table db) ≡ some p
      → Outcomes.resolve_with ratio correlation p state o now db ≡ ok (r, db')
      → Evolves (table db) (table db')
  unfolding Outcomes.resolve_with
  resolve_with-Evolves p state o db r db' found h =
      let (q, db1, e, k) =
        on_ok-inv _
          (Outcomes.transition_promise_tx p o.target o.reason correlation o.reference now db) r db'
          h in
      let (a, b, w) =
        transition-written p o.target o.reason correlation o.reference now db q db1 e in
      subst (Evolves (table db)) (sym (after_transition p q state o.target db1 r db' k ∙ w))
        (ended p o.target now o.reference found a b)

  pub resolve_promise-Evolves :
      (forced : Option PromiseStatus) (db : Database) (r : PromiseToPay) (db' : Database)
      → Outcomes.resolve_promise ratio correlation id forced now db ≡ ok (r, db')
      → Evolves (table db) (table db')
  unfolding Outcomes.resolve_promise
  resolve_promise-Evolves forced db r db' h =
      let (p, found, g) = lock_promise-inv id _ db r db' h in
      let (u, db1, e, k) = on_ok-inv _ (demand (is_active p.status) conflict db) r db' g in
      let same = (demand-same (is_active p.status) conflict db u db1 e).1 in
      let (c, row, w) = lock_row-inv p.case_id _ db1 r db' k in
      subst (λ (d : Database). Evolves (table d) (table db')) same
        (resolve_with-Evolves p c.current_state _ db1 r db'
          (subst (λ (d : Database). find_promise p.id (table d) ≡ some p) (sym same) found) w)

  pub resolve_for_demo-Evolves :
      (outcome : PromiseStatus) (db : Database) (r : PromiseToPay) (db' : Database)
      → Outcomes.resolve_for_demo ratio correlation id outcome now db ≡ ok (r, db')
      → Evolves (table db) (table db')
  unfolding Outcomes.resolve_for_demo
  resolve_for_demo-Evolves outcome db r db' h =
      let (u, db1, e, k) =
        on_ok-inv _ (demand (Outcomes.counts_for_reliability outcome) invalid_outcome db) r db' h in
      let same =
        (demand-same (Outcomes.counts_for_reliability outcome) invalid_outcome db u db1 e).1 in
      subst (λ (d : Database). Evolves (table d) (table db')) same
        (resolve_promise-Evolves (some outcome) db1 r db' k)

-- A row is inserted under its keys.
insert_promise-written :
    (p : PromiseToPay) (db : Database) (u : Unit {0}) (db' : Database)
    → Promises.insert_promise p db ≡ ok (u, db')
    → (Promises.is_free p (table db) ≡ true) × (table db' ≡ p ∷ table db)
unfolding Promises.insert_promise
insert_promise-written p db u db' h =
    let (v, db1, e, k) =
      on_ok-inv _ (demand (Promises.is_free p db.promises) duplicate_key db) u db' h in
    let (a, same) = demand-same (Promises.is_free p db.promises) duplicate_key db v db1 e in
    let inserted_row : table db' ≡ p ∷ table db1 = cc k in
    (a, inserted_row ∙ ap (λ (d : Database). p ∷ d.promises) same)

write_promise-Evolves :
    (p : PromiseToPay) (check_id correlation : String) (db : Database) (r : PromiseToPay × Bool)
    (db' : Database)
    → Promises.write_promise p check_id correlation db ≡ ok (r, db')
    → Evolves (table db) (table db')
unfolding Promises.write_promise
write_promise-Evolves p check_id correlation db r db' h =
    let (u, db1, e, k) = on_ok-inv rest (Promises.insert_promise row db) r db' h in
    let (free, w) = insert_promise-written row db u db1 e in
    subst (Evolves (table db)) (sym (kept u db1 r db' k ∙ w)) (inserted row free)
  where
    row : PromiseToPay
    row = Promises.new_row p

    rest : Unit {0} → Tx (PromiseToPay × Bool)
    rest u =
        Promises.insert_check (Promises.new_check check_id p)
        >> Promises.insert_promise_event (Promises.creation_event p correlation)
        >> record_events p.case_id (Promises.creation_drafts p correlation)
        >> pure (p, true)

    kept : (u : Unit {0}) → KeepsTable (rest u)
    kept u = bind-Preserves table (Promises.insert_check _) _ (insert_check-KeepsTable _) (λ v.
        bind-Preserves table (Promises.insert_promise_event (Promises.creation_event p correlation))
          (λ w. record_events p.case_id (Promises.creation_drafts p correlation) >> pure (p, true))
          (insert_event-KeepsTable (Promises.creation_event p correlation)) (λ w db a db' h. cc h))

pub create_promise-Evolves :
    (p : PromiseToPay) (check_id correlation : String) (db : Database) (r : PromiseToPay × Bool)
    (db' : Database)
    → Promises.create_promise p check_id correlation db ≡ ok (r, db')
    → Evolves (table db) (table db')
unfolding Promises.create_promise Promises.create_at Promises.write_unless
create_promise-Evolves p check_id correlation db r db' h =
    let (c, row, g) =
      lock_case-inv p.case_id (Promises.create_at p check_id correlation) db r db' h in
    go (record p { customer_id = c.customer_id })
      (Promises.find_answer p.source_response_id db.promises) g
  where
    go :
        (q : PromiseToPay) (o : Option PromiseToPay)
        → Promises.write_unless o q check_id correlation db ≡ ok (r, db')
        → Evolves (table db) (table db')
    go q (some old) g =
        let same : table db' ≡ table db = cc g in subst (Evolves (table db)) (sym same) unchanged
    go q none g = write_promise-Evolves q check_id correlation db r db' g
