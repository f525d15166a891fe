-- ===== src/Responses/Repeats.antt =====
-- A response that arrives again: backend/internal/responses/service.go over
-- backend/internal/store/responses.go.
use razorpay_ai_revenue_reco.Base.{
  String, ◌≡◌, refl, Bool, true, false, Option, none, some, List, ◌∷◌, arith, ap, ◌∙◌, eq_iff,
}
use razorpay_ai_revenue_reco.Domain.Entities.{RecoveryCase}
use razorpay_ai_revenue_reco.Store.Rows.{Response}
use razorpay_ai_revenue_reco.Store.Tables.{
  Database, Tx, ok, ◌>>◌, pure, demand, on_ok, or_missing, duplicate_key, update_case, updated,
  record_events,
}
use razorpay_ai_revenue_reco.Store.Lifecycle.{on_ok-inv}
use razorpay_ai_revenue_reco.Store.Ensures.{Ensures, Preserves, bind-Preserves, lock_case-inv}
use razorpay_ai_revenue_reco.Store.Responses.{
  is_repeated, add_response, add_response_row, opt_out_if, is_opt_out, reassess_answered,
  needs_decision, answer_events, process_response, save_if_new, save_at, save_customer_response,
}

abbrev answers : Database → List Response
answers db = db.responses

update_case-answers :
    (id : String) (f : RecoveryCase → RecoveryCase) → Preserves answers (update_case id f)
unfolding update_case
update_case-answers id f db u db' h = go (db.cases id) h
  where
    go : (o : Option RecoveryCase) → updated id f o db ≡ ok (u, db') → answers db' ≡ answers db
    go none g = cc g
    go (some c) g = cc g

reassess-answers : (b : Bool) (r : Response) → Preserves answers (reassess_answered b r)
unfolding reassess_answered
reassess-answers true r =
    bind-Preserves answers (update_case r.case_id _) _ (update_case-answers r.case_id _)
      (λ u. update_case-answers r.case_id _)
reassess-answers false r = λ db u db' h. cc h

opt_out-answers : (b : Bool) (customer : String) → Preserves answers (opt_out_if b customer)
unfolding opt_out_if
opt_out-answers true customer db u db' h = cc h
opt_out-answers false customer db u db' h = cc h

add_response-row :
    (r : Response) (db : Database) (u : Unit {0}) (db' : Database)
    → add_response r db ≡ ok (u, db')
    → is_repeated r.correlation_id (answers db') ≡ true
unfolding add_response is_repeated
add_response-row r db u db' h =
    let (v, db1, e, k) = on_ok-inv (λ x. add_response_row r) (demand _ duplicate_key db) u db' h in
    let row : answers db' ≡ r ∷ answers db1 = cc k in
    ap (is_repeated r.correlation_id) row ∙ ground (arith, eq_iff r.correlation_id r.correlation_id)

process-repeated :
    (r : Response) (c : RecoveryCase)
    → Ensures (λ b db'. is_repeated r.correlation_id (answers db') ≡ true) (process_response r c)
unfolding process_response
process-repeated r c db b db' h =
    let (u, db1, e, k) = on_ok-inv _ (add_response r db) b db' h in
    ap (is_repeated r.correlation_id) (kept (is_opt_out r.type_) u db1 b db' k)
    ∙ add_response-row r db u db1 e
  where
    tail : Bool → Unit {0} → Tx Bool
    tail opts u =
        opt_out_if opts c.customer_id
        >> reassess_answered (needs_decision r c) r
        >> record_events r.case_id (answer_events (needs_decision r c) r c.customer_id)
        >> pure true

    kept : (opts : Bool) (u : Unit {0}) → Preserves answers (tail opts u)
    kept opts u =
        bind-Preserves answers (opt_out_if opts c.customer_id) _
          (opt_out-answers opts c.customer_id)
          (λ v.
            bind-Preserves answers (reassess_answered (needs_decision r c) r)
              (λ w.
                record_events r.case_id (answer_events (needs_decision r c) r c.customer_id)
                >> pure true)
              (reassess-answers (needs_decision r c) r) (λ w db2 a db3 g. cc g))

save-repeated :
    (r : Response) (db : Database) (b : Bool) (db' : Database)
    → save_customer_response r db ≡ ok (b, db')
    → is_repeated r.correlation_id (answers db') ≡ true
unfolding save_customer_response save_at save_if_new
save-repeated r db b db' h =
    let (c, e, g) = lock_case-inv r.case_id (save_at r) db b db' h in
    go c (is_repeated r.correlation_id (answers db)) refl g
  where
    go :
        (c : RecoveryCase) (t : Bool)
        → is_repeated r.correlation_id (answers db) ≡ t
        → save_if_new t r c db ≡ ok (b, db')
        → is_repeated r.correlation_id (answers db') ≡ true
    go c true e g =
        let same : answers db' ≡ answers db = cc g in ap (is_repeated r.correlation_id) same ∙ e
    go c false e g = process-repeated r c db b db' g

-- After a response has been saved, a response of the same correlation, of any case that exists,
-- is not new, and leaves the database as it is.
pub save_customer_response-repeat :
    (r : Response) (db : Database) (b : Bool) (db' : Database)
    → save_customer_response r db ≡ ok (b, db')
    → (s : Response) (c : RecoveryCase) → s.correlation_id ≡ r.correlation_id
    → db'.cases s.case_id ≡ some c
    → save_customer_response s db' ≡ ok (false, db')
unfolding save_customer_response save_at save_if_new
save_customer_response-repeat r db b db' h s c same e =
    ap (λ o. on_ok (save_at s) (or_missing o db')) e
    ∙ ap (λ t. save_if_new t s c db')
        (ap (λ k. is_repeated k (answers db')) same ∙ save-repeated r db b db' h)
