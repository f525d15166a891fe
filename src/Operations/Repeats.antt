-- ===== src/Operations/Repeats.antt =====
-- A review whose idempotency key is used already: backend/internal/store/operations.go.
use razorpay_ai_revenue_reco.Base.{
  ℕ, String, ◌≡◌, refl, Bool, false, ◌||◌, Option, none, some, arith, eq_iff, sym, ap, ◌∙◌, List,
}
use razorpay_ai_revenue_reco.Domain.States.{escalated, state_eq}
use razorpay_ai_revenue_reco.Domain.Entities.{RecoveryCase, RawJson}
use razorpay_ai_revenue_reco.Store.Rows.{Review}
use razorpay_ai_revenue_reco.Store.Tables.{
  Database, ok, demand, not_reviewable, lock_row, ScheduledAction, Draft,
}
use razorpay_ai_revenue_reco.Store.Ensures.{Ensures, bind-Ensures, ok-inj}
use razorpay_ai_revenue_reco.Operations.Approval.{ApplyCommand}
use razorpay_ai_revenue_reco.Store.Reviews

abbrev IsStored : String → Reviews.Applied → Database → Type 0
IsStored key r db = Reviews.find_review key db.reviews ≡ some r.review

record_review-IsStored :
    (w : Review) (s : Option ScheduledAction) (ds : List Draft)
    → Ensures (IsStored w.idempotency_key) (Reviews.record_review w s ds)
unfolding Reviews.record_review Reviews.find_review
record_review-IsStored w s ds db r db' h =
    let (x, y) = ok-inj h in
    ap (λ (d : Database). Reviews.find_review w.idempotency_key d.reviews) (sym y)
    ∙ ground (arith, eq_iff w.idempotency_key w.idempotency_key)
    ∙ ap (λ (x : Reviews.Applied). some x.review) x

module _ (is_json : RawJson → Bool) (ids : Reviews.ReviewIds) (cmd : ApplyCommand) where
  locked-IsStored :
      (c : RecoveryCase) (o : Option ℕ)
      → Ensures (IsStored cmd.input.idempotency_key) (Reviews.apply_locked is_json ids cmd c o)
  unfolding Reviews.apply_locked Reviews.apply_authorized Reviews.new_review
  locked-IsStored c none = λ db r db' h. cc h
  locked-IsStored c (some v) =
      bind-Ensures (IsStored cmd.input.idempotency_key)
        (demand (Reviews.is_approval cmd.input.decision || state_eq c.current_state escalated)
          not_reviewable)
        _
        (λ u.
          bind-Ensures (IsStored cmd.input.idempotency_key)
            (Reviews.schedule_allowed _ ids cmd c.version _) _
            (λ s.
              bind-Ensures (IsStored cmd.input.idempotency_key)
                (Reviews.stop_if (Reviews.is_stop cmd.input.decision) cmd) _
                (λ x. record_review-IsStored _ s _)))

  new-IsStored :
      (o : Option Review) (db : Database) (r : Reviews.Applied) (db' : Database)
      → Reviews.find_review cmd.input.idempotency_key db.reviews ≡ o
      → Reviews.apply_new is_json ids cmd o db ≡ ok (r, db')
      → IsStored cmd.input.idempotency_key r db'
  unfolding Reviews.apply_new Reviews.apply_row
  new-IsStored (some old) db r db' e h =
      let (x, y) = ok-inj h in
      ap (λ (d : Database). Reviews.find_review cmd.input.idempotency_key d.reviews) (sym y)
      ∙ e
      ∙ ap (λ (x : Reviews.Applied). some x.review) x
  new-IsStored none db r db' e h =
      bind-Ensures (IsStored cmd.input.idempotency_key) (lock_row cmd.item.case_id)
        (Reviews.apply_row is_json ids cmd)
        (λ c db1 r1 db2. locked-IsStored c (db1.merchant_policies c.merchant_id) db1 r1 db2) db r
        db' h

  -- After a review has been applied, any review with the same idempotency key returns the stored
  -- one as not new, schedules nothing, and leaves the database as it is.
  pub apply_human_review-repeat :
      (db : Database) (r : Reviews.Applied) (db' : Database)
      → Reviews.apply_human_review is_json ids cmd db ≡ ok (r, db')
      → (is_json' : RawJson → Bool) (ids' : Reviews.ReviewIds) (cmd' : ApplyCommand)
      → cmd'.input.idempotency_key ≡ cmd.input.idempotency_key
      → Reviews.apply_human_review is_json' ids' cmd' db'
        ≡ ok (record { review = r.review; schedule = none; created = false }, db')
  unfolding Reviews.apply_human_review Reviews.apply_new
  apply_human_review-repeat db r db' h is_json' ids' cmd' same =
      ap (λ o. Reviews.apply_new is_json' ids' cmd' o db')
        (ap (λ k. Reviews.find_review k db'.reviews) same
          ∙ new-IsStored (Reviews.find_review cmd.input.idempotency_key db.reviews) db r db' refl h)
