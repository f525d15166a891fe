-- ===== src/Operations/Guards.antt =====
-- What an approval has passed, and the repetition of a review.
use razorpay_ai_revenue_reco.Base.{
  ℕ, ◌+◌, ◌<◌, ◌≡◌, refl, Bool, true, false, ◌||◌, Option, none, some, List, ◌⊎◌, arith, sym, ap,
  ◌∙◌,
}
use razorpay_ai_revenue_reco.Base.Clock.{Time}
use razorpay_ai_revenue_reco.Domain.States.{
  CaseState, action_pending, policy_review, scheduled, escalated, state_eq, state_eq→≡,
}
use razorpay_ai_revenue_reco.Domain.Entities.{RecoveryCase, RawJson}
use razorpay_ai_revenue_reco.Policy.Tally.{Decision, approve, escalate, PolicyResult}
use razorpay_ai_revenue_reco.Store.Rows.{Review, ReviewDecision, review_approve, ReviewReason}
use razorpay_ai_revenue_reco.Store.Tables.{
  Database, Tx, ok, ◌>>=◌, ◌>>◌, pure, demand, move, update_case_if, not_reviewable,
  ScheduledAction, Draft,
}
use razorpay_ai_revenue_reco.Store.Lifecycle.{on_ok-inv, demand-Quiet}
use razorpay_ai_revenue_reco.Store.Ensures.{Ensures, bind-Ensures, lock_row-inv, update_case_if-inv}
use razorpay_ai_revenue_reco.Store.Decisions.{add_schedule}
use razorpay_ai_revenue_reco.Operations.Approval.{
  ApplyCommand, Authorized, authorize_approval, by_policy,
}
use razorpay_ai_revenue_reco.Store.Reviews

-- What stands between a reviewer's approval and the schedule. The policy version of the item is the
-- one that `Review` has read with it, since the request names none.
pub record IsReauthorized (cmd : ApplyCommand) (c : RecoveryCase) (policy_version : ℕ)
    : Type 0 where
  pub asked : cmd.input.decision ≡ review_approve
  pub was_escalated : c.current_state ≡ escalated
  pub same_version : c.version ≡ cmd.input.expected_case_version
  pub same_policy : policy_version ≡ cmd.item.merchant_policy_version
  pub in_time : cmd.now < cmd.item.recovery_deadline
  pub policy_passed : (cmd.fresh_policy.decision ≡ approve) ⊎ (cmd.fresh_policy.decision ≡ escalate)

by_policy-can_schedule :
    (d : Decision) (reasons : List ReviewReason)
    → (by_policy d reasons).can_schedule ≡ true
    → (d ≡ approve) ⊎ (d ≡ escalate)
unfolding by_policy
by_policy-can_schedule d reasons h = ground arith

reauthorize-asked :
    (d : ReviewDecision) (a : Authorized)
    → (Reviews.reauthorize d a).can_schedule ≡ true
    → (d ≡ review_approve) × (a.can_schedule ≡ true)
unfolding Reviews.reauthorize
reauthorize-asked d a h = ground arith

authorize_approval-inv :
    (state : CaseState) (version expected policy_version observed : ℕ) (deadline now : Time)
    (fresh : PolicyResult)
    → (authorize_approval state version expected policy_version observed deadline now
        fresh).can_schedule
      ≡ true
    → (state_eq state escalated ≡ true)
      × (version ≡ expected)
      × (policy_version ≡ observed)
      × (now < deadline)
      × ((fresh.decision ≡ approve) ⊎ (fresh.decision ≡ escalate))
unfolding authorize_approval
authorize_approval-inv state version expected policy_version observed deadline now fresh h =
    ground (arith, by_policy-can_schedule fresh.decision)

-- The row after the three updates.
abbrev on_schedule : Time → RecoveryCase → RecoveryCase
on_schedule now c = move scheduled now (move policy_review now (move action_pending now c))

abbrev IsPut : ApplyCommand → RecoveryCase → Database → Type 0
IsPut cmd c db = db.cases cmd.item.case_id ≡ some (on_schedule cmd.now c)

added-inv :
    (row : ScheduledAction) (db : Database) (s : Option ScheduledAction) (db' : Database)
    → (add_schedule row >> pure (some row)) db ≡ ok (s, db')
    → (s ≡ some row) × (db'.cases ≡ db.cases)
added-inv row db s db' h = (cc h, cc h)

approve-not_stop : {d : ReviewDecision} → d ≡ review_approve → Reviews.is_stop d ≡ false
unfolding Reviews.is_stop
approve-not_stop h = ap Reviews.is_stop h

some-inj : {A : Type 0} {a b : A} → some a ≡ some b → a ≡ b
some-inj h = cc h

absurd_none : {A : Type 0} {a : A} → none ≡ some a → ⊥
absurd_none h = cc h

module _ (is_json : RawJson → Bool) (ids : Reviews.ReviewIds) (cmd : ApplyCommand) where
  schedule_approved-IsPut :
      (c : RecoveryCase) (version : ℕ) (reasons : List ReviewReason) (db : Database)
      (s : Option ScheduledAction) (db' : Database)
      → db.cases cmd.item.case_id ≡ some c
      → Reviews.schedule_approved ids cmd version reasons db ≡ ok (s, db')
      → (s ≡ some (Reviews.approved_schedule ids cmd (version + 3))) × IsPut cmd c db'
  unfolding Reviews.schedule_approved
  schedule_approved-IsPut c version reasons db s db' e h =
      let (db1, e1, h1) =
        update_case_if-inv cmd.item.case_id c (Reviews.in_state escalated)
          (move action_pending cmd.now) second _ s db' e h in
      let (db2, e2, h2) =
        update_case_if-inv cmd.item.case_id _ (Reviews.in_state action_pending)
          (move policy_review cmd.now) third db1 s db' e1 h1 in
      let (db3, e3, h3) =
        update_case_if-inv cmd.item.case_id _ (Reviews.in_state policy_review)
          (move scheduled cmd.now) last db2 s db' e2 h2 in
      let (same, kept) = added-inv row db3 s db' h3 in
      (same, ap (λ t. t cmd.item.case_id) kept ∙ e3)
    where
      row : ScheduledAction
      row = Reviews.approved_schedule ids cmd (version + 3)

      last : Tx (Option ScheduledAction)
      last = add_schedule row >> pure (some row)

      third : Tx (Option ScheduledAction)
      third =
          update_case_if cmd.item.case_id (Reviews.in_state policy_review) (move scheduled cmd.now)
          >> last

      second : Tx (Option ScheduledAction)
      second =
          update_case_if cmd.item.case_id (Reviews.in_state action_pending)
            (move policy_review cmd.now)
          >> third

  -- What is shown of a run that returns a schedule, for the row and the policy version read.
  abbrev Goal : RecoveryCase → ℕ → ScheduledAction → Database → Type 0
  Goal c v s db' =
      IsReauthorized cmd c v
      × (s ≡ Reviews.approved_schedule ids cmd (c.version + 3))
      × IsPut cmd c db'

  recorded_at :
      (c : RecoveryCase) (v : ℕ) (a : Authorized) (s : Option ScheduledAction) (db : Database)
      (r : Reviews.Applied) (db' : Database)
      → Reviews.is_stop cmd.input.decision ≡ false
      → (Reviews.stop_if (Reviews.is_stop cmd.input.decision) cmd
            >> Reviews.record_review
                (Reviews.new_review is_json ids cmd c.version v a s)
                s
                (Reviews.review_drafts cmd a))
          db
        ≡ ok (r, db')
      → (r.schedule ≡ s) × (db'.cases ≡ db.cases)
  unfolding Reviews.stop_if Reviews.record_review
  recorded_at c v a s db r db' e h =
      go (Reviews.is_stop cmd.input.decision) e (Reviews.new_review is_json ids cmd c.version v a s)
        (Reviews.review_drafts cmd a) h
    where
      go :
          (b : Bool)
          → b ≡ false
          → (w : Review) (ds : List Draft)
          → (Reviews.stop_if b cmd >> Reviews.record_review w s ds) db ≡ ok (r, db')
          → (r.schedule ≡ s) × (db'.cases ≡ db.cases)
      go true q w ds g = cc q
      go false q w ds g = (cc g, cc g)

  recorded_schedule :
      (c : RecoveryCase) (v : ℕ) (a : Authorized) (s : Option ScheduledAction)
      → Ensures
          (λ r db'. r.schedule ≡ s)
          (Reviews.stop_if (Reviews.is_stop cmd.input.decision) cmd
            >> Reviews.record_review
                (Reviews.new_review is_json ids cmd c.version v a s)
                s
                (Reviews.review_drafts cmd a))
  unfolding Reviews.record_review
  recorded_schedule c v a s =
      bind-Ensures _ (Reviews.stop_if (Reviews.is_stop cmd.input.decision) cmd) _
        (λ u db r db' h. cc h)

  scheduled_at :
      (c : RecoveryCase) (v : ℕ) (a : Authorized) (db : Database) (r : Reviews.Applied)
      (db' : Database) (t : ScheduledAction)
      → db.cases cmd.item.case_id ≡ some c
      → (b : Bool) → (b ≡ true → cmd.input.decision ≡ review_approve)
      → (Reviews.schedule_allowed b ids cmd c.version a.reasons >>= λ s.
            Reviews.stop_if (Reviews.is_stop cmd.input.decision) cmd
            >> Reviews.record_review
                (Reviews.new_review is_json ids cmd c.version v a s)
                s
                (Reviews.review_drafts cmd a))
          db
        ≡ ok (r, db')
      → r.schedule ≡ some t
      → (b ≡ true) × (t ≡ Reviews.approved_schedule ids cmd (c.version + 3)) × IsPut cmd c db'
  unfolding Reviews.schedule_allowed
  scheduled_at c v a db r db' t e true d h w =
      let (s, db1, e1, h1) =
        on_ok-inv _ (Reviews.schedule_approved ids cmd c.version a.reasons db) r db' h in
      let (f, g) = schedule_approved-IsPut c c.version a.reasons db s db1 e e1 in
      let (x, y) = recorded_at c v a s db1 r db' (approve-not_stop (d refl)) h1 in
      (refl, some-inj (sym w ∙ x ∙ f), ap (λ u. u cmd.item.case_id) y ∙ g)
  scheduled_at c v a db r db' t e false d h w =
      absurd (absurd_none (sym (recorded_schedule c v a none db r db' h) ∙ w))

  authorized_at :
      (c : RecoveryCase) (v : ℕ) (db : Database) (r : Reviews.Applied) (db' : Database)
      (t : ScheduledAction)
      → db.cases cmd.item.case_id ≡ some c
      → Reviews.apply_locked is_json ids cmd c (some v) db ≡ ok (r, db')
      → r.schedule ≡ some t
      → IsReauthorized cmd c v
        × (t ≡ Reviews.approved_schedule ids cmd (c.version + 3))
        × IsPut cmd c db'
  unfolding Reviews.apply_locked Reviews.apply_authorized
  authorized_at c v db r db' t e h w =
      let (u, db1, e1, h1) =
        on_ok-inv _
          (demand (Reviews.is_approval cmd.input.decision || state_eq c.current_state escalated)
            not_reviewable db)
          r db' h in
      let same = demand-Quiet _ not_reviewable db u db1 e1 in
      let (b, k, l) =
        scheduled_at c v final db1 r db' t (ap (λ f. f cmd.item.case_id) same ∙ e)
          final.can_schedule (λ q. (reauthorize-asked cmd.input.decision given q).0) h1 w in
      let (asked, can) = reauthorize-asked cmd.input.decision given b in
      let (x, y, z, m, n) =
        authorize_approval-inv c.current_state c.version cmd.input.expected_case_version v
          cmd.item.merchant_policy_version cmd.item.recovery_deadline cmd.now cmd.fresh_policy
          can in
      (
        record {
          asked = asked;
          was_escalated = state_eq→≡ c.current_state escalated x;
          same_version = y;
          same_policy = z;
          in_time = m;
          policy_passed = n;
        },
        k,
        l,
      )
    where
      given : Authorized
      given =
          authorize_approval c.current_state c.version cmd.input.expected_case_version v
            cmd.item.merchant_policy_version cmd.item.recovery_deadline cmd.now cmd.fresh_policy

      final : Authorized
      final = Reviews.reauthorize cmd.input.decision given

  locked_at :
      (c : RecoveryCase) (o : Option ℕ) (db : Database) (r : Reviews.Applied) (db' : Database)
      (t : ScheduledAction)
      → db.cases cmd.item.case_id ≡ some c
      → Reviews.apply_locked is_json ids cmd c o db ≡ ok (r, db')
      → r.schedule ≡ some t
      → (v : ℕ) × (o ≡ some v)
        × IsReauthorized cmd c v
        × (t ≡ Reviews.approved_schedule ids cmd (c.version + 3))
        × IsPut cmd c db'
  unfolding Reviews.apply_locked
  locked_at c none db r db' t e h w = cc h
  locked_at c (some v) db r db' t e h w =
      let (p, q, k) = authorized_at c v db r db' t e h w in (v, refl, p, q, k)

  new_at :
      (o : Option Review) (db : Database) (r : Reviews.Applied) (db' : Database)
      (t : ScheduledAction)
      → Reviews.apply_new is_json ids cmd o db ≡ ok (r, db')
      → r.schedule ≡ some t
      → (c : RecoveryCase) × (v : ℕ) × (db.cases cmd.item.case_id ≡ some c)
        × (db.merchant_policies c.merchant_id ≡ some v)
        × IsReauthorized cmd c v
        × (t ≡ Reviews.approved_schedule ids cmd (c.version + 3))
        × IsPut cmd c db'
  unfolding Reviews.apply_new Reviews.apply_row
  new_at (some old) db r db' t h w = cc (h, w)
  new_at none db r db' t h w =
      let (c, e, g) =
        lock_row-inv cmd.item.case_id (Reviews.apply_row is_json ids cmd) db r db' h in
      let (v, q, p, k, l) = locked_at c (db.merchant_policies c.merchant_id) db r db' t e g w in
      (c, v, e, q, p, k, l)

  -- The same for a command, of which the policy result is a part.
  pub schedule-IsReauthorized :
      (db : Database) (r : Reviews.Applied) (db' : Database) (t : ScheduledAction)
      → Reviews.apply_human_review is_json ids cmd db ≡ ok (r, db')
      → r.schedule ≡ some t
      → (c : RecoveryCase) × (v : ℕ) × (db.cases cmd.item.case_id ≡ some c)
        × (db.merchant_policies c.merchant_id ≡ some v)
        × IsReauthorized cmd c v
        × (d : RecoveryCase) × (db'.cases cmd.item.case_id ≡ some d)
        × (d.current_state ≡ scheduled)
        × (d.version ≡ t.case_version_at_schedule)
  unfolding Reviews.apply_human_review Reviews.approved_schedule move
  schedule-IsReauthorized db r db' t h w =
      let (c, v, e, q, p, k, l) =
        new_at (Reviews.find_review cmd.input.idempotency_key db.reviews) db r db' t h w in
      (
        c,
        v,
        e,
        q,
        p,
        on_schedule cmd.now c,
        l,
        refl,
        omega (arith, ap (λ u. u.case_version_at_schedule) k),
      )
