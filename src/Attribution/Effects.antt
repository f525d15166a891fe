-- ===== src/Attribution/Effects.antt =====
-- What an attribution does to its case: backend/internal/store/attribution.go.
use razorpay_ai_revenue_reco.Base.{
  suc, String, ◌≡◌, refl, Bool, true, false, not, Option, none, some, ◌∷◌, ap, ◌∙◌, arith,
}
use razorpay_ai_revenue_reco.Base.Tests.{if◌then◌else◌}
use razorpay_ai_revenue_reco.Base.Int.{◌+ℤ◌}
use razorpay_ai_revenue_reco.Domain.States.{CaseState, recovered, is_terminal, state_eq}
use razorpay_ai_revenue_reco.Domain.Entities.{RecoveryCase, PromiseToPay, fulfilled, is_active}
use razorpay_ai_revenue_reco.Store.Rows.{Attribution, Category}
use razorpay_ai_revenue_reco.Store.Tables.{
  Database, Tx, ok, err, ◌>>=◌, ◌>>◌, pure, demand, case_terminal, on_ok, or_missing, update_case,
  record_events, Snapshot,
}
use razorpay_ai_revenue_reco.Store.Lifecycle.{Quiet, bind-Quiet, on_ok-inv}
use razorpay_ai_revenue_reco.Store.Ensures.{demand-same, lock_case-inv, update_case-inv}
use razorpay_ai_revenue_reco.Store.Promises.Outcomes.{transition_promise_tx}
use razorpay_ai_revenue_reco.Store.Promises.Lifecycle.{transition-Quiet}
use razorpay_ai_revenue_reco.Store.Attributions
use razorpay_ai_revenue_reco.Store.Attributions.Weighing

pub fulfil-Quiet :
    (o : Option PromiseToPay) (i : Weighing.ObserveInput) → Quiet (Attributions.fulfil_if o i)
unfolding Attributions.fulfil_if
fulfil-Quiet none i = λ db u db' h. cc h
fulfil-Quiet (some p) i = λ db u db' h. go (is_active p.status) db u db' h
  where
    run : Tx (Unit {0})
    run =
        transition_promise_tx p fulfilled "ATTRIBUTED_PAYMENT" i.correlation_id i.payment_reference
          i.observed_at
        >>= λ q. pure tt

    go : (b : Bool) → Quiet (λ db. (if b then run else pure tt) db)
    go true db u db' h =
        bind-Quiet
          (transition_promise_tx p fulfilled "ATTRIBUTED_PAYMENT" i.correlation_id
            i.payment_reference i.observed_at)
          (λ q. pure tt)
          (transition-Quiet p fulfilled "ATTRIBUTED_PAYMENT" i.correlation_id i.payment_reference
            i.observed_at)
          (λ q db1 a db2 g. cc g) db u db' h
    go false db u db' h = cc h

feedback_with-Quiet :
    (b : Bool) (d : Snapshot) (a : Attribution) → Quiet (Attributions.feedback_with b d a)
unfolding Attributions.feedback_with
feedback_with-Quiet true d a db u db' h = cc h
feedback_with-Quiet false d a db u db' h = cc h

pub feedback-Quiet : (d : Option Snapshot) (a : Attribution) → Quiet (Attributions.feedback_if d a)
unfolding Attributions.feedback_if
feedback-Quiet none a = λ db u db' h. cc h
feedback-Quiet (some d) a = feedback_with-Quiet _ d a

write-recovers :
    (spell : Category → String) (id : String) (i : Weighing.ObserveInput) (f : Weighing.Finding)
    (d : Option Snapshot) (c : RecoveryCase) (db : Database) (r : Attribution × Bool)
    (db' : Database)
    → db.cases i.case_id ≡ some c
    → Attributions.write_attribution spell id i f d db ≡ ok (r, db')
    → db'.cases i.case_id ≡ some (Attributions.recover i (spell f.category) c)
unfolding Attributions.write_attribution
write-recovers spell id i f d c db r db' e h =
    let (u, db1, e1, h1) =
      on_ok-inv (λ u. update_case i.case_id (Attributions.recover i (spell f.category)) >> rest)
        (Attributions.fulfil_if f.promise i (record db { attributions = a ∷ db.attributions })) r
        db' h in
    let same = fulfil-Quiet f.promise i _ u db1 e1 in
    let (db2, e2, h2) =
      update_case-inv i.case_id c (Attributions.recover i (spell f.category)) rest db1 r db'
        (ap (λ t. t i.case_id) same ∙ e) h1 in
    ap (λ t. t i.case_id) (rest-Quiet db2 r db' h2) ∙ e2
  where
    a : Attribution
    a = Attributions.attribution_row id i f d

    rest : Tx (Attribution × Bool)
    rest = Attributions.feedback_if d a >>= λ w.
        record_events i.case_id (Attributions.attribution_events w i) >> pure (a, true)

    rest-Quiet : Quiet rest
    rest-Quiet =
        bind-Quiet (Attributions.feedback_if d a)
          (λ w. record_events i.case_id (Attributions.attribution_events w i) >> pure (a, true))
          (feedback-Quiet d a) (λ w db1 x db2 g. cc g)

-- A row that an attribution has written.
pub record IsRecovered (i : Weighing.ObserveInput) (c d : RecoveryCase) : Type 0 where
  pub was_live : is_terminal c.current_state ≡ false
  pub now_recovered : d.current_state ≡ recovered
  pub amount_added : d.recovered_amount_minor ≡ c.recovered_amount_minor +ℤ i.recovered_amount_minor
  pub next_version : d.version ≡ suc c.version

pub has_ended-live : (s : CaseState) → not (Attributions.has_ended s) ≡ true → is_terminal s ≡ false
unfolding Attributions.has_ended is_terminal state_eq
has_ended-live s h = ground arith

module _ (spell : Category → String) (id : String) (i : Weighing.ObserveInput) where
  finding-recovers :
      (w : Weighing.Weighed) (c : RecoveryCase) (db : Database) (a : Attribution) (db' : Database)
      → db.cases i.case_id ≡ some c
      → Attributions.write_finding spell id i w db ≡ ok ((a, true), db')
      → (s : String) × (db'.cases i.case_id ≡ some (Attributions.recover i s c))
  unfolding Attributions.write_finding
  finding-recovers (Weighing.dropped m) c db a db' e h = cc h
  finding-recovers (Weighing.weighed f) c db a db' e h =
      (spell f.category, write-recovers spell id i f _ c db (a, true) db' e h)

  new-recovers :
      (w : Option Weighing.Windows) (c : RecoveryCase) (db : Database) (a : Attribution)
      (db' : Database)
      → db.cases i.case_id ≡ some c
      → Attributions.attribute_new spell id i w db ≡ ok ((a, true), db')
      → (s : String) × (db'.cases i.case_id ≡ some (Attributions.recover i s c))
  unfolding Attributions.attribute_new
  new-recovers none c db a db' e h = cc h
  new-recovers (some w) c db a db' e h = finding-recovers _ c db a db' e h

  unless-recovers :
      (w : Option Weighing.Windows) (o : Option Attribution) (c : RecoveryCase) (db : Database)
      (a : Attribution) (db' : Database)
      → db.cases i.case_id ≡ some c
      → Attributions.attribute_unless spell id i w o db ≡ ok ((a, true), db')
      → (s : String) × (db'.cases i.case_id ≡ some (Attributions.recover i s c))
  unfolding Attributions.attribute_unless
  unless-recovers w (some old) c db a db' e h = cc h
  unless-recovers w none c db a db' e h = new-recovers w c db a db' e h

  -- An attribution that is reported as new was made to a case that had not ended: the case is then
  -- RECOVERED, its recovered amount is higher by the payment's, and its version is the next one.
  pub attribute_recovery-IsRecovered :
      (w : Option Weighing.Windows) (db : Database) (a : Attribution) (db' : Database)
      → Attributions.attribute_recovery spell id i w db ≡ ok ((a, true), db')
      → (c : RecoveryCase) × (db.cases i.case_id ≡ some c)
        × (d : RecoveryCase) × (db'.cases i.case_id ≡ some d)
        × IsRecovered i c d
  unfolding Attributions.attribute_recovery Attributions.attribute_at Attributions.recover
  attribute_recovery-IsRecovered w db a db' h =
      let (c, e, g) =
        lock_case-inv i.case_id (Attributions.attribute_at spell id i w) db (a, true) db' h in
      let (u, db1, e1, g1) =
        on_ok-inv
          (λ u.
            Attributions.attribute_unless spell id i w
              (Attributions.find_attribution i.case_id i.payment_reference db.attributions))
          (demand (not (Attributions.has_ended c.current_state)) case_terminal db) (a, true) db'
          g in
      let (t, same) =
        demand-same (not (Attributions.has_ended c.current_state)) case_terminal db u db1 e1 in
      let (s, k) =
        unless-recovers w _ c db1 a db' (ap (λ (d : Database). d.cases i.case_id) same ∙ e) g1 in
      (
        c,
        e,
        Attributions.recover i s c,
        k,
        record {
          was_live = has_ended-live c.current_state t;
          now_recovered = refl;
          amount_added = refl;
          next_version = refl;
        },
      )

-- After an attribution that is reported as new, every further payment for the case is refused as
-- terminal, also one with the same payment reference, and nothing is written.
pub attribute_recovery-once :
    (spell spell' : Category → String) (id id' : String) (i j : Weighing.ObserveInput)
    (w w' : Option Weighing.Windows) (db : Database) (a : Attribution) (db' : Database)
    → Attributions.attribute_recovery spell id i w db ≡ ok ((a, true), db')
    → j.case_id ≡ i.case_id
    → Attributions.attribute_recovery spell' id' j w' db' ≡ err case_terminal
unfolding Attributions.attribute_recovery Attributions.attribute_at Attributions.has_ended state_eq
attribute_recovery-once spell spell' id id' i j w w' db a db' h same =
    let (c, e, d, k, p) = attribute_recovery-IsRecovered spell id i w db a db' h in
    let row : db'.cases j.case_id ≡ some d = ap db'.cases same ∙ k in
    ap (λ o. on_ok (Attributions.attribute_at spell' id' j w') (or_missing o db')) row
    ∙ refused d p.now_recovered
  where
    refused :
        (d : RecoveryCase)
        → d.current_state ≡ recovered
        → Attributions.attribute_at spell' id' j w' d db' ≡ err case_terminal
    refused d q =
        ap
          (λ s.
            on_ok
              (λ u.
                Attributions.attribute_unless spell' id' j w'
                  (Attributions.find_attribution j.case_id j.payment_reference db'.attributions))
              (demand (not (Attributions.has_ended s)) case_terminal db'))
          q
