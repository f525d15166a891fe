-- ===== src/Attribution/Course.antt =====
-- Where an attribution leaves the cases: backend/internal/store/attribution.go.
use razorpay_ai_revenue_reco.Base.{
  String, ◌≡◌, Bool, true, false, not, Option, none, some, arith, ap, inr, ◌∙◌,
}
use razorpay_ai_revenue_reco.Domain.States.{is_terminal}
use razorpay_ai_revenue_reco.Domain.Entities.{RecoveryCase}
use razorpay_ai_revenue_reco.Domain.Lifecycle.{no_move, attributed_move}
use razorpay_ai_revenue_reco.Store.Rows.{Attribution, Category}
use razorpay_ai_revenue_reco.Store.Tables.{
  Database, Tx, ◌>>=◌, ◌>>◌, pure, demand, case_terminal, record_events, Snapshot,
}
use razorpay_ai_revenue_reco.Store.Lifecycle.{
  Moves, Keeps, KeepsAt, Quiet, Quiet-Keeps, Follows-same, Follows-refl, bind-Quiet, pass_at,
  lock_case-Keeps, update_case-KeepsAt, on_ok-inv,
}
use razorpay_ai_revenue_reco.Store.Ensures.{demand-same}
use razorpay_ai_revenue_reco.Store.Attributions
use razorpay_ai_revenue_reco.Store.Attributions.Weighing
use razorpay_ai_revenue_reco.Attribution.Effects.{fulfil-Quiet, feedback-Quiet, has_ended-live}

recover-Moves :
    (i : Weighing.ObserveInput) (category : String) (c : RecoveryCase)
    → is_terminal c.current_state ≡ false
    → Moves c (Attributions.recover i category c)
unfolding Attributions.recover
recover-Moves i category c h = record {
  reached = attributed_move h no_move;
  version_kept = omega arith;
  same_or_newer = inr (omega arith);
}

module _ (spell : Category → String) (id : String) (i : Weighing.ObserveInput) (c : RecoveryCase)
    (live : is_terminal c.current_state ≡ false) where
  write-KeepsAt :
      (f : Weighing.Finding) (d : Option Snapshot)
      → KeepsAt i.case_id c (Attributions.write_attribution spell id i f d)
  unfolding Attributions.write_attribution
  write-KeepsAt f d =
      pass_at (Attributions.add_attribution a) _ i.case_id c (λ db u db' h. cc h)
        (pass_at (Attributions.fulfil_if f.promise i) _ i.case_id c (fulfil-Quiet f.promise i) (
          update_case-KeepsAt i.case_id c (Attributions.recover i (spell f.category)) rest
            (recover-Moves i (spell f.category) c live)
            (λ db b db' e h. Quiet-Keeps rest rest-Quiet db b db' h)))
    where
      a : Attribution
      a = Attributions.attribution_row id i f d

      rest : Tx (Attribution × Bool)
      rest = Attributions.feedback_if d a >>= λ w.
          record_events i.case_id (Attributions.attribution_events w i) >> pure (a, true)

      rest-Quiet : Quiet rest
      rest-Quiet =
          bind-Quiet (Attributions.feedback_if d a)
            (λ w. record_events i.case_id (Attributions.attribution_events w i) >> pure (a, true))
            (feedback-Quiet d a) (λ w db1 x db2 g. cc g)

  finding-KeepsAt :
      (w : Weighing.Weighed) → KeepsAt i.case_id c (Attributions.write_finding spell id i w)
  unfolding Attributions.write_finding
  finding-KeepsAt (Weighing.dropped m) db r db' e h =
      Follows-same db db' db' (cc h) (Follows-refl db')
  finding-KeepsAt (Weighing.weighed f) db r db' e h = write-KeepsAt f _ db r db' e h

  new-KeepsAt :
      (w : Option Weighing.Windows) → KeepsAt i.case_id c (Attributions.attribute_new spell id i w)
  unfolding Attributions.attribute_new
  new-KeepsAt none db r db' e h = cc h
  new-KeepsAt (some w) db r db' e h = finding-KeepsAt _ db r db' e h

  unless-KeepsAt :
      (w : Option Weighing.Windows) (o : Option Attribution)
      → KeepsAt i.case_id c (Attributions.attribute_unless spell id i w o)
  unfolding Attributions.attribute_unless
  unless-KeepsAt w (some old) db r db' e h = Follows-same db db' db' (cc h) (Follows-refl db')
  unless-KeepsAt w none db r db' e h = new-KeepsAt w db r db' e h

pub attribute_recovery-Keeps :
    (spell : Category → String) (id : String) (i : Weighing.ObserveInput)
    (w : Option Weighing.Windows)
    → Keeps (Attributions.attribute_recovery spell id i w)
unfolding Attributions.attribute_recovery Attributions.attribute_at
attribute_recovery-Keeps spell id i w =
    lock_case-Keeps i.case_id (Attributions.attribute_at spell id i w) at_row
  where
    at_row : (c : RecoveryCase) → KeepsAt i.case_id c (Attributions.attribute_at spell id i w c)
    at_row c db r db' e h =
        let (u, db1, e1, g1) =
          on_ok-inv
            (λ u.
              Attributions.attribute_unless spell id i w
                (Attributions.find_attribution i.case_id i.payment_reference db.attributions))
            (demand (not (Attributions.has_ended c.current_state)) case_terminal db) r db' h in
        let (t, same) =
          demand-same (not (Attributions.has_ended c.current_state)) case_terminal db u db1 e1 in
        let cases = ap (λ (d : Database). d.cases) same in
        Follows-same db db1 db' (ap (λ t. t) cases) (
          unless-KeepsAt spell id i c (has_ended-live c.current_state t) w _ db1 r db'
            (ap (λ t. t i.case_id) cases ∙ e) g1)
