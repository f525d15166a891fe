-- ===== src/Recovery/Interleaving.antt =====
-- `Service.Transition` of backend/internal/recovery/service.go with other transactions between its
-- read and its write.
use razorpay_ai_revenue_reco.Base.{
  ℕ, String, ◌≡◌, refl, Bool, true, false, Option, none, some, [], ◌∷◌, str_eq, arith, sym, ap, ◌∙◌,
  subst, eq_iff,
}
use razorpay_ai_revenue_reco.Base.Tests.{◌==◌, if◌then◌else◌}
use razorpay_ai_revenue_reco.Base.Clock.{Time}
use razorpay_ai_revenue_reco.Domain.States.{CaseState, can_transition, validate_transition}
use razorpay_ai_revenue_reco.Domain.Entities.{RecoveryCase}
use razorpay_ai_revenue_reco.Store.Tables.{
  Database, conflict, Tx, Result, ok, err, ◌>>◌, pure, put_case, record_events, Draft, move, on_ok,
  or_missing,
}
use razorpay_ai_revenue_reco.Store.Cases.{get_case, at_version, transition_case}
use razorpay_ai_revenue_reco.Store.Lifecycle.{
  Moves-same, Follows, Follows-refl, Follows-trans, Follows-same, put_case-Follows, move-Moves,
}
use razorpay_ai_revenue_reco.Recovery.{
  Failure, done, TransitionInput, refusal_of, transition, transition_from, write_transition,
  transition_event, from_store,
}

refusal_allows :
    (i : TransitionInput) (c : RecoveryCase)
    → refusal_of i c ≡ none
    → can_transition c.current_state i.to_state ≡ true
unfolding refusal_of validate_transition
refusal_allows i c h = ground arith

-- `TransitionCase` alone: the caller has to know that the table allows the move.
transition_case-Follows :
    (id : String) (v : ℕ) (to : CaseState) (event : Draft) (d x : RecoveryCase) (db db' : Database)
    → db.cases id ≡ some d
    → (d.version ≡ v → can_transition d.current_state to ≡ true)
    → transition_case id v to event db ≡ ok (x, db')
    → Follows db db'
unfolding transition_case
transition_case-Follows id v to event d x db db' e allowed h =
    go (d.version == v) refl (ap (λ r. on_ok rest (at_version v r db)) (sym e) ∙ h)
  where
    now : Time
    now = event.occurred_at

    rest : RecoveryCase → Tx RecoveryCase
    rest c = put_case id (move to now c) >> record_events id (event ∷ []) >> pure (move to now c)

    mid : Database
    mid = record db { cases = λ j. if str_eq j id then some (move to now d) else db.cases j }

    go :
        (t : Bool)
        → (d.version == v) ≡ t
        → on_ok rest (if t then ok (d, db) else err conflict) ≡ ok (x, db')
        → Follows db db'
    go true q g =
        Follows-trans
          (put_case-Follows db id d (move to now d) e
            (move-Moves d to now (allowed (ground arith))))
          (Follows-same mid db' db' (cc g) (Follows-refl db'))
    go false q g = cc g

-- What `TransitionCase` returns.
transition_case-inv :
    (id : String) (v : ℕ) (to : CaseState) (event : Draft) (d x : RecoveryCase) (db db' : Database)
    → db.cases id ≡ some d
    → transition_case id v to event db ≡ ok (x, db')
    → (d.version ≡ v) × (x ≡ move to event.occurred_at d) × (db'.cases id ≡ some x)
unfolding transition_case
transition_case-inv id v to event d x db db' e h =
    go (d.version == v) refl (ap (λ r. on_ok rest (at_version v r db)) (sym e) ∙ h)
  where
    now : Time
    now = event.occurred_at

    rest : RecoveryCase → Tx RecoveryCase
    rest c = put_case id (move to now c) >> record_events id (event ∷ []) >> pure (move to now c)

    moved : rest d db ≡ ok (x, db') → x ≡ move to now d
    moved g = sym (cc g)

    stored :
        rest d db ≡ ok (x, db')
        → db'.cases ≡ (λ j. if str_eq j id then some (move to now d) else db.cases j)
    stored g = sym (cc g)

    there : (if str_eq id id then some (move to now d) else db.cases id) ≡ some (move to now d)
    there = ground (arith, eq_iff id id)

    go :
        (t : Bool)
        → (d.version == v) ≡ t
        → on_ok rest (if t then ok (d, db) else err conflict) ≡ ok (x, db')
        → (d.version ≡ v) × (x ≡ move to now d) × (db'.cases id ≡ some x)
    go true q g =
        (ground arith, moved g, ap (λ t. t id) (stored g) ∙ there ∙ ap some (sym (moved g)))
    go false q g = cc g

done-inv :
    {A : Type 0} (r : Result (A × Database)) (p : A × Database) → from_store r ≡ done p → r ≡ ok p
done-inv (ok r) p h = cc h
done-inv (err e) p h = cc h

pub transition-Follows :
    (i : TransitionInput) (fresh : String) (now : Time) (id : String) (before db : Database)
    (x : RecoveryCase) (db' : Database)
    → Follows before db
    → transition i fresh now id before db ≡ done (x, db')
    → Follows db db'
unfolding transition get_case transition_from write_transition
transition-Follows i fresh now id before db x db' f h = go (before.cases id) refl h
  where
    event : Draft
    event = transition_event i fresh now

    written :
        (c : RecoveryCase)
        → before.cases id ≡ some c
        → (r : Option Failure) → refusal_of i c ≡ r
        → write_transition r id c.version i event db ≡ done (x, db')
        → Follows db db'
    written c e none q g =
        let (d, hd, m) = f.moved id c e in
        transition_case-Follows id c.version i.to_state event d x db db' hd
          (λ v.
            subst (λ s. can_transition s i.to_state ≡ true) (Moves-same m v) (refusal_allows i c q))
          (done-inv (transition_case id c.version i.to_state event db) (x, db') g)
    written c e (some r) q g = cc g

    go :
        (r : Option RecoveryCase)
        → before.cases id ≡ r
        → transition_from (or_missing r before) id i event db ≡ done (x, db')
        → Follows db db'
    go none e g = cc g
    go (some c) e g = written c e (refusal_of i c) refl g

-- What a transition that succeeds finds, where the cases have moved since it was read.
pub transition-after :
    (i : TransitionInput) (fresh : String) (now : Time) (id : String) (before db db' : Database)
    (c x : RecoveryCase)
    → Follows before db
    → transition i fresh now id before db ≡ done (x, db')
    → db.cases id ≡ some c
    → (can_transition c.current_state i.to_state ≡ true)
      × (x ≡ move i.to_state now c)
      × (db'.cases id ≡ some x)
unfolding transition get_case transition_from write_transition transition_event
transition-after i fresh now id before db db' c x f h k = go (before.cases id) refl h
  where
    event : Draft
    event = transition_event i fresh now

    written :
        (d : RecoveryCase)
        → before.cases id ≡ some d
        → (r : Option Failure) → refusal_of i d ≡ r
        → write_transition r id d.version i event db ≡ done (x, db')
        → (can_transition c.current_state i.to_state ≡ true)
          × (x ≡ move i.to_state now c)
          × (db'.cases id ≡ some x)
    written d e none q g =
        let (y, hy, m) = f.moved id d e in
        let (v, ex, ey) =
          transition_case-inv id d.version i.to_state event c x db db' k
            (done-inv (transition_case id d.version i.to_state event db) (x, db') g) in
        let same : y ≡ c = cc (hy, k) in
        (
          subst (λ s. can_transition s i.to_state ≡ true)
              (Moves-same m (ap (λ z. z.version) same ∙ v) ∙ ap (λ z. z.current_state) same)
              (refusal_allows i d q),
          ex,
          ey,
        )
    written d e (some r) q g = cc g

    go :
        (r : Option RecoveryCase)
        → before.cases id ≡ r
        → transition_from (or_missing r before) id i event db ≡ done (x, db')
        → (can_transition c.current_state i.to_state ≡ true)
          × (x ≡ move i.to_state now c)
          × (db'.cases id ≡ some x)
    go none e g = cc g
    go (some d) e g = written d e (refusal_of i d) refl g
