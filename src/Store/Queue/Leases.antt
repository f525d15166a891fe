-- ===== src/Store/Queue/Leases.antt =====
-- What the claims of the work queue guarantee.
use razorpay_ai_revenue_reco.Base.{
  ℕ, String, ◌≡◌, ◌+◌, ◌<◌, refl, Bool, true, false, Option, none, some, List, [], ◌∷◌, arith, sym,
  ap, ◌∙◌, subst, inl, inr, str_eq, eq_iff,
}
use razorpay_ai_revenue_reco.Base.Tests.{if◌then◌else◌, Bool-cases}
use razorpay_ai_revenue_reco.Base.Lists.{All}
use razorpay_ai_revenue_reco.Base.Clock.{Time}
use razorpay_ai_revenue_reco.Store.Tables.{
  Database, StoreError, ok, has_id, update_where, ScheduledAction, claimed, observation_claimed,
}
use razorpay_ai_revenue_reco.Store.Queue.{
  is_due, comes_first, first_of, better, claim, claim_due, claim_row, take_lease, may_claim,
  lease_over, is_due_observation, may_observe, claim_due_observation,
}

picked :
    (p : ScheduledAction → Bool) (P : ScheduledAction → Type 0) (r s : ScheduledAction)
    → (p r ≡ true → P r)
    → (b : Bool) → p r ≡ b
    → (rest : Option ScheduledAction) → ((t : ScheduledAction) → rest ≡ some t → P t)
    → (if b then some (better r rest) else rest) ≡ some s
    → P s
unfolding better
picked p P r s k false q rest ih h = ih s h
picked p P r s k true q none ih h = subst P (cc h) (k q)
picked p P r s k true q (some t) ih h = elim (Bool-cases (comes_first t r)) [
  | inl e ↦ subst P (ground arith) (ih t refl)
  | inr e ↦ subst P (ground arith) (k q)
]

-- A row that is chosen passes the test, and any property of all the rows that pass it.
first_of-All :
    (p : ScheduledAction → Bool) (P : ScheduledAction → Type 0) (ss : List ScheduledAction)
    (s : ScheduledAction)
    → All (λ r. p r ≡ true → P r) ss
    → first_of p ss ≡ some s
    → P s
unfolding first_of better
first_of-All p P [] s a h = cc h
first_of-All p P (r ∷ ss) s (k, a) h =
    picked p P r s k (p r) refl (first_of p ss) (λ t e. first_of-All p P ss t a e) h

-- Rows under the identifier of a claimed row hold its lease.
Held : String → Time → ScheduledAction → Type 0
Held id expires r = has_id id r ≡ true → (r.status ≡ claimed) × (r.lease_expires_at ≡ some expires)

claimed_All :
    (id : String) (worker : String) (expires : Time) (ss : List ScheduledAction)
    → All (Held id expires) (update_where (has_id id) (claim worker expires) ss)
unfolding update_where claim take_lease Held
claimed_All id worker expires [] = tt
claimed_All id worker expires (r ∷ ss) = (ground arith, claimed_All id worker expires ss)

Held-not_due :
    (id : String) (expires now : Time) (r : ScheduledAction)
    → now < expires
    → Held id expires r
    → is_due now r ≡ true
    → has_id id r ≡ false
unfolding Held is_due may_claim lease_over
Held-not_due id expires now r l h d = elim (Bool-cases (has_id id r)) [
  | inl q ↦ let (st, le) = h q in ground arith
  | inr q ↦ q
]

Held-All :
    (id : String) (expires now : Time) (ss : List ScheduledAction)
    → now < expires
    → All (Held id expires) ss
    → All (λ r. is_due now r ≡ true → has_id id r ≡ false) ss
Held-All id expires now [] l a = tt
Held-All id expires now (r ∷ ss) l (h, a) =
    (Held-not_due id expires now r l h, Held-All id expires now ss l a)

row_of :
    (e : StoreError) (f : ScheduledAction → ScheduledAction) (r : Option ScheduledAction)
    (db : Database) (s : ScheduledAction) (db' : Database)
    → claim_row e f r db ≡ ok (s, db')
    → (t : ScheduledAction) × (r ≡ some t)
      × (s ≡ f t)
      × (db'.schedules ≡ update_where (has_id t.id) f db.schedules)
unfolding claim_row
row_of e f none db s db' h = cc h
row_of e f (some t) db s db' h = (t, refl, sym (cc h), cc h)

-- Claims of the two queues before a time, by any workers and in any number.
pub data Claims (until : Time) (db : Database) : Database → Type 0 where
  no_claim : Claims until db db
  claim_step :
      (db1 db2 : Database) (worker : String) (now : Time) (lease : ℕ) (s : ScheduledAction)
      → Claims until db db1
      → now < until
      → claim_due worker now lease db1 ≡ ok (s, db2)
      → Claims until db db2
  observation_step :
      (db1 db2 : Database) (worker : String) (now : Time) (lease : ℕ) (s : ScheduledAction)
      → Claims until db db1
      → claim_due_observation worker now lease db1 ≡ ok (s, db2)
      → Claims until db db2

-- A row that is held is not due for observation either.
Held-not_observed :
    (id : String) (expires now : Time) (r : ScheduledAction)
    → Held id expires r
    → is_due_observation now r ≡ true
    → has_id id r ≡ false
unfolding Held is_due_observation may_observe
Held-not_observed id expires now r h d = elim (Bool-cases (has_id id r)) [
  | inl q ↦ let (st, le) = h q in ground arith
  | inr q ↦ q
]

Held-observed :
    (id : String) (expires now : Time) (ss : List ScheduledAction)
    → All (Held id expires) ss
    → All (λ r. is_due_observation now r ≡ true → has_id id r ≡ false) ss
Held-observed id expires now [] a = tt
Held-observed id expires now (r ∷ ss) (h, a) =
    (Held-not_observed id expires now r h, Held-observed id expires now ss a)

-- A write to a row with another identifier keeps what is held.
Held-update :
    (id other : String) (expires : Time) (f : ScheduledAction → ScheduledAction)
    (ss : List ScheduledAction)
    → str_eq other id ≡ false
    → ((r : ScheduledAction) → has_id id (f r) ≡ has_id id r)
    → All (Held id expires) ss
    → All (Held id expires) (update_where (has_id other) f ss)
unfolding update_where Held
Held-update id other expires f [] n k a = tt
Held-update id other expires f (r ∷ ss) n k (h, a) =
    (row (has_id other r) refl, Held-update id other expires f ss n k a)
  where
    row :
        (b : Bool)
        → has_id other r ≡ b
        → has_id id (if b then f r else r) ≡ true
        → ((if b then f r else r).status ≡ claimed)
          × ((if b then f r else r).lease_expires_at ≡ some expires)
    row false e g = h g
    row true e g =
        let same : r.id ≡ other = ground (arith, e, eq_iff r.id other) in
        let clash : false ≡ true = sym n ∙ ap (λ x. str_eq x id) (sym same) ∙ sym (k r) ∙ g in
        cc clash

Claims-Held :
    (id : String) (until : Time) (db db' : Database)
    → All (Held id until) db.schedules
    → Claims until db db'
    → All (Held id until) db'.schedules
unfolding claim_due claim_due_observation claim take_lease
Claims-Held id until db db' a no_claim = a
Claims-Held id until db db' a (claim_step db1 db2 worker now lease s c l h) =
    let (t, e, es, eq) = row_of _ _ (first_of (is_due now) db1.schedules) db1 s db' h in
    let held = Claims-Held id until db db1 a c in
    let not_it =
      first_of-All (is_due now) (λ r. has_id id r ≡ false) db1.schedules t
        (Held-All id until now db1.schedules l held) e in
    subst (All (Held id until)) (sym eq)
      (Held-update id t.id until (claim worker (now + lease)) db1.schedules not_it (λ r. refl) held)
Claims-Held id until db db' a (observation_step db1 db2 worker now lease s c h) =
    let (t, e, es, eq) = row_of _ _ (first_of (is_due_observation now) db1.schedules) db1 s db' h in
    let held = Claims-Held id until db db1 a c in
    let not_it =
      first_of-All (is_due_observation now) (λ r. has_id id r ≡ false) db1.schedules t
        (Held-observed id until now db1.schedules held) e in
    subst (All (Held id until)) (sym eq) (
      Held-update id t.id until (take_lease observation_claimed worker (now + lease)) db1.schedules
        not_it (λ r. refl) held)

-- After a worker has claimed a row, claims alone do not take it away: whatever claims of the two
-- queues follow, by any workers and in any number, none of them returns the row for work before the
-- lease is over. Transactions that release the row, such as a failure that is retried, are not among
-- what follows.
pub claim_due-excludes :
    (worker other : String) (now later : Time) (lease lease' : ℕ) (db db1 db2 db3 : Database)
    (s s' : ScheduledAction)
    → claim_due worker now lease db ≡ ok (s, db1)
    → Claims (now + lease) db1 db2
    → later < now + lease
    → claim_due other later lease' db2 ≡ ok (s', db3)
    → has_id s.id s' ≡ false
unfolding claim_due claim take_lease
claim_due-excludes worker other now later lease lease' db db1 db2 db3 s s' h c l h' =
    let (t, e, es, eq) = row_of _ _ (first_of (is_due now) db.schedules) db s db1 h in
    let (t', e', es', eq') = row_of _ _ (first_of (is_due later) db2.schedules) db2 s' db3 h' in
    let held =
      Claims-Held t.id (now + lease) db1 db2
        (subst (All (Held t.id (now + lease))) (sym eq)
          (claimed_All t.id worker (now + lease) db.schedules))
        c in
    ap (λ x. has_id x.id s') es
    ∙ ap (has_id t.id) es'
    ∙ first_of-All (is_due later) (λ r. has_id t.id r ≡ false) db2.schedules t'
        (Held-All t.id (now + lease) later db2.schedules l held) e'

All-same :
    (p : ScheduledAction → Bool) (ss : List ScheduledAction) → All (λ r. p r ≡ true → p r ≡ true) ss
All-same p [] = tt
All-same p (r ∷ ss) = (λ e. e, All-same p ss)

-- What `ClaimDue` returns is the first due row of the queue, with one attempt more and the worker's
-- lease; that row passes the test for being due.
pub claim_due-IsDue :
    (worker : String) (now : Time) (lease : ℕ) (db db' : Database) (s : ScheduledAction)
    → claim_due worker now lease db ≡ ok (s, db')
    → (t : ScheduledAction) × (first_of (is_due now) db.schedules ≡ some t)
      × (is_due now t ≡ true)
      × (s ≡ claim worker (now + lease) t)
unfolding claim_due
claim_due-IsDue worker now lease db db' s h =
    let (t, e, es, eq) = row_of _ _ (first_of (is_due now) db.schedules) db s db' h in
    (
      t,
      e,
      first_of-All (is_due now) (λ r. is_due now r ≡ true) db.schedules t
          (All-same (is_due now) db.schedules) e,
      es,
    )
