-- ===== src/Store/Lifecycle.antt =====
-- How a transaction of backend/internal/store may change the cases, and rules for its statements.
use razorpay_ai_revenue_reco.Base.{
  String, ◌≡◌, ◌≤◌, ◌<◌, refl, Bool, true, false, Option, none, some, str_eq, arith, eq_iff, ◌∙◌,
  sym, ap, subst, ◌⊎◌, inl, inr,
}
use razorpay_ai_revenue_reco.Base.Tests.{if◌then◌else◌}
use razorpay_ai_revenue_reco.Base.Clock.{Time}
use razorpay_ai_revenue_reco.Domain.States.{CaseState, can_transition}
use razorpay_ai_revenue_reco.Domain.Entities.{RecoveryCase}
use razorpay_ai_revenue_reco.Domain.Lifecycle.{Course, no_move, allowed_move, Course-trans}
use razorpay_ai_revenue_reco.Store.Tables.{
  Database, StoreError, Tx, Result, ok, err, ◌>>=◌, ◌>>◌, pure, demand, lock_case, lock_row,
  put_case, update_case, update_case_if, move, on_ok, or_missing, or_no_rows, updated, updated_if,
  conflict,
}

-- The later row of a case: its state lies on the course from the first, and it is the same or the version is higher.
pub record Moves (c d : RecoveryCase) : Type 0 where
  pub reached : Course c.current_state d.current_state
  pub version_kept : c.version ≤ d.version
  pub same_or_newer : (c.current_state ≡ d.current_state) ⊎ (c.version < d.version)

pub Moves-refl : (c : RecoveryCase) → Moves c c
Moves-refl c = record { reached = no_move; version_kept = omega arith; same_or_newer = inl refl }

pub Moves-trans : {c d e : RecoveryCase} → Moves c d → Moves d e → Moves c e
Moves-trans {c = c} {d = d} {e = e} p q = record {
  reached = Course-trans p.reached q.reached;
  version_kept = ground arith;
  same_or_newer = join p.same_or_newer q.same_or_newer;
}
  where
    join :
        (c.current_state ≡ d.current_state) ⊎ (c.version < d.version)
        → (d.current_state ≡ e.current_state) ⊎ (d.version < e.version)
        → (c.current_state ≡ e.current_state) ⊎ (c.version < e.version)
    join (inl f) (inl g) = inl (f ∙ g)
    join (inl f) (inr g) = inr (omega (arith, p.version_kept))
    join (inr f) g = inr (omega (arith, q.version_kept))

-- Rows with the same version have the same state.
pub Moves-same :
    {c d : RecoveryCase} → Moves c d → d.version ≡ c.version → c.current_state ≡ d.current_state
Moves-same {c = c} {d = d} m v = go m.same_or_newer
  where
    go :
        (c.current_state ≡ d.current_state) ⊎ (c.version < d.version)
        → c.current_state ≡ d.current_state
    go (inl e) = e
    go (inr l) = absurd (omega arith)

-- Every case is still there, and has moved.
pub record Follows (db db' : Database) : Type 0 where
  pub moved :
      (id : String) (c : RecoveryCase)
      → db.cases id ≡ some c
      → (d : RecoveryCase) × (db'.cases id ≡ some d) × Moves c d

pub Follows-refl : (db : Database) → Follows db db
Follows-refl db = record { moved = λ id c h. (c, h, Moves-refl c) }

pub Follows-trans : {db db' db'' : Database} → Follows db db' → Follows db' db'' → Follows db db''
Follows-trans p q = record {
  moved = λ id c h.
      let (d, hd, m) = p.moved id c h in
      let (e, he, n) = q.moved id d hd in (e, he, Moves-trans m n);
}

-- Only the cases count.
pub Follows-same :
    (db db' db'' : Database) → db'.cases ≡ db.cases → Follows db' db'' → Follows db db''
Follows-same db db' db'' e p = record { moved = λ id c h. p.moved id c (ap (λ t. t id) e ∙ h) }

put_result :
    (db : Database) (id j : String) (c d e : RecoveryCase)
    → db.cases id ≡ some c
    → Moves c d
    → db.cases j ≡ some e
    → (b : Bool) → str_eq j id ≡ b
    → (x : RecoveryCase) × ((if b then some d else db.cases j) ≡ some x) × Moves e x
put_result db id j c d e h m g true q =
    (d, refl, subst (λ y. Moves y d) (ground (arith, eq_iff j id)) m)
put_result db id j c d e h m g false q = (e, g, Moves-refl e)

pub put_case-Follows :
    (db : Database) (id : String) (c d : RecoveryCase)
    → db.cases id ≡ some c
    → Moves c d
    → Follows db (record db { cases = λ j. if str_eq j id then some d else db.cases j })
put_case-Follows db id c d h m = record {
  moved = λ j e g. put_result db id j c d e h m g (str_eq j id) refl;
}

abbrev pub Keeps : {A : Type 0} → Tx A → Type 0
Keeps {A} m = (db : Database) (a : A) (db' : Database) → m db ≡ ok (a, db') → Follows db db'

abbrev pub Quiet : {A : Type 0} → Tx A → Type 0
Quiet {A} m = (db : Database) (a : A) (db' : Database) → m db ≡ ok (a, db') → db'.cases ≡ db.cases

-- The same, for a transaction that starts when the row of the case is known.
abbrev pub KeepsAt : {A : Type 0} → String → RecoveryCase → Tx A → Type 0
KeepsAt {A} id c m =
    (db : Database) (a : A) (db' : Database)
    → db.cases id ≡ some c
    → m db ≡ ok (a, db')
    → Follows db db'

pub on_ok-inv :
    {A B : Type 0} (f : A → Tx B) (r : Result (A × Database)) (b : B) (db : Database)
    → on_ok f r ≡ ok (b, db)
    → (a : A) × (db' : Database) × (r ≡ ok (a, db')) × (f a db' ≡ ok (b, db))
on_ok-inv f (ok (a, db')) b db h = (a, db', refl, h)
on_ok-inv f (err e) b db h = cc h

module _ {A B : Type 0} (m : Tx A) (f : A → Tx B) where
  pub bind-Keeps : Keeps m → ((a : A) → Keeps (f a)) → Keeps (m >>= f)
  bind-Keeps p q db b db'' h =
      let (a, db', e, g) = on_ok-inv f (m db) b db'' h in
      Follows-trans (p db a db' e) (q a db' b db'' g)

  pub bind-Quiet : Quiet m → ((a : A) → Quiet (f a)) → Quiet (m >>= f)
  bind-Quiet p q db b db'' h =
      let (a, db', e, g) = on_ok-inv f (m db) b db'' h in q a db' b db'' g ∙ p db a db' e

  pub bind-KeepsAt :
      (id : String) (c : RecoveryCase)
      → Quiet m
      → ((a : A) → KeepsAt id c (f a))
      → KeepsAt id c (m >>= f)
  bind-KeepsAt id c p q db b db'' k h =
      let (a, db', e, g) = on_ok-inv f (m db) b db'' h in
      let same = p db a db' e in
      Follows-same db db' db'' same (q a db' b db'' (ap (λ t. t id) same ∙ k) g)

pub Quiet-Keeps : {A : Type 0} (m : Tx A) → Quiet m → Keeps m
Quiet-Keeps m q db a db' h = Follows-same db db' db' (q db a db' h) (Follows-refl db')

pub demand-Quiet : (b : Bool) (e : StoreError) → Quiet (demand b e)
demand-Quiet true e db a db' h = cc h
demand-Quiet false e db a db' h = cc h

pub move-Moves :
    (c : RecoveryCase) (to : CaseState) (now : Time)
    → can_transition c.current_state to ≡ true
    → Moves c (move to now c)
unfolding move
move-Moves c to now h = record {
  reached = allowed_move h no_move;
  version_kept = omega arith;
  same_or_newer = inr (omega arith);
}

module _ {B : Type 0} (id : String) (k : RecoveryCase → Tx B) where
  pub lock_case-Keeps : ((c : RecoveryCase) → KeepsAt id c (k c)) → Keeps (lock_case id >>= k)
  lock_case-Keeps p db b db' h = go (db.cases id) refl h
    where
      go :
          (r : Option RecoveryCase)
          → db.cases id ≡ r
          → on_ok k (or_missing r db) ≡ ok (b, db')
          → Follows db db'
      go none e g = cc g
      go (some c) e g = p c db b db' e g

  pub lock_row-Keeps : ((c : RecoveryCase) → KeepsAt id c (k c)) → Keeps (lock_row id >>= k)
  unfolding lock_row
  lock_row-Keeps p db b db' h = go (db.cases id) refl h
    where
      go :
          (r : Option RecoveryCase)
          → db.cases id ≡ r
          → on_ok k (or_no_rows r db) ≡ ok (b, db')
          → Follows db db'
      go none e g = cc g
      go (some c) e g = p c db b db' e g

module _ {B : Type 0} (id : String) (c : RecoveryCase) (f : RecoveryCase → RecoveryCase)
    (k : Tx B) where
  put_then :
      (db : Database) (b : B) (db' : Database)
      → db.cases id ≡ some c
      → Moves c (f c)
      → KeepsAt id (f c) k
      → k (record db { cases = λ j. if str_eq j id then some (f c) else db.cases j }) ≡ ok (b, db')
      → Follows db db'
  put_then db b db' e m q h =
      Follows-trans (put_case-Follows db id c (f c) e m)
        (q _ b db' (ground (arith, eq_iff id id)) h)

  pub update_case-KeepsAt :
      Moves c (f c) → KeepsAt id (f c) k → KeepsAt id c (update_case id f >> k)
  unfolding update_case
  update_case-KeepsAt m q db b db' e h =
      put_then db b db' e m q (ap (λ r. on_ok (λ u. k) (updated id f r db)) (sym e) ∙ h)

  pub update_case_if-KeepsAt :
      (p : RecoveryCase → Bool)
      → (p c ≡ true → Moves c (f c))
      → (p c ≡ true → KeepsAt id (f c) k)
      → KeepsAt id c (update_case_if id p f >> k)
  unfolding update_case_if
  update_case_if-KeepsAt p m q db b db' e h =
      go (p c) refl (ap (λ r. on_ok (λ u. k) (updated_if id p f r db)) (sym e) ∙ h)
    where
      go :
          (t : Bool)
          → p c ≡ t
          → on_ok (λ u. k) (if t then put_case id (f c) db else err conflict) ≡ ok (b, db')
          → Follows db db'
      go true e1 g = put_then db b db' e (m e1) (q e1) g
      go false e1 g = cc g

pub update_case_if-Keeps :
    {B : Type 0} (id : String) (p : RecoveryCase → Bool) (f : RecoveryCase → RecoveryCase)
    (k : Tx B)
    → ((c : RecoveryCase) → p c ≡ true → Moves c (f c))
    → Keeps k
    → Keeps (update_case_if id p f >> k)
unfolding update_case_if
update_case_if-Keeps id p f k m q db b db' h = go (db.cases id) refl h
  where
    go :
        (r : Option RecoveryCase)
        → db.cases id ≡ r
        → on_ok (λ u. k) (updated_if id p f r db) ≡ ok (b, db')
        → Follows db db'
    go none e g = cc g
    go (some c) e g =
        update_case_if-KeepsAt id c f k p (m c) (λ t db1 b1 db2 e1 h1. q db1 b1 db2 h1) db b db' e
          (ap (λ r. on_ok (λ u. k) (updated_if id p f r db)) e ∙ g)

module _ {B : Type 0} (m : Tx (Unit {0})) (k : Tx B) where
  -- First a write to another table.
  pub pass : Quiet m → Keeps k → Keeps (m >> k)
  pass q p = bind-Keeps m (λ a. k) (Quiet-Keeps m q) (λ a. p)

  pub pass_at : (id : String) (c : RecoveryCase) → Quiet m → KeepsAt id c k → KeepsAt id c (m >> k)
  pass_at id c q p = bind-KeepsAt m (λ a. k) id c q (λ a. p)

pub at_then_Keeps :
    {A B : Type 0} (m : Tx A) (f : A → Tx B) (id : String) (c : RecoveryCase)
    → KeepsAt id c m
    → ((a : A) → Keeps (f a))
    → KeepsAt id c (m >>= f)
at_then_Keeps m f id c p q db b db'' k h =
    let (a, db', e, g) = on_ok-inv f (m db) b db'' h in
    Follows-trans (p db a db' k e) (q a db' b db'' g)

pub update_case-last :
    (id : String) (c : RecoveryCase) (f : RecoveryCase → RecoveryCase)
    → Moves c (f c)
    → KeepsAt id c (update_case id f)
unfolding update_case
update_case-last id c f m db u db' e h =
    update_case-KeepsAt id c f (pure tt) m
      (λ db1 b db2 e1 h1. Quiet-Keeps (pure tt) (λ x y z w. cc w) db1 b db2 h1) db tt db' e
      (ap (on_ok (λ v. pure tt)) h)
