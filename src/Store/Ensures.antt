-- ===== src/Store/Ensures.antt =====
-- What holds of the result and the database of every transaction that commits.
use razorpay_ai_revenue_reco.Base.{
  String, ◌≡◌, refl, Bool, true, false, Option, none, some, ap, sym, ◌∙◌, str_eq, eq_iff, arith,
}
use razorpay_ai_revenue_reco.Base.Tests.{if◌then◌else◌}
use razorpay_ai_revenue_reco.Domain.Entities.{RecoveryCase}
use razorpay_ai_revenue_reco.Store.Tables.{
  Database, Result, StoreError, Tx, ok, err, ◌>>=◌, ◌>>◌, demand, lock_case, lock_row, on_ok,
  or_missing, or_no_rows, update_case, updated, update_case_if, updated_if, put_case, conflict,
}
use razorpay_ai_revenue_reco.Store.Lifecycle.{on_ok-inv}

abbrev pub Ensures : {A : Type 0} → (A → Database → Type 0) → Tx A → Type 0
Ensures {A} P m = (db : Database) (a : A) (db' : Database) → m db ≡ ok (a, db') → P a db'

pub ok-inj :
    {A : Type 0} {a b : A} {d e : Database}
    → ◌≡◌ {A = Result (A × Database)} (ok (a, d)) (ok (b, e))
    → (a ≡ b) × (d ≡ e)
ok-inj h = (cc h, cc h)

module _ {A B : Type 0} (P : B → Database → Type 0) (m : Tx A) (f : A → Tx B) where
  pub bind-Ensures : ((a : A) → Ensures P (f a)) → Ensures P (m >>= f)
  bind-Ensures q db b db'' h = let (a, db', e, g) = on_ok-inv f (m db) b db'' h in q a db' b db'' g

module _ {B : Type 0} (P : B → Database → Type 0) (m : Tx B) where
  pub demand-Ensures :
      (b : Bool) (e : StoreError) → (b ≡ true → Ensures P m) → Ensures P (demand b e >> m)
  demand-Ensures true e q db a db' h = q refl db a db' h
  demand-Ensures false e q db a db' h = cc h

module _ {B : Type 0} (id : String) (k : RecoveryCase → Tx B) where
  pub lock_row-inv :
      (db : Database) (b : B) (db' : Database)
      → (lock_row id >>= k) db ≡ ok (b, db')
      → (c : RecoveryCase) × (db.cases id ≡ some c) × (k c db ≡ ok (b, db'))
  unfolding lock_row
  lock_row-inv db b db' h = go (db.cases id) refl h
    where
      go :
          (r : Option RecoveryCase)
          → db.cases id ≡ r
          → on_ok k (or_no_rows r db) ≡ ok (b, db')
          → (c : RecoveryCase) × (db.cases id ≡ some c) × (k c db ≡ ok (b, db'))
      go none e g = cc g
      go (some c) e g = (c, e, g)

  pub lock_case-inv :
      (db : Database) (b : B) (db' : Database)
      → (lock_case id >>= k) db ≡ ok (b, db')
      → (c : RecoveryCase) × (db.cases id ≡ some c) × (k c db ≡ ok (b, db'))
  lock_case-inv db b db' h = go (db.cases id) refl h
    where
      go :
          (r : Option RecoveryCase)
          → db.cases id ≡ r
          → on_ok k (or_missing r db) ≡ ok (b, db')
          → (c : RecoveryCase) × (db.cases id ≡ some c) × (k c db ≡ ok (b, db'))
      go none e g = cc g
      go (some c) e g = (c, e, g)

module _ {B : Type 0} (id : String) (c : RecoveryCase) (p : RecoveryCase → Bool)
    (f : RecoveryCase → RecoveryCase) (k : Tx B) where
  pub update_case_if-inv :
      (db : Database) (b : B) (db' : Database)
      → db.cases id ≡ some c
      → (update_case_if id p f >> k) db ≡ ok (b, db')
      → (db1 : Database) × (db1.cases id ≡ some (f c)) × (k db1 ≡ ok (b, db'))
  unfolding update_case_if
  update_case_if-inv db b db' e h =
      go (p c) (ap (λ r. on_ok (λ u. k) (updated_if id p f r db)) (sym e) ∙ h)
    where
      go :
          (t : Bool)
          → on_ok (λ u. k) (if t then put_case id (f c) db else err conflict) ≡ ok (b, db')
          → (db1 : Database) × (db1.cases id ≡ some (f c)) × (k db1 ≡ ok (b, db'))
      go true g = (
        record db { cases = λ j. if str_eq j id then some (f c) else db.cases j },
        ground (arith, eq_iff id id),
        g,
      )
      go false g = cc g

-- A transaction that leaves a part of the database alone.
abbrev pub Preserves : {A T : Type 0} → (Database → T) → Tx A → Type 0
Preserves {A} part m =
    (db : Database) (a : A) (db' : Database) → m db ≡ ok (a, db') → part db' ≡ part db

pub bind-Preserves :
    {A B T : Type 0} (part : Database → T) (m : Tx A) (f : A → Tx B)
    → Preserves part m
    → ((a : A) → Preserves part (f a))
    → Preserves part (m >>= f)
bind-Preserves part m f p q db b db'' h =
    let (a, db', e, g) = on_ok-inv f (m db) b db'' h in q a db' b db'' g ∙ p db a db' e

pub demand-same :
    (b : Bool) (e : StoreError) (db : Database) (u : Unit {0}) (db' : Database)
    → demand b e db ≡ ok (u, db')
    → (b ≡ true) × (db' ≡ db)
demand-same true e db u db' h = (refl, cc h)
demand-same false e db u db' h = cc h

module _ {B : Type 0} (id : String) (c : RecoveryCase) (f : RecoveryCase → RecoveryCase)
    (k : Tx B) where
  pub update_case-inv :
      (db : Database) (b : B) (db' : Database)
      → db.cases id ≡ some c
      → (update_case id f >> k) db ≡ ok (b, db')
      → (db1 : Database) × (db1.cases id ≡ some (f c)) × (k db1 ≡ ok (b, db'))
  unfolding update_case
  update_case-inv db b db' e h = (
    record db { cases = λ j. if str_eq j id then some (f c) else db.cases j },
    ground (arith, eq_iff id id),
    ap (λ r. on_ok (λ u. k) (updated id f r db)) (sym e) ∙ h,
  )
