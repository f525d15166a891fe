-- ===== src/Store/Promises/Table.antt =====
-- What the statements of backend/internal/store/promises.go write to the table of promises.
use razorpay_ai_revenue_reco.Base.{
  ℕ, String, ◌≡◌, refl, Bool, true, false, not, Option, none, some, List, [], ◌∷◌, sym, ap, subst,
  ◌∙◌, arith,
}
use razorpay_ai_revenue_reco.Base.Clock.{Time}
use razorpay_ai_revenue_reco.Domain.Entities.{
  Float64, RecoveryCase, PromiseToPay, PromiseStatus, is_active,
}
use razorpay_ai_revenue_reco.Store.Rows.{PromiseCheck, PromiseEvent}
use razorpay_ai_revenue_reco.Store.Tables.{
  Database, StoreError, Tx, ok, on_ok, ◌>>=◌, ◌>>◌, pure, demand, update_case, updated, Draft,
  record_events, conflict, invalid_promise_transition, duplicate_key,
}
use razorpay_ai_revenue_reco.Store.Lifecycle.{on_ok-inv}
use razorpay_ai_revenue_reco.Store.Ensures.{Preserves, bind-Preserves, demand-same, ok-inj}
use razorpay_ai_revenue_reco.Store.Promises
use razorpay_ai_revenue_reco.Store.Promises.{find_promise}
use razorpay_ai_revenue_reco.Store.Promises.Outcomes
use razorpay_ai_revenue_reco.Store.Promises.Endings.{find_promise-id}

abbrev pub table : Database → List PromiseToPay
table db = db.promises

abbrev pub KeepsTable : {A : Type 0} → Tx A → Type 0
KeepsTable m = Preserves table m

pub demand-KeepsTable : (b : Bool) (e : StoreError) → KeepsTable (demand b e)
demand-KeepsTable b e db u db' h = ap table (demand-same b e db u db' h).1

pub insert_event-KeepsTable : (e : PromiseEvent) → KeepsTable (Promises.insert_promise_event e)
unfolding Promises.insert_promise_event
insert_event-KeepsTable e db u db' h =
    bind-Preserves table (demand _ duplicate_key) (λ x. Promises.insert_event_row e)
      (demand-KeepsTable _ duplicate_key) (λ x db1 a db2 g. cc g) db u db' h

pub insert_check-KeepsTable : (c : PromiseCheck) → KeepsTable (Promises.insert_check c)
unfolding Promises.insert_check
insert_check-KeepsTable c db u db' h =
    bind-Preserves table (demand _ duplicate_key) (λ x. Promises.insert_check_row c)
      (demand-KeepsTable _ duplicate_key) (λ x db1 a db2 g. cc g) db u db' h

update_case-KeepsTable :
    (id : String) (f : RecoveryCase → RecoveryCase) → KeepsTable (update_case id f)
unfolding update_case
update_case-KeepsTable id f db u db' h = go (db.cases id) h
  where
    go : (o : Option RecoveryCase) → updated id f o db ≡ ok (u, db') → table db' ≡ table db
    go none g = cc g
    go (some c) g = cc g

recorded-KeepsTable :
    {A : Type 0} (id : String) (ds : List Draft) (a : A)
    → KeepsTable (record_events id ds >> pure a)
recorded-KeepsTable id ds a db r db' h = let (x, y) = ok-inj h in ap table (sym y)

-- The transition writes one row, which was active.
pub transition-written :
    (p : PromiseToPay) (target : PromiseStatus) (reason correlation ref : String) (now : Time)
    (db : Database) (r : PromiseToPay) (db' : Database)
    → Outcomes.transition_promise_tx p target reason correlation ref now db ≡ ok (r, db')
    → (is_active p.status ≡ true)
      × (is_active target ≡ false)
      × (table db' ≡ Outcomes.update_promises p.id (Outcomes.resolve target now ref) (table db))
unfolding Outcomes.transition_promise_tx
transition-written p target reason correlation ref now db r db' h =
    let (u, db1, e1, h1) = on_ok-inv _ (demand (is_active p.status) conflict db) r db' h in
    let (a, same1) = demand-same (is_active p.status) conflict db u db1 e1 in
    let (v, db2, e2, h2) =
      on_ok-inv _ (demand (not (is_active target)) invalid_promise_transition db1) r db' h1 in
    let (b, same2) = demand-same (not (is_active target)) invalid_promise_transition db1 v db2 e2 in
    let kept =
      bind-Preserves table (Promises.insert_promise_event event) rest
        (insert_event-KeepsTable event) (λ x. recorded-KeepsTable p.case_id _ _) _ r db' h2 in
    (
      a,
      ground arith,
      kept
          ∙ ap
              (λ (d : Database).
                Outcomes.update_promises p.id (Outcomes.resolve target now ref) d.promises)
              (same2 ∙ same1),
    )
  where
    event : PromiseEvent
    event = Outcomes.change_event p target reason correlation now

    rest : Unit {0} → Tx PromiseToPay
    rest x =
        record_events p.case_id (Outcomes.change_draft target correlation now ∷ [])
        >> pure (Outcomes.resolve target now ref p)

pub lock_promise-inv :
    {B : Type 0} (id : String) (k : PromiseToPay → Tx B) (db : Database) (b : B) (db' : Database)
    → (Outcomes.lock_promise id >>= k) db ≡ ok (b, db')
    → (p : PromiseToPay) × (find_promise p.id (table db) ≡ some p) × (k p db ≡ ok (b, db'))
unfolding Outcomes.lock_promise Outcomes.or_no_promise
lock_promise-inv {B = B} id k db b db' h = go (find_promise id (table db)) refl h
  where
    go :
        (o : Option PromiseToPay)
        → find_promise id (table db) ≡ o
        → on_ok k (Outcomes.or_no_promise o db) ≡ ok (b, db')
        → (p : PromiseToPay) × (find_promise p.id (table db) ≡ some p) × (k p db ≡ ok (b, db'))
    go none e g = cc g
    go (some p) e g = (
      p,
      subst (λ i. find_promise i (table db) ≡ some p) (sym (find_promise-id id p (table db) e)) e,
      g,
    )

pub reopen-KeepsTable :
    (b : Bool) (id correlation : String) (now : Time)
    → KeepsTable (Outcomes.reopen b id correlation now)
unfolding Outcomes.reopen
reopen-KeepsTable true id correlation now =
    bind-Preserves table (update_case id _) _ (update_case-KeepsTable id _) (λ u.
      bind-Preserves table (update_case id _) (λ v. record_events id _)
        (update_case-KeepsTable id _) (λ v db a db' h. cc h))
reopen-KeepsTable false id correlation now = λ db u db' h. cc h

pub reliability_if-KeepsTable :
    (b : Bool) (ratio : ℕ → ℕ → Float64) (customer : String) (now : Time)
    → KeepsTable (Outcomes.reliability_if b ratio customer now)
unfolding Outcomes.reliability_if Outcomes.update_reliability
reliability_if-KeepsTable true ratio customer now db u db' h = cc h
reliability_if-KeepsTable false ratio customer now db u db' h = cc h

pub finish_checks-KeepsTable :
    (q : PromiseCheck → Bool) (f : PromiseCheck → PromiseCheck)
    → KeepsTable (Outcomes.finish_checks q f)
finish_checks-KeepsTable q f db u db' h = cc h

pub pure-KeepsTable : (r : PromiseToPay) → KeepsTable (pure r)
pure-KeepsTable r db q db' h = cc h
