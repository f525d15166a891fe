-- ===== src/Store/Promises/Histories.antt =====
-- Histories of the transactions of backend/internal/store/promises.go.
use razorpay_ai_revenue_reco.Base.{ℕ, ◌≤◌, String, ◌≡◌, Bool, false, Option, some, sym, subst}
use razorpay_ai_revenue_reco.Base.Clock.{Time}
use razorpay_ai_revenue_reco.Domain.Entities.{Float64, PromiseToPay, PromiseStatus, is_active}
use razorpay_ai_revenue_reco.Store.Tables.{Database, ok}
use razorpay_ai_revenue_reco.Store.Promises
use razorpay_ai_revenue_reco.Store.Promises.{find_promise}
use razorpay_ai_revenue_reco.Store.Promises.Outcomes
use razorpay_ai_revenue_reco.Store.Promises.Endings.{
  Evolves, unchanged, Evolved, start_of, step_of, Evolved-ended, Evolved-active_count, active_count,
}
use razorpay_ai_revenue_reco.Store.Promises.Table.{table}
use razorpay_ai_revenue_reco.Store.Promises.Writes.{
  cancel_promise-Evolves, resolve_promise-Evolves, resolve_for_demo-Evolves, create_promise-Evolves,
}

-- A transaction on promises, or one that leaves their table as it is.
pub data PromiseCommits (db db' : Database) : Type 0 where
  made :
      (p : PromiseToPay) (check_id correlation : String) (r : PromiseToPay × Bool)
      → Promises.create_promise p check_id correlation db ≡ ok (r, db')
      → PromiseCommits db db'
  resolved :
      (ratio : ℕ → ℕ → Float64) (correlation id : String) (forced : Option PromiseStatus)
      (now : Time) (r : PromiseToPay)
      → Outcomes.resolve_promise ratio correlation id forced now db ≡ ok (r, db')
      → PromiseCommits db db'
  resolved_for_demo :
      (ratio : ℕ → ℕ → Float64) (correlation id : String) (outcome : PromiseStatus) (now : Time)
      (r : PromiseToPay)
      → Outcomes.resolve_for_demo ratio correlation id outcome now db ≡ ok (r, db')
      → PromiseCommits db db'
  withdrawn :
      (id correlation : String) (now : Time) (r : PromiseToPay)
      → Outcomes.cancel_promise id correlation now db ≡ ok (r, db')
      → PromiseCommits db db'
  elsewhere : db'.promises ≡ db.promises → PromiseCommits db db'

PromiseCommits-Evolves :
    {db db' : Database} → PromiseCommits db db' → Evolves (table db) (table db')
PromiseCommits-Evolves {db = db} {db' = db'} (made p check_id correlation r h) =
    create_promise-Evolves p check_id correlation db r db' h
PromiseCommits-Evolves {db = db} {db' = db'} (resolved ratio correlation id forced now r h) =
    resolve_promise-Evolves ratio correlation id now forced db r db' h
PromiseCommits-Evolves {db = db} {db' = db'}
      (resolved_for_demo ratio correlation id outcome now r h) =
    resolve_for_demo-Evolves ratio correlation id now outcome db r db' h
PromiseCommits-Evolves {db = db} {db' = db'} (withdrawn id correlation now r h) =
    cancel_promise-Evolves id correlation now db r db' h
PromiseCommits-Evolves {db = db} (elsewhere same) = subst (Evolves (table db)) (sym same) unchanged

pub data PromiseRun (db : Database) : Database → Type 0 where
  no_promise_step : PromiseRun db db
  promise_step :
      {db1 db2 : Database} → PromiseRun db db1 → PromiseCommits db1 db2 → PromiseRun db db2

PromiseRun-Evolved : {db db' : Database} → PromiseRun db db' → Evolved (table db) (table db')
PromiseRun-Evolved no_promise_step = start_of
PromiseRun-Evolved (promise_step r s) = step_of (PromiseRun-Evolved r) (PromiseCommits-Evolves s)

-- Over any history of creations, resolutions and cancellations, and of transactions that leave the
-- promises alone, a promise that is no longer active stays as it is in every column.
pub PromiseRun-keeps_ended :
    {db db' : Database}
    → PromiseRun db db'
    → (id : String) (p : PromiseToPay) → find_promise id db.promises ≡ some p
    → is_active p.status ≡ false
    → find_promise id db'.promises ≡ some p
PromiseRun-keeps_ended r id p h e = Evolved-ended (PromiseRun-Evolved r) id p h e

-- Over any history of creations, resolutions and cancellations, and of transactions that leave the
-- promises alone, a case that had at most one active promise has at most one.
pub PromiseRun-one_active :
    {db db' : Database}
    → PromiseRun db db'
    → (case_id : String) → active_count case_id db.promises ≤ 1
    → active_count case_id db'.promises ≤ 1
PromiseRun-one_active r case_id h = Evolved-active_count (PromiseRun-Evolved r) case_id h
