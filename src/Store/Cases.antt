-- ===== src/Store/Cases.antt =====
-- The lifecycle writes of backend/internal/store/postgres.go.
use razorpay_ai_revenue_reco.Base.{ℕ, String, Option, none, some, List, [], ◌∷◌}
use razorpay_ai_revenue_reco.Base.Tests.{◌==◌, if◌then◌else◌}
use razorpay_ai_revenue_reco.Domain.States.{CaseState}
use razorpay_ai_revenue_reco.Domain.Entities.{RecoveryCase}
use razorpay_ai_revenue_reco.Store.Tables.{
  conflict, Tx, ◌>>=◌, ◌>>◌, pure, lock_case, put_case, move, Draft, record_events, or_missing, ok,
  err, duplicate_key, insert_events,
}

-- `GetCase`.
unfoldable pub get_case : String → Tx RecoveryCase
get_case id db = or_missing (db.cases id) db

-- The row of `UPDATE … WHERE id=$3 AND version=$4 RETURNING …`.
abbrev pub at_version : ℕ → Option RecoveryCase → Tx RecoveryCase
at_version v none db = err conflict
at_version v (some c) db = if c.version == v then ok (c, db) else err conflict

unfoldable pub transition_case : String → ℕ → CaseState → Draft → Tx RecoveryCase
transition_case id expected_version to event =
    (λ db. at_version expected_version (db.cases id) db) >>= λ c.
    put_case id (move to event.occurred_at c)
    >> record_events id (event ∷ [])
    >> pure (move to event.occurred_at c)

unfoldable pub append_event : String → Draft → Tx (Unit {0})
append_event id event = lock_case id >>= λ c. record_events id (event ∷ [])

abbrev pub insert_case : RecoveryCase → List Draft → Option RecoveryCase → Tx (Unit {0})
insert_case c events none db =
    put_case c.id c (record db { events = insert_events c.id 1 events db.events })
insert_case c events (some old) db = err duplicate_key

-- `CreateCase`; the other constraints of the tables are not modelled.
unfoldable pub create_case : RecoveryCase → List Draft → Tx (Unit {0})
create_case c events db = insert_case c events (db.cases c.id) db
