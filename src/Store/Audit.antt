-- ===== src/Store/Audit.antt =====
-- The audit log of a case: `nextSequence` and `insertEvent` of backend/internal/store/postgres.go.
use razorpay_ai_revenue_reco.Base.{ℕ, zero, suc, String, ◌≡◌, List, [], ◌∷◌, str_eq}
use razorpay_ai_revenue_reco.Base.Tests.{if◌then◌else◌}
use razorpay_ai_revenue_reco.Store.Tables.{Database, Result, ok, err, EventRow, last_sequence}

-- The sequence numbers of a case, newest first: `ListEvents` backwards.
unfoldable pub sequences : String → List EventRow → List ℕ
sequences id [] = []
sequences id (e ∷ es) =
    let rest = sequences id es in if str_eq e.case_id id then e.sequence ∷ rest else rest

unfoldable pub countdown : ℕ → List ℕ
countdown zero = []
countdown (suc n) = suc n ∷ countdown n

-- The numbers run from the last one down to 1, each once.
abbrev pub IsGapless : String → List EventRow → Type 0
IsGapless id es = sequences id es ≡ countdown (last_sequence id es)

events_of : Result (Unit {0} × Database) → List EventRow
events_of (ok (u, db')) = db'.events
events_of (err x) = []
