-- ===== src/Recovery/Runs.antt =====
-- The histories of the database: the transactions of the store in any order, and the service's
-- transitions with whatever was committed between their read and their write.
use razorpay_ai_revenue_reco.Base.{String, ◌≡◌, true, some, sym}
use razorpay_ai_revenue_reco.Base.Clock.{Time}
use razorpay_ai_revenue_reco.Domain.States.{is_terminal, can_transition}
use razorpay_ai_revenue_reco.Domain.Entities.{RecoveryCase}
use razorpay_ai_revenue_reco.Domain.Lifecycle.{Course-of_terminal}
use razorpay_ai_revenue_reco.Store.Tables.{Database, move}
use razorpay_ai_revenue_reco.Store.Lifecycle.{Follows, Follows-refl, Follows-trans}
use razorpay_ai_revenue_reco.Recovery.{done, TransitionInput, transition}
use razorpay_ai_revenue_reco.Recovery.Interleaving.{transition-Follows, transition-after}
use razorpay_ai_revenue_reco.Recovery.Commits.{Commits, Commits-Follows}

pub data Run : Database → Database → Type 0 where
  no_step : {db : Database} → Run db db
  commit : {db db1 db2 : Database} → Run db db1 → Commits db1 db2 → Run db db2
  transitioned :
      {db db1 db2 : Database} (i : TransitionInput) (fresh : String) (now : Time) (id : String)
      (c : RecoveryCase) (db3 : Database)
      → Run db db1
      → Run db1 db2
      → transition i fresh now id db1 db2 ≡ done (c, db3)
      → Run db db3

pub Run-Follows : {db db' : Database} → Run db db' → Follows db db'
Run-Follows {db = db} no_step = Follows-refl db
Run-Follows (commit r s) = Follows-trans (Run-Follows r) (Commits-Follows s)
Run-Follows (transitioned {db1 = db1} {db2 = db2} i fresh now id c db3 r q h) =
    Follows-trans (Follows-trans (Run-Follows r) (Run-Follows q))
      (transition-Follows i fresh now id db1 db2 c db3 (Run-Follows q) h)

-- Over any history of the modelled transactions, attributions among them, a case that has ended stays
-- in the state in which it ended.
pub Run-keeps_terminal :
    {db db' : Database}
    → Run db db'
    → (id : String) (c : RecoveryCase) → db.cases id ≡ some c
    → is_terminal c.current_state ≡ true
    → (d : RecoveryCase) × (db'.cases id ≡ some d) × (d.current_state ≡ c.current_state)
Run-keeps_terminal r id c e t =
    let (d, hd, m) = (Run-Follows r).moved id c e in (d, hd, sym (Course-of_terminal t m.reached))

-- A transition of the service that succeeds finds the case in a state from which the table allows
-- the target, whatever history of the modelled transactions has been committed since the case was
-- read, and leaves it there with one version more.
pub transition-IsAllowed :
    (i : TransitionInput) (fresh : String) (now : Time) (id : String) (before db db' : Database)
    (c x : RecoveryCase)
    → Run before db
    → transition i fresh now id before db ≡ done (x, db')
    → db.cases id ≡ some c
    → (can_transition c.current_state i.to_state ≡ true)
      × (x ≡ move i.to_state now c)
      × (db'.cases id ≡ some x)
transition-IsAllowed i fresh now id before db db' c x r h k =
    transition-after i fresh now id before db db' c x (Run-Follows r) h k
