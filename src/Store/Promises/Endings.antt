-- ===== src/Store/Promises/Endings.antt =====
-- The table of promises under the transactions of backend/internal/store/promises.go.
use razorpay_ai_revenue_reco.Base.{
  ℕ, suc, ◌≤◌, String, ◌≡◌, refl, true, false, some, List, [], ◌∷◌, subst, ◌∙◌, inl, inr, arith,
  eq_iff, str_eq,
}
use razorpay_ai_revenue_reco.Base.Tests.{Bool-cases}
use razorpay_ai_revenue_reco.Base.Lists.{any, length, keep}
use razorpay_ai_revenue_reco.Base.Clock.{Time}
use razorpay_ai_revenue_reco.Domain.Entities.{PromiseToPay, PromiseStatus, is_active}
use razorpay_ai_revenue_reco.Store.Promises.{find_promise, has_promise_id, is_open, is_free}
use razorpay_ai_revenue_reco.Store.Promises.Outcomes.{update_promises, resolve}

-- One step of the table: a row is inserted, or an active one ends.
pub data Evolves (ps : List PromiseToPay) : List PromiseToPay → Type 0 where
  unchanged : Evolves ps ps
  inserted : (p : PromiseToPay) → is_free p ps ≡ true → Evolves ps (p ∷ ps)
  ended :
      (p : PromiseToPay) (target : PromiseStatus) (now : Time) (ref : String)
      → find_promise p.id ps ≡ some p
      → is_active p.status ≡ true
      → is_active target ≡ false
      → Evolves ps (update_promises p.id (resolve target now ref) ps)

pub find_promise-id :
    (id : String) (p : PromiseToPay) (ps : List PromiseToPay)
    → find_promise id ps ≡ some p
    → p.id ≡ id
unfolding find_promise
find_promise-id id p [] h = cc h
find_promise-id id p (q ∷ qs) h = elim (Bool-cases (str_eq q.id id)) [
  | inl e ↦ (let same : q.id ≡ id = ground (arith, eq_iff q.id id) in ground arith)
  | inr e ↦ find_promise-id id p qs (ground arith)
]

find_promise-any :
    (id : String) (p : PromiseToPay) (ps : List PromiseToPay)
    → find_promise id ps ≡ some p
    → any (has_promise_id id) ps ≡ true
unfolding find_promise
find_promise-any id p [] h = cc h
find_promise-any id p (q ∷ qs) h = elim (Bool-cases (str_eq q.id id)) [
  | inl e ↦ ground arith
  | inr e ↦ (let rest = find_promise-any id p qs (ground arith) in ground arith)
]

resolve-id :
    (target : PromiseStatus) (now : Time) (ref : String) (p : PromiseToPay)
    → (resolve target now ref p).id ≡ p.id
unfolding resolve
resolve-id target now ref p = ground arith

find_promise-update :
    (id j : String) (target : PromiseStatus) (now : Time) (ref : String) (ps : List PromiseToPay)
    → str_eq j id ≡ false
    → find_promise id (update_promises j (resolve target now ref) ps) ≡ find_promise id ps
unfolding find_promise update_promises
find_promise-update id j target now ref [] h = refl
find_promise-update id j target now ref (q ∷ qs) h = elim (Bool-cases (str_eq q.id j)) [
  | inl e ↦
      (let same : q.id ≡ j = ground (arith, eq_iff q.id j) in
        ground (arith, resolve-id target now ref q, find_promise-update id j target now ref qs h))
  | inr e ↦ ground (arith, find_promise-update id j target now ref qs h)
]

pub Evolves-ended :
    {ps qs : List PromiseToPay}
    → Evolves ps qs
    → (id : String) (p : PromiseToPay) → find_promise id ps ≡ some p
    → is_active p.status ≡ false
    → find_promise id qs ≡ some p
unfolding find_promise is_free
Evolves-ended unchanged id p h e = h
Evolves-ended {ps = ps} (inserted q free) id p h e = elim (Bool-cases (str_eq q.id id)) [
  | inl s ↦
      (let same : q.id ≡ id = ground (arith, eq_iff q.id id) in
        let taken = find_promise-any id p ps h in ground arith)
  | inr s ↦ ground arith
]
Evolves-ended {ps = ps} (ended q target now ref found was_active off) id p h e =
    elim (Bool-cases (str_eq q.id id)) [
      | inl s ↦ (let same : q.id ≡ id = ground (arith, eq_iff q.id id) in ground arith)
      | inr s ↦ find_promise-update id q.id target now ref ps s ∙ h
    ]

-- The active promises of a case.
unfoldable pub active_count : String → List PromiseToPay → ℕ
active_count case_id ps = length (keep (is_open case_id) ps)

active_count-none :
    (case_id : String) (ps : List PromiseToPay)
    → any (is_open case_id) ps ≡ false
    → active_count case_id ps ≡ 0
unfolding active_count
active_count-none case_id [] h = refl
active_count-none case_id (p ∷ ps) h = ground (arith, active_count-none case_id ps)

resolve-closed :
    (case_id : String) (target : PromiseStatus) (now : Time) (ref : String) (p : PromiseToPay)
    → is_active target ≡ false
    → is_open case_id (resolve target now ref p) ≡ false
unfolding resolve is_open is_active
resolve-closed case_id target now ref p h = ground arith

active_count-update :
    (case_id id : String) (target : PromiseStatus) (now : Time) (ref : String)
    (ps : List PromiseToPay)
    → is_active target ≡ false
    → active_count case_id (update_promises id (resolve target now ref) ps)
      ≤ active_count case_id ps
unfolding active_count update_promises
active_count-update case_id id target now ref [] h = omega arith
active_count-update case_id id target now ref (p ∷ ps) h = ground (
  arith,
  resolve-closed case_id target now ref p h,
  active_count-update case_id id target now ref ps h,
)

other_case :
    (case_id : String) (q : PromiseToPay)
    → str_eq q.case_id case_id ≡ false
    → is_open case_id q ≡ false
unfolding is_open
other_case case_id q h = ground arith

none_open :
    (q : PromiseToPay) (ps : List PromiseToPay)
    → is_free q ps ≡ true
    → any (is_open q.case_id) ps ≡ false
unfolding is_free
none_open q ps h = ground arith

active_count-cons :
    (case_id : String) (q : PromiseToPay) (ps : List PromiseToPay)
    → active_count case_id (q ∷ ps) ≤ suc (active_count case_id ps)
unfolding active_count
active_count-cons case_id q ps = ground arith

active_count-skip :
    (case_id : String) (q : PromiseToPay) (ps : List PromiseToPay)
    → is_open case_id q ≡ false
    → active_count case_id (q ∷ ps) ≡ active_count case_id ps
unfolding active_count
active_count-skip case_id q ps h = ground arith

pub Evolves-active_count :
    {ps qs : List PromiseToPay}
    → Evolves ps qs
    → (case_id : String) → active_count case_id ps ≤ 1
    → active_count case_id qs ≤ 1
Evolves-active_count unchanged case_id h = h
Evolves-active_count {ps = ps} (inserted q free) case_id h =
    elim (Bool-cases (str_eq q.case_id case_id)) [
      | inl s ↦
          (let same : q.case_id ≡ case_id = ground (arith, eq_iff q.case_id case_id) in
            let zero_of =
              active_count-none case_id ps
                (subst (λ c. any (is_open c) ps ≡ false) same (none_open q ps free)) in
            omega (arith, active_count-cons case_id q ps, zero_of))
      | inr s ↦ omega (arith, active_count-skip case_id q ps (other_case case_id q s), h)
    ]
Evolves-active_count {ps = ps} (ended q target now ref found was_active off) case_id h =
    omega (arith, active_count-update case_id q.id target now ref ps off)

-- Several steps.
pub data Evolved (ps : List PromiseToPay) : List PromiseToPay → Type 0 where
  start_of : Evolved ps ps
  step_of : {qs rs : List PromiseToPay} → Evolved ps qs → Evolves qs rs → Evolved ps rs

pub Evolved-ended :
    {ps qs : List PromiseToPay}
    → Evolved ps qs
    → (id : String) (p : PromiseToPay) → find_promise id ps ≡ some p
    → is_active p.status ≡ false
    → find_promise id qs ≡ some p
Evolved-ended start_of id p h e = h
Evolved-ended (step_of r s) id p h e = Evolves-ended s id p (Evolved-ended r id p h e) e

pub Evolved-active_count :
    {ps qs : List PromiseToPay}
    → Evolved ps qs
    → (case_id : String) → active_count case_id ps ≤ 1
    → active_count case_id qs ≤ 1
Evolved-active_count start_of case_id h = h
Evolved-active_count (step_of r s) case_id h =
    Evolves-active_count s case_id (Evolved-active_count r case_id h)
