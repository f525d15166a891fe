-- ===== src/Operations/Queue.antt =====
-- The list of escalated cases: `List` of backend/internal/operations/service.go, without the age
-- that it adds for readers.
use razorpay_ai_revenue_reco.Base.{
  String, ◌≡◌, ◌≤◌, Bool, true, false, ◌&&◌, not, Option, none, some, List, Perm, str_eq, arith,
  inl, inr,
}
use razorpay_ai_revenue_reco.Base.Tests.{◌==◌, ltb, ltb_text, if◌then◌else◌, Bool-cases}
use razorpay_ai_revenue_reco.Base.Lists.{keep}
use razorpay_ai_revenue_reco.Base.Sort.{sort_by, sort_by-perm, sort_by-Ordered, Ordered}
use razorpay_ai_revenue_reco.Base.Int.{ℤ, pos, ltb_ℤ, eqb_ℤ, ◌≤ℤ◌}
use razorpay_ai_revenue_reco.Base.Clock.{Time, after}
use razorpay_ai_revenue_reco.Domain.Entities.{LeakType}
use razorpay_ai_revenue_reco.Operations.Approval.{QueueItem}

pub record Filter : Type 0 where
  pub category : String
  pub merchant_id : String
  pub status : String
  pub priority : String
  pub leak_type : String
  pub min_amount_minor : ℤ
  pub max_amount_minor : ℤ
  pub deadline_before : Option Time
  pub sort : String

unfoldable pub too_late : Option Time → Time → Bool
too_late none deadline = false
too_late (some t) deadline = after deadline t

-- `filter != "" && value != filter`
unfoldable pub differs : String → String → Bool
differs filter value = not (str_eq filter "") && not (str_eq value filter)

-- The tests of the loop; `name` spells a leak type.
unfoldable pub passes : (LeakType → String) → Filter → QueueItem → Bool
unfolding differs too_late
passes name f i =
    not (differs f.category i.category)
    && not (differs f.merchant_id i.merchant_id)
    && not (differs f.status i.review_status)
    && not (differs f.priority i.priority)
    && not (differs f.leak_type (name i.leak_type))
    && not (ltb_ℤ (pos 0) f.min_amount_minor && ltb_ℤ i.amount_at_risk_minor f.min_amount_minor)
    && not (ltb_ℤ (pos 0) f.max_amount_minor && ltb_ℤ f.max_amount_minor i.amount_at_risk_minor)
    && not (too_late f.deadline_before i.recovery_deadline)

unfoldable pub by_value : QueueItem → QueueItem → Bool
by_value i j =
    if not (eqb_ℤ i.expected_nerv_minor j.expected_nerv_minor)
    then ltb_ℤ j.expected_nerv_minor i.expected_nerv_minor
    else ltb_text i.case_id j.case_id

unfoldable pub queue_less : String → QueueItem → QueueItem → Bool
queue_less sort i j =
    if str_eq sort "amount_asc"
    then (if not (eqb_ℤ i.amount_at_risk_minor j.amount_at_risk_minor)
        then ltb_ℤ i.amount_at_risk_minor j.amount_at_risk_minor
        else by_value i j)
    else if str_eq sort "deadline_desc"
    then (if not (i.recovery_deadline == j.recovery_deadline)
        then after i.recovery_deadline j.recovery_deadline
        else by_value i j)
    else if not (i.recovery_deadline == j.recovery_deadline)
    then ltb i.recovery_deadline j.recovery_deadline
    else by_value i j

unfoldable pub list_queue : (LeakType → String) → Filter → List QueueItem → List QueueItem
list_queue name f items = sort_by (queue_less f.sort) (keep (passes name f) items)

-- The order that a sort name asks for, ties aside.
abbrev pub IsNotAfter : String → QueueItem → QueueItem → Type 0
IsNotAfter sort i j =
    if str_eq sort "amount_asc"
    then i.amount_at_risk_minor ≤ℤ j.amount_at_risk_minor
    else if str_eq sort "deadline_desc"
    then j.recovery_deadline ≤ i.recovery_deadline
    else i.recovery_deadline ≤ j.recovery_deadline

not_less-IsNotAfter :
    (sort : String) (i j : QueueItem) → queue_less sort j i ≡ false → IsNotAfter sort i j
unfolding queue_less
not_less-IsNotAfter sort i j h = elim (Bool-cases (str_eq sort "amount_asc")) [
  | inl p ↦ ground arith
  | inr p ↦ ground arith
]

less-IsNotAfter :
    (sort : String) (i j : QueueItem) → queue_less sort i j ≡ true → IsNotAfter sort i j
unfolding queue_less
less-IsNotAfter sort i j h = elim (Bool-cases (str_eq sort "amount_asc")) [
  | inl p ↦ ground arith
  | inr p ↦ ground arith
]

IsNotAfter-trans :
    (sort : String) (i j k : QueueItem)
    → IsNotAfter sort i j
    → IsNotAfter sort j k
    → IsNotAfter sort i k
IsNotAfter-trans sort i j k h g = elim (Bool-cases (str_eq sort "amount_asc")) [
  | inl p ↦ ground arith
  | inr p ↦ ground arith
]

-- The list holds each item that passes the filter as often as the store returned it, and no other,
-- and is in the order that the filter names: by rising amount, by falling deadline, or else by
-- rising deadline.
pub list_queue_lem :
    (name : LeakType → String) (f : Filter) (items : List QueueItem)
    → Perm (list_queue name f items) (keep (passes name f) items)
      × Ordered (IsNotAfter f.sort) (list_queue name f items)
unfolding list_queue
list_queue_lem name f items = (
  sort_by-perm (queue_less f.sort) (keep (passes name f) items),
  sort_by-Ordered (queue_less f.sort) (IsNotAfter f.sort) (not_less-IsNotAfter f.sort)
      (less-IsNotAfter f.sort) (IsNotAfter-trans f.sort) (keep (passes name f) items),
)
