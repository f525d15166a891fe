-- ===== src/Domain/Actions.antt =====
-- The recovery actions of backend/internal/domain/entities.go. An `ActionType` is a string in the
-- source: `other` stands for a string that is none of its constants.
use mathlib.Core.List.{foldr}
use mathlib.Core.List.Perm
use razorpay_ai_revenue_reco.Base.{
  ℕ, ◌+◌, String, ◌≡◌, refl, ap, sym, ◌∙◌, Bool, true, false, List, [], ◌∷◌, ◌++◌, Perm, arith,
  str_eq, eq_iff,
}
use razorpay_ai_revenue_reco.Base.Tests.{if◌then◌else◌}

pub data ActionType : Type 0 where
  wait retry_now retry_later send_reminder send_payment_link : ActionType
  send_checkout_recovery_link request_payment_method_update suggest_alternate_method : ActionType
  wait_for_promise_to_pay retention_action escalate_to_human stop : ActionType
  other : String → ActionType

-- The string behind a constant, by which Go orders actions.
unfoldable pub action_name : ActionType → String
action_name wait = "WAIT"
action_name retry_now = "RETRY_NOW"
action_name retry_later = "RETRY_LATER"
action_name send_reminder = "SEND_REMINDER"
action_name send_payment_link = "SEND_PAYMENT_LINK"
action_name send_checkout_recovery_link = "SEND_CHECKOUT_RECOVERY_LINK"
action_name request_payment_method_update = "REQUEST_PAYMENT_METHOD_UPDATE"
action_name suggest_alternate_method = "SUGGEST_ALTERNATE_METHOD"
action_name wait_for_promise_to_pay = "WAIT_FOR_PROMISE_TO_PAY"
action_name retention_action = "RETENTION_ACTION"
action_name escalate_to_human = "ESCALATE_TO_HUMAN"
action_name stop = "STOP"
action_name (other s) = s

-- `==` on actions.
unfoldable pub action_eq : ActionType → ActionType → Bool
action_eq wait wait = true
action_eq retry_now retry_now = true
action_eq retry_later retry_later = true
action_eq send_reminder send_reminder = true
action_eq send_payment_link send_payment_link = true
action_eq send_checkout_recovery_link send_checkout_recovery_link = true
action_eq request_payment_method_update request_payment_method_update = true
action_eq suggest_alternate_method suggest_alternate_method = true
action_eq wait_for_promise_to_pay wait_for_promise_to_pay = true
action_eq retention_action retention_action = true
action_eq escalate_to_human escalate_to_human = true
action_eq stop stop = true
action_eq (other s) (other t) = str_eq s t
action_eq _ _ = false

pub action_eq_refl : (a : ActionType) → action_eq a a ≡ true
unfolding action_eq
action_eq_refl (other s) = ground (arith, eq_iff s s)
action_eq_refl _ = ground arith

pub action_eq→≡ : (a b : ActionType) → action_eq a b ≡ true → a ≡ b
unfolding action_eq
action_eq→≡ (other s) (other t) h = ground (arith, eq_iff s t)
action_eq→≡ wait b h = ground arith
action_eq→≡ _ _ h = ground arith

-- How often an action stands in a list.
unfoldable pub occurrences : ActionType → List ActionType → ℕ
occurrences a [] = 0
occurrences a (b ∷ rest) = (if action_eq a b then 1 else 0) + occurrences a rest

pub occurrences-foldr :
    (a : ActionType) (l : List ActionType)
    → occurrences a l ≡ foldr (λ b n. (if action_eq a b then 1 else 0) + n) 0 l
unfolding occurrences
occurrences-foldr a [] = refl
occurrences-foldr a (b ∷ rest) =
    ap (λ n. (if action_eq a b then 1 else 0) + n) (occurrences-foldr a rest)

-- A permutation keeps the number of occurrences.
pub occurrences-perm :
    (a : ActionType) {k l : List ActionType} → Perm k l → occurrences a k ≡ occurrences a l
occurrences-perm a {k = k} {l = l} p =
    occurrences-foldr a k
    ∙ Perm.foldr-eq (hlevel) (λ (b : ActionType) (n : ℕ). (if action_eq a b then 1 else 0) + n)
        (λ b c n. omega arith) p 0
    ∙ sym (occurrences-foldr a l)

pub occurrences-append :
    (a : ActionType) (k l : List ActionType)
    → occurrences a (k ++ l) ≡ occurrences a k + occurrences a l
unfolding occurrences
occurrences-append a [] l = omega arith
occurrences-append a (b ∷ k) l = omega (arith, occurrences-append a k l)
