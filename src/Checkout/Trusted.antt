-- ===== src/Checkout/Trusted.antt =====
-- What a leak of a checkout is made from: backend/internal/detection/checkout.go.
use razorpay_ai_revenue_reco.Base.{
  String, ◌≡◌, ◌<◌, refl, Bool, true, false, ◌||◌, not, Option, none, some, List, ap, subst, sym,
  str_eq,
}
use razorpay_ai_revenue_reco.Base.Tests.{ltb→lt, if◌then◌else◌}
use razorpay_ai_revenue_reco.Base.Clock.{after}
use razorpay_ai_revenue_reco.Checkout.{
  CheckoutEvent, CheckoutSession, NormalizedLeak, risk, no_risk, checkout_unsupported,
  checkout_expired, checkout_incomplete, get_checkout, upsert_checkout, started_session,
  updated_session, checkout_leak, classify_checkout, normalize_later, normalize_decoded,
  normalize_checkout,
}

-- A leak that is about a session, and inside its time.
unfoldable pub IsTrusted : CheckoutSession → CheckoutEvent → NormalizedLeak → Type 0
IsTrusted s e l =
    (l.source_reference ≡ s.checkout_id)
    × (l.merchant_id ≡ s.merchant_id)
    × (l.customer_id ≡ s.customer_id)
    × (l.amount_minor ≡ s.amount_minor)
    × (l.currency ≡ s.currency)
    × (l.recovery_deadline ≡ s.valid_until)
    × (e.occurred_at < l.recovery_deadline)

classify-risk :
    (e : CheckoutEvent) (id : String) (s : CheckoutSession) (l : NormalizedLeak)
    → classify_checkout e id s ≡ risk l
    → (str_eq e.event_type "CHECKOUT_STARTED" ≡ false)
      × (e.occurred_at < s.valid_until)
      × (l ≡ checkout_leak e id s)
unfolding classify_checkout
classify-risk e id s l h =
    go (str_eq e.event_type "CHECKOUT_STARTED") refl
      (str_eq e.event_type "CHECKOUT_PAYMENT_SELECTED")
      (not
        (str_eq e.event_type "CHECKOUT_PAYMENT_FAILED" || str_eq e.event_type "CHECKOUT_ABANDONED"))
      (after s.valid_until e.occurred_at) refl h
  where
    go :
        (a : Bool)
        → str_eq e.event_type "CHECKOUT_STARTED" ≡ a
        → (b c d : Bool) → after s.valid_until e.occurred_at ≡ d
        → (if a || b
            then no_risk
            else if c
            then checkout_unsupported
            else if not d
            then checkout_expired
            else risk (checkout_leak e id s))
          ≡ risk l
        → (str_eq e.event_type "CHECKOUT_STARTED" ≡ false)
          × (e.occurred_at < s.valid_until)
          × (l ≡ checkout_leak e id s)
    go true p b c d q k = cc k
    go false p true c d q k = cc k
    go false p false true d q k = cc k
    go false p false false false q k = cc k
    go false p false false true q k = (p, ltb→lt e.occurred_at s.valid_until q, cc k)

updated-IsTrusted :
    (e : CheckoutEvent) (id : String) (s : CheckoutSession)
    → e.occurred_at < s.valid_until
    → IsTrusted s e (checkout_leak e id (updated_session e s))
unfolding IsTrusted checkout_leak updated_session
updated-IsTrusted e id s h = (refl, refl, refl, refl, refl, refl, h)

later-IsTrusted :
    (e : CheckoutEvent) (id : String) (o : Option CheckoutSession) (ss ss' : List CheckoutSession)
    (l : NormalizedLeak)
    → normalize_later e id o ss ≡ (risk l, ss')
    → (s : CheckoutSession) × (o ≡ some s) × IsTrusted s e l
unfolding normalize_later updated_session
later-IsTrusted e id none ss ss' l h = cc h
later-IsTrusted e id (some s) ss ss' l h =
    let (a, t, q) = classify-risk e id (updated_session e s) l (ap (λ r. r.0) h) in
    (s, refl, subst (IsTrusted s e) (sym q) (updated-IsTrusted e id s t))

decoded-IsTrusted :
    (e : CheckoutEvent) (id : String) (ss ss' : List CheckoutSession) (l : NormalizedLeak)
    → normalize_decoded (some e) id ss ≡ (risk l, ss')
    → (s : CheckoutSession) × (get_checkout e.checkout_id ss ≡ some s) × IsTrusted s e l
unfolding normalize_decoded
decoded-IsTrusted e id ss ss' l h =
    go (str_eq e.checkout_id "" || str_eq e.event_type "") (str_eq e.event_type "CHECKOUT_STARTED")
      refl h
  where
    go :
        (a b : Bool)
        → str_eq e.event_type "CHECKOUT_STARTED" ≡ b
        → (if a
            then (checkout_incomplete, ss)
            else if b
            then (
              classify_checkout e id (started_session e),
              upsert_checkout (started_session e) ss,
            )
            else normalize_later e id (get_checkout e.checkout_id ss) ss)
          ≡ (risk l, ss')
        → (s : CheckoutSession) × (get_checkout e.checkout_id ss ≡ some s) × IsTrusted s e l
    go true b p k = cc (ap (λ r. r.0) k)
    go false true p k = cc (p, (classify-risk e id (started_session e) l (ap (λ r. r.0) k)).0)
    go false false p k = later-IsTrusted e id (get_checkout e.checkout_id ss) ss ss' l k

-- A leak that is found in a checkout is about a session that was stored before: its merchant,
-- customer, amount, currency and deadline are the session's, whatever the event claims, and the
-- event lies before the deadline.
pub normalize_checkout-IsTrusted :
    (decode : String → Option CheckoutEvent) (payload id : String) (ss ss' : List CheckoutSession)
    (l : NormalizedLeak)
    → normalize_checkout decode payload id ss ≡ (risk l, ss')
    → (e : CheckoutEvent) × (s : CheckoutSession) × (decode payload ≡ some e)
      × (get_checkout e.checkout_id ss ≡ some s)
      × IsTrusted s e l
unfolding normalize_checkout normalize_decoded
normalize_checkout-IsTrusted decode payload id ss ss' l h = go (decode payload) h
  where
    go :
        (o : Option CheckoutEvent)
        → normalize_decoded o id ss ≡ (risk l, ss')
        → (e : CheckoutEvent) × (s : CheckoutSession) × (o ≡ some e)
          × (get_checkout e.checkout_id ss ≡ some s)
          × IsTrusted s e l
    go none k = cc (ap (λ r. r.0) k)
    go (some e) k = let (s, f, t) = decoded-IsTrusted e id ss ss' l k in (e, s, refl, f, t)
