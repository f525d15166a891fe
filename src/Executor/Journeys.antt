-- ===== src/Executor/Journeys.antt =====
-- What becomes of a payment link that was created: backend/internal/executor/executor.go over
-- backend/internal/store/integrations.go.
use razorpay_ai_revenue_reco.Base.{
  String, ◌≡◌, refl, Bool, true, false, ◌||◌, Option, none, some, ◌⊎◌, inl, inr, List, [], ◌∷◌,
  arith, ap, ◌∙◌, eq_iff, str_eq,
}
use razorpay_ai_revenue_reco.Base.Tests.{if◌then◌else◌}
use razorpay_ai_revenue_reco.Base.Lists.{any}
use razorpay_ai_revenue_reco.Store.Rows.{PaymentLink, LinkReference}
use razorpay_ai_revenue_reco.Store.Tables.{Database, ActionRow}
use razorpay_ai_revenue_reco.Store.PaymentLinks.{
  action_of, names_link, find_link, get_payment_link, save_payment_link, LinkQuery,
  case_by_reference, case_of_action, case_by_schedule, case_by_notes, or_next,
  resolve_payment_link_case,
}
use razorpay_ai_revenue_reco.Executor.{Request}
use razorpay_ai_revenue_reco.Executor.Links.{
  PaymentLinkRequest, Answer, created_link, refused_link, link_request, create_unless, save_created,
  create_link, execute_link,
}

same : (s : String) → str_eq s s ≡ true
same s = ground (arith, eq_iff s s)

names-own :
    (key : String) (as_ : List ActionRow) (a : ActionRow) (r : LinkReference)
    → action_of key as_ ≡ some a
    → str_eq r.action_id key ≡ true
    → names_link key r (action_of r.action_id as_) ≡ true
unfolding names_link
names-own key as_ a r e p =
    let same_id : r.action_id ≡ key = ground (arith, p, eq_iff r.action_id key) in
    ap (names_link key r) (ap (λ k. action_of k as_) same_id ∙ e)
    ∙ ap (λ b. b || str_eq a.idempotency_key key) p

-- An action without a link has no row.
find_link-none :
    (key : String) (as_ : List ActionRow) (a : ActionRow) (rs : List LinkReference)
    → action_of key as_ ≡ some a
    → find_link key as_ rs ≡ none
    → any (λ r. str_eq r.action_id key) rs ≡ false
unfolding find_link
find_link-none key as_ a [] e h = refl
find_link-none key as_ a (r ∷ rs) e h =
    go (str_eq r.action_id key) refl (names_link key r (action_of r.action_id as_)) refl h
      (find_link-none key as_ a rs e)
  where
    go :
        (b : Bool)
        → str_eq r.action_id key ≡ b
        → (n : Bool) → names_link key r (action_of r.action_id as_) ≡ n
        → (if n then some r.response else find_link key as_ rs) ≡ none
        → (find_link key as_ rs ≡ none → any (λ x. str_eq x.action_id key) rs ≡ false)
        → (b || any (λ x. str_eq x.action_id key) rs) ≡ false
    go b p true q g rest = cc g
    go false p false q g rest = rest g
    go true p false q g rest = cc (names-own key as_ a r e p, q)

abbrev row_of : String → PaymentLink → LinkReference
row_of key l = record { action_id = key; provider_reference = l.id; response = l }

saved_row :
    (key : String) (l : PaymentLink) (db : Database) (a : ActionRow)
    → action_of key db.actions ≡ some a
    → get_payment_link key db ≡ none
    → save_payment_link key l db ≡ record db { references = row_of key l ∷ db.references }
unfolding save_payment_link get_payment_link
saved_row key l db a e h =
    ap (λ b. if b then db else record db { references = row_of key l ∷ db.references })
      (find_link-none key db.actions a db.references e h)

-- The row of an action that has none is found by the action and by the link.
find_link-row :
    (key : String) (l : PaymentLink) (as_ : List ActionRow) (a : ActionRow)
    (rs : List LinkReference)
    → action_of key as_ ≡ some a
    → find_link key as_ (row_of key l ∷ rs) ≡ some l
unfolding find_link
find_link-row key l as_ a rs e =
    ap (λ b. if b then some l else find_link key as_ rs)
      (names-own key as_ a (row_of key l) e (same key))

case_by_reference-row :
    (key : String) (l : PaymentLink) (as_ : List ActionRow) (a : ActionRow)
    (rs : List LinkReference)
    → action_of key as_ ≡ some a
    → case_by_reference l.id as_ (row_of key l ∷ rs) ≡ some a.case_id
unfolding case_by_reference case_of_action
case_by_reference-row key l as_ a rs e =
    let rest = case_by_reference l.id as_ rs in
    ap (λ b. if b then case_of_action (action_of key as_) rest else rest) (same l.id)
    ∙ ap (λ o. case_of_action o rest) e

saved_link :
    (provider : PaymentLinkRequest → Answer) (key : String) (q : PaymentLinkRequest) (db : Database)
    (a : ActionRow) (l : PaymentLink)
    → action_of key db.actions ≡ some a
    → get_payment_link key db ≡ none
    → provider q ≡ created_link l
    → (create_link provider key q db).left ≡ record db { references = row_of key l ∷ db.references }
unfolding create_link create_unless save_created
saved_link provider key q db a l e h k =
    ap (λ o. (create_unless provider key q o db).left) h
    ∙ ap (λ x. (save_created key q x db).left) k
    ∙ saved_row key l db a e h

answered_link :
    (provider : PaymentLinkRequest → Answer) (key : String) (q : PaymentLinkRequest) (db : Database)
    (l : PaymentLink) (o : Option PaymentLink)
    → get_payment_link key db ≡ o
    → (create_unless provider key q o db).answer ≡ created_link l
    → ((o ≡ some l) × ((create_unless provider key q o db).left ≡ db))
      ⊎ ((o ≡ none) × (provider q ≡ created_link l))
unfolding create_unless save_created
answered_link provider key q db l (some k) p h = inl (cc h, refl)
answered_link provider key q db l none p h = inr (refl, go (provider q) h)
  where
    go : (x : Answer) → (save_created key q x db).answer ≡ created_link l → x ≡ created_link l
    go (created_link k) g = g
    go (refused_link e) g = g

get_payment_link-created :
    (provider : PaymentLinkRequest → Answer) (key : String) (q : PaymentLinkRequest) (db : Database)
    (a : ActionRow) (l : PaymentLink)
    → action_of key db.actions ≡ some a
    → (create_link provider key q db).answer ≡ created_link l
    → get_payment_link key (create_link provider key q db).left ≡ some l
unfolding get_payment_link create_link
get_payment_link-created provider key q db a l e h =
    elim (answered_link provider key q db l (get_payment_link key db) refl h) [
      | inl (p, k) ↦ ap (get_payment_link key) k ∙ p
      | inr (p, k) ↦
          ap (get_payment_link key) (saved_link provider key q db a l e p k)
          ∙ find_link-row key l db.actions a db.references e
    ]

-- Once a payment link has been answered for an action that exists, made now or earlier, every
-- further creation for the action answers with the same link, sends nothing to the provider, and
-- leaves the database as it is, whatever the provider and the request.
pub create_link-once :
    (provider provider' : PaymentLinkRequest → Answer) (key : String) (q q' : PaymentLinkRequest)
    (db : Database) (a : ActionRow) (l : PaymentLink)
    → action_of key db.actions ≡ some a
    → (create_link provider key q db).answer ≡ created_link l
    → create_link provider' key q' (create_link provider key q db).left
      ≡ record { answer = created_link l; sent = []; left = (create_link provider key q db).left }
unfolding create_link create_unless
create_link-once provider provider' key q q' db a l e h =
    ap (λ o. create_unless provider' key q' o (create_link provider key q db).left)
      (get_payment_link-created provider key q db a l e h)

-- A link that the executor creates for the first time leads back to its case: what is paid by
-- the link's identifier is found to be for the case of the action, whatever the payment's reference
-- and notes say.
pub resolve-execute_link :
    (provider : PaymentLinkRequest → Answer) (r : Request) (db : Database) (a : ActionRow)
    (l : PaymentLink) (q : LinkQuery)
    → action_of r.recovery_action_id db.actions ≡ some a
    → get_payment_link r.recovery_action_id db ≡ none
    → provider (link_request r) ≡ created_link l
    → q.link_id ≡ l.id
    → resolve_payment_link_case q (execute_link provider r db).1.left ≡ some a.case_id
unfolding resolve_payment_link_case execute_link or_next
resolve-execute_link provider r db a l q e h k p =
    ap (resolve_payment_link_case q)
      (saved_link provider r.recovery_action_id (link_request r) db a l e h k)
    ∙ ap (λ o. or_next o rest)
        (ap (λ id. case_by_reference id db.actions links) p
          ∙ case_by_reference-row r.recovery_action_id l db.actions a db.references e)
  where
    links : List LinkReference
    links = row_of r.recovery_action_id l ∷ db.references

    rest : Option String
    rest =
        or_next (case_by_schedule q.reference_id db.schedules)
          (case_by_notes q (record db { references = links }))
