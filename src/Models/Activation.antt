-- ===== src/Models/Activation.antt =====
-- At most one model of a type is active: backend/internal/store/model_registry.go.
use razorpay_ai_revenue_reco.Base.{
  String, ◌≡◌, refl, Bool, true, false, ◌||◌, ◌&&◌, not, Option, none, some, inl, inr, List, [],
  ◌∷◌, ◌++◌, arith, ap, subst, sym, ◌∙◌, eq_iff, str_eq,
}
use razorpay_ai_revenue_reco.Base.Tests.{if◌then◌else◌, Bool-cases}
use razorpay_ai_revenue_reco.Base.Lists.{any}
use razorpay_ai_revenue_reco.Base.Clock.{Time}
use razorpay_ai_revenue_reco.Models.{
  ModelStatus, retired, is_active_status, Entry, StatusInput, StatusEvent, ModelTables, Backend,
  entry_of, is_active_event, is_active, retirement, is_superseded, retirements, status_event,
  registered, not_registered, status_conflict, bad_reason, allowed, write_status, transition_found,
  transition_model_status, transition_model,
}
use razorpay_ai_revenue_reco.Models.Latest.{
  AreBefore, AreAt, IsAt, is_about, latest-new, latest-old,
}

-- Two models of a type that are active are one.
unfoldable pub HasOneActive : Backend → ModelTables → Type 0
HasOneActive b m =
    (i j : String) (x y : Entry)
    → entry_of i m.entries ≡ some x
    → entry_of j m.entries ≡ some y
    → x.model_type ≡ y.model_type
    → is_active b i m.events ≡ true
    → is_active b j m.events ≡ true
    → i ≡ j

-- The events of a retirement are written now, and retire.
retirements-AreAt :
    (b : Backend) (e : Entry) (input : StatusInput) (now : Time) (events : List StatusEvent)
    (olds : List Entry)
    → AreAt now retired (retirements b e input now events olds)
unfolding retirements retirement
retirements-AreAt b e input now events [] = tt
retirements-AreAt b e input now events (old ∷ olds) =
    go (is_superseded b e events old) (retirements-AreAt b e input now events olds)
  where
    go :
        (c : Bool)
        → AreAt now retired (retirements b e input now events olds)
        → AreAt now retired (
            if c
            then retirement b e.id input now old.id ∷ retirements b e input now events olds
            else retirements b e input now events olds)
    go true h = ((refl, refl), h)
    go false h = h

some-inj {ℓ} : {A : Type ℓ} {x y : A} → some x ≡ some y → x ≡ y
some-inj h = cc h

active-superseded :
    (b : Backend) (e : Entry) (events : List StatusEvent) (old : Entry) (j : String)
    → str_eq old.id j ≡ true
    → e.model_type ≡ old.model_type
    → str_eq j e.id ≡ false
    → is_active b j events ≡ true
    → is_superseded b e events old ≡ true
unfolding is_superseded
active-superseded b e events old j p t n a =
    let same_id : old.id ≡ j = ground (arith, p, eq_iff old.id j) in
    let type_test : str_eq old.model_type e.model_type ≡ true =
      ground (arith, t, eq_iff old.model_type e.model_type) in
    ap (λ i. str_eq old.model_type e.model_type && not (str_eq i e.id) && is_active b i events)
      same_id
    ∙ cc (type_test, n, a)

-- They are about every other model of the type that is active.
retirements-any :
    (b : Backend) (e : Entry) (input : StatusInput) (now : Time) (events : List StatusEvent)
    (olds : List Entry) (j : String) (y : Entry)
    → entry_of j olds ≡ some y
    → e.model_type ≡ y.model_type
    → str_eq j e.id ≡ false
    → is_active b j events ≡ true
    → any (is_about j) (retirements b e input now events olds) ≡ true
unfolding entry_of retirements retirement
retirements-any b e input now events [] j y h t n a = cc h
retirements-any b e input now events (old ∷ olds) j y h t n a =
    go (str_eq old.id j) refl (is_superseded b e events old) refl h
      (λ k. retirements-any b e input now events olds j y k t n a)
  where
    rest : List StatusEvent
    rest = retirements b e input now events olds

    go :
        (c : Bool)
        → str_eq old.id j ≡ c
        → (d : Bool) → is_superseded b e events old ≡ d
        → (if c then some old else entry_of j olds) ≡ some y
        → (entry_of j olds ≡ some y → any (is_about j) rest ≡ true)
        → any (is_about j) (if d then retirement b e.id input now old.id ∷ rest else rest) ≡ true
    go true p true q g r = ap (λ d. d || any (is_about j) rest) p
    go false p true q g r = ground (arith, r g)
    go true p false q g r =
        let same_type : e.model_type ≡ old.model_type =
          t ∙ ap (λ z. z.model_type) (sym (some-inj g)) in
        cc (active-superseded b e events old j p same_type n a, q)
    go false p false q g r = r g

entry_of-id : (id : String) (es : List Entry) (e : Entry) → entry_of id es ≡ some e → e.id ≡ id
unfolding entry_of
entry_of-id id [] e h = cc h
entry_of-id id (x ∷ es) e h = go (str_eq x.id id) refl h (entry_of-id id es e)
  where
    go :
        (c : Bool)
        → str_eq x.id id ≡ c
        → (if c then some x else entry_of id es) ≡ some e
        → (entry_of id es ≡ some e → e.id ≡ id)
        → e.id ≡ id
    go true p g r = ap (λ z. z.id) (sym (some-inj g)) ∙ ground (arith, p, eq_iff x.id id)
    go false p g r = r g

pub at-status :
    (now : Time) (st : ModelStatus) (o : Option StatusEvent)
    → IsAt now st o
    → is_active_event o ≡ is_active_status st
unfolding is_active_event
at-status now st none k = absurd k
at-status now st (some e) k = ap is_active_status k.1

written :
    (b : Backend) (e : Entry) (input : StatusInput) (now : Time) (m : ModelTables) (c : Bool)
    → is_active_status input.status ≡ c
    → (write_status b e input now m).events
      ≡ (status_event b e.id input now ∷ [])
        ++ ((if c then retirements b e input now m.events m.entries else []) ++ m.events)
unfolding write_status
written b e input now m c h =
    ap
      (λ d.
        status_event b e.id input now
          ∷ (if d then retirements b e input now m.events m.entries else [])
        ++ m.events)
      h

own-active :
    (b : Backend) (e : Entry) (input : StatusInput) (now : Time) (m : ModelTables)
    → AreBefore now m.events
    → is_active b e.id (write_status b e input now m).events ≡ true
    → is_active_status input.status ≡ true
unfolding is_active status_event
own-active b e input now m bef h = elim (Bool-cases (is_active_status input.status)) [
  | inl p ↦ p
  | inr p ↦
      sym (
        at-status now input.status _ (
          latest-new b.id_less now input.status e.id (status_event b e.id input now ∷ []) m.events
            bef ((refl, refl), tt) (ground (arith, eq_iff e.id e.id))))
      ∙ ap (λ es. is_active b e.id es) (sym (written b e input now m false p))
      ∙ h
]

retired_inactive : is_active_status retired ≡ false
unfolding is_active_status
retired_inactive = refl

other-active :
    (b : Backend) (e : Entry) (input : StatusInput) (now : Time) (m : ModelTables) (j : String)
    → AreBefore now m.events
    → str_eq e.id j ≡ false
    → is_active b j (write_status b e input now m).events ≡ true
    → is_active b j m.events ≡ true
      × ((y : Entry)
          → entry_of j m.entries ≡ some y
          → is_active_status input.status ≡ true
          → e.model_type ≡ y.model_type
          → ⊥)
unfolding is_active status_event
other-active b e input now m j bef n h = elim (Bool-cases (is_active_status input.status)) [
  | inr p ↦ (sym (skipped false p) ∙ h, λ y k a t. cc (p, a))
  | inl p ↦ elim (Bool-cases (any (is_about j) rets)) [
    | inl q ↦
        let stopped : true ≡ false =
          sym h
          ∙ skipped true p
          ∙ at-status now retired _ (
              latest-new b.id_less now retired j rets m.events bef
                (retirements-AreAt b e input now m.events m.entries) q)
          ∙ retired_inactive in
        cc stopped
    | inr q ↦
        let was : is_active b j m.events ≡ true =
          ap is_active_event (sym (latest-old b.id_less j rets m.events q))
          ∙ sym (skipped true p)
          ∙ h in
        (
          was,
          λ y k a t. cc (retirements-any b e input now m.events m.entries j y k t not_own was, q),
        )
  ]
]
  where
    rets : List StatusEvent
    rets = retirements b e input now m.events m.entries

    not_own : str_eq j e.id ≡ false
    not_own = ground (arith, n, eq_iff e.id j, eq_iff j e.id)

    skipped :
        (c : Bool)
        → is_active_status input.status ≡ c
        → is_active b j (write_status b e input now m).events
          ≡ is_active b j ((if c then rets else []) ++ m.events)
    skipped c p =
        ap (λ es. is_active b j es) (written b e input now m c p)
        ∙ ap is_active_event (
            latest-old b.id_less j (status_event b e.id input now ∷ [])
              ((if c then rets else []) ++ m.events) (ap (λ d. d || false) n))

write_status-HasOneActive :
    (b : Backend) (id : String) (e : Entry) (input : StatusInput) (now : Time) (m : ModelTables)
    → AreBefore now m.events
    → entry_of id m.entries ≡ some e
    → HasOneActive b m
    → HasOneActive b (write_status b e input now m)
unfolding HasOneActive write_status
write_status-HasOneActive b id e input now m bef h inv i j x y k l t u v =
    elim (Bool-cases (str_eq e.id i)) [
      | inl p ↦ elim (Bool-cases (str_eq e.id j)) [
        | inl q ↦ sym (own i p) ∙ own j q
        | inr q ↦
            absurd
              ((other-active b e input now m j bef q v).1 y l (acts i p u) (type_of i x p k ∙ t))
      ]
      | inr p ↦ elim (Bool-cases (str_eq e.id j)) [
        | inl q ↦
            absurd (
              (other-active b e input now m i bef p u).1 x k (acts j q v) (type_of j y q l ∙ sym t))
        | inr q ↦
            inv i j x y k l t (other-active b e input now m i bef p u).0
              (other-active b e input now m j bef q v).0
      ]
    ]
  where
    own : (i : String) → str_eq e.id i ≡ true → e.id ≡ i
    own i p = ground (arith, p, eq_iff e.id i)

    acts :
        (i : String)
        → str_eq e.id i ≡ true
        → is_active b i (write_status b e input now m).events ≡ true
        → is_active_status input.status ≡ true
    acts i p u =
        own-active b e input now m bef
          (ap (λ i. is_active b i (write_status b e input now m).events) (own i p) ∙ u)

    type_of :
        (i : String) (x : Entry)
        → str_eq e.id i ≡ true
        → entry_of i m.entries ≡ some x
        → e.model_type ≡ x.model_type
    type_of i x p k =
        ap (λ z. z.model_type)
          (some-inj (
            sym h
            ∙ ap (λ id. entry_of id m.entries) (sym (entry_of-id id m.entries e h) ∙ own i p)
            ∙ k))

transition_found-written :
    (b : Backend) (o : Option Entry) (c : Option StatusEvent) (input : StatusInput) (now : Time)
    (m m' : ModelTables)
    → transition_found b o c input now m ≡ registered m'
    → (e : Entry) × (o ≡ some e) × (m' ≡ write_status b e input now m)
unfolding transition_found
transition_found-written b none c input now m m' h = cc h
transition_found-written b (some e) none input now m m' h = cc h
transition_found-written b (some e) (some c) input now m m' h =
    (e, refl, go (allowed c.status input.status) h)
  where
    go :
        (d : Bool)
        → (if d then registered (write_status b e input now m) else not_registered status_conflict)
          ≡ registered m'
        → m' ≡ write_status b e input now m
    go true k = cc k
    go false k = cc k

-- Where at most one model of each type is active, that is so after a change of status that
-- succeeds, also one that activates a model. The change is later than the events before it.
pub transition_model-HasOneActive :
    (b : Backend) (id : String) (input : StatusInput) (now : Time) (m m' : ModelTables)
    → AreBefore now m.events
    → HasOneActive b m
    → transition_model b id input now m ≡ registered m'
    → HasOneActive b m'
unfolding transition_model transition_model_status
transition_model-HasOneActive b id input now m m' bef inv h =
    let (e, k, w) =
      transition_found-written b _ _ input now m m' (
        go (str_eq input.reason "" || str_eq input.actor "" || not (b.valid_json input.actor)) h) in
    subst (HasOneActive b) (sym w) (write_status-HasOneActive b id e input now m bef k inv)
  where
    go :
        (d : Bool)
        → (if d then not_registered bad_reason else transition_model_status b id input now m)
          ≡ registered m'
        → transition_model_status b id input now m ≡ registered m'
    go true k = cc k
    go false k = k
