-- ===== src/Models/Latest.antt =====
-- The latest event of a model, where newer events are written later:
-- backend/internal/store/model_registry.go.
use razorpay_ai_revenue_reco.Base.{
  String, ◌≡◌, ◌<◌, refl, Bool, true, false, ◌||◌, ◌&&◌, Option, none, some, ◌⊎◌, inl, inr, List,
  [], ◌∷◌, ◌++◌, arith, subst, sym, str_eq,
}
use razorpay_ai_revenue_reco.Base.Tests.{◌==◌, ltb, lt→ltb, if◌then◌else◌}
use razorpay_ai_revenue_reco.Base.Lists.{any, All}
use razorpay_ai_revenue_reco.Base.Clock.{Time}
use razorpay_ai_revenue_reco.Models.{ModelStatus, StatusEvent, newer, latest}

-- All events lie before a time.
abbrev pub AreBefore : Time → List StatusEvent → Type 0
AreBefore now es = All (λ e. e.occurred_at < now) es

-- All events are written at a time, with one status.
abbrev pub AreAt : Time → ModelStatus → List StatusEvent → Type 0
AreAt now st es = All (λ e. (e.occurred_at ≡ now) × (e.status ≡ st)) es

abbrev pub is_about : String → StatusEvent → Bool
is_about id e = str_eq e.registry_id id

abbrev IsBefore : Time → Option StatusEvent → Type 0
IsBefore now none = Unit
IsBefore now (some e) = e.occurred_at < now

abbrev pub IsAt : Time → ModelStatus → Option StatusEvent → Type 0
IsAt now st none = ⊥
IsAt now st (some e) = (e.occurred_at ≡ now) × (e.status ≡ st)

newer-IsBefore :
    (less : String → String → Bool) (now : Time) (e : StatusEvent) (o : Option StatusEvent)
    → e.occurred_at < now
    → IsBefore now o
    → (newer less e o).occurred_at < now
unfolding newer
newer-IsBefore less now e none h k = h
newer-IsBefore less now e (some f) h k = ground arith

latest-IsBefore :
    (less : String → String → Bool) (now : Time) (id : String) (es : List StatusEvent)
    → AreBefore now es
    → IsBefore now (latest less id es)
unfolding latest
latest-IsBefore less now id [] h = tt
latest-IsBefore less now id (x ∷ es) h =
    go (str_eq x.registry_id id)
      (newer-IsBefore less now x (latest less id es) h.0 (latest-IsBefore less now id es h.1))
      (latest-IsBefore less now id es h.1)
  where
    go :
        (b : Bool)
        → (newer less x (latest less id es)).occurred_at < now
        → IsBefore now (latest less id es)
        → IsBefore now (if b then some (newer less x (latest less id es)) else latest less id es)
    go true p q = p
    go false p q = q

-- An event that is newer than all others is the latest, and one that is as new as another with the
-- same status leaves the status.
pub newer-wins :
    (less : String → String → Bool) (now : Time) (st : ModelStatus) (e : StatusEvent)
    (o : Option StatusEvent)
    → (e.occurred_at ≡ now) × (e.status ≡ st)
    → IsBefore now o ⊎ IsAt now st o
    → IsAt now st (some (newer less e o))
unfolding newer
newer-wins less now st e none h k = h
newer-wins less now st e (some f) h (inl k) =
    let later : f.occurred_at < e.occurred_at = omega (arith, k, h.0) in
    go (ltb f.occurred_at e.occurred_at) (f.occurred_at == e.occurred_at && less f.id e.id)
      (lt→ltb f.occurred_at e.occurred_at later)
  where
    go : (c d : Bool) → c ≡ true → IsAt now st (some (if c || d then e else f))
    go true d p = h
    go false d p = cc p
newer-wins less now st e (some f) h (inr k) =
    go (ltb f.occurred_at e.occurred_at || (f.occurred_at == e.occurred_at && less f.id e.id))
  where
    go : (b : Bool) → IsAt now st (some (if b then e else f))
    go true = h
    go false = k

pub latest-old :
    (less : String → String → Bool) (id : String) (new old : List StatusEvent)
    → any (is_about id) new ≡ false
    → latest less id (new ++ old) ≡ latest less id old
unfolding latest
latest-old less id [] old h = refl
latest-old less id (x ∷ new) old h = ground (arith, latest-old less id new old)

-- The latest event is one of those that are written now, where the model has one.
pub latest-new :
    (less : String → String → Bool) (now : Time) (st : ModelStatus) (id : String)
    (new old : List StatusEvent)
    → AreBefore now old
    → AreAt now st new
    → any (is_about id) new ≡ true
    → IsAt now st (latest less id (new ++ old))
unfolding latest
latest-new less now st id [] old b n h = cc h
latest-new less now st id (x ∷ new) old b n h =
    go (str_eq x.registry_id id) (any (is_about id) new) h (latest-new less now st id new old b n.1)
      (λ k.
        subst (IsBefore now) (sym (latest-old less id new old k))
          (latest-IsBefore less now id old b))
  where
    go :
        (c a : Bool)
        → (c || a) ≡ true
        → (a ≡ true → IsAt now st (latest less id (new ++ old)))
        → (a ≡ false → IsBefore now (latest less id (new ++ old)))
        → IsAt now st (
            if c
            then some (newer less x (latest less id (new ++ old)))
            else latest less id (new ++ old))
    go true true p q r = newer-wins less now st x _ n.0 (inr (q refl))
    go true false p q r = newer-wins less now st x _ n.0 (inl (r refl))
    go false true p q r = q refl
    go false false p q r = cc p
