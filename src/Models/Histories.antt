-- ===== src/Models/Histories.antt =====
-- The histories of the registry of models: backend/internal/modelregistry/service.go and
-- backend/internal/store/model_registry.go.
use razorpay_ai_revenue_reco.Base.{
  String, ◌≡◌, refl, Bool, true, false, ◌||◌, Option, none, some, List, [], ◌∷◌, arith, ap, sym,
  subst, ◌∙◌, eq_iff, str_eq,
}
use razorpay_ai_revenue_reco.Base.Tests.{if◌then◌else◌}
use razorpay_ai_revenue_reco.Base.Clock.{Time}
use razorpay_ai_revenue_reco.Models.{
  candidate_, is_active_status, Entry, StatusInput, StatusEvent, ModelTables, Backend, entry_of,
  is_active, is_active_event, registered, not_registered, not_inserted, ModelError,
  transition_model,
}
use razorpay_ai_revenue_reco.Models.Creation.{
  candidate_event, add_candidate, create_model_candidate, completed_entry, entry_refusal, create_if,
  create_model,
}
use razorpay_ai_revenue_reco.Models.Latest.{AreBefore, latest-new, latest-old}
use razorpay_ai_revenue_reco.Models.Activation.{
  HasOneActive, at-status, transition_model-HasOneActive,
}

candidate_inactive : is_active_status candidate_ ≡ false
unfolding is_active_status
candidate_inactive = refl

new-inactive :
    (b : Backend) (e : Entry) (input : StatusInput) (es : List StatusEvent)
    → AreBefore e.created_at es
    → is_active b e.id (candidate_event b e input ∷ es) ≡ false
unfolding is_active candidate_event
new-inactive b e input es bef =
    at-status e.created_at candidate_ _ (
      latest-new b.id_less e.created_at candidate_ e.id (candidate_event b e input ∷ []) es bef
        ((refl, refl), tt) (ground (arith, eq_iff e.id e.id)))
    ∙ candidate_inactive

-- What is found and active after a candidate was added was so before.
added-before :
    (b : Backend) (e : Entry) (input : StatusInput) (m : ModelTables) (i : String) (x : Entry)
    → AreBefore e.created_at m.events
    → entry_of i (e ∷ m.entries) ≡ some x
    → is_active b i (candidate_event b e input ∷ m.events) ≡ true
    → (entry_of i m.entries ≡ some x) × (is_active b i m.events ≡ true)
unfolding entry_of is_active candidate_event
added-before b e input m i x bef h a = go (str_eq e.id i) refl h
  where
    go :
        (c : Bool)
        → str_eq e.id i ≡ c
        → (if c then some e else entry_of i m.entries) ≡ some x
        → (entry_of i m.entries ≡ some x) × (is_active b i m.events ≡ true)
    go true p k =
        let same : e.id ≡ i = ground (arith, p, eq_iff e.id i) in
        let idle : true ≡ false =
          sym a
          ∙ ap (λ i. is_active b i (candidate_event b e input ∷ m.events)) (sym same)
          ∙ new-inactive b e input m.events bef in
        cc idle
    go false p k = (
      k,
      ap is_active_event (
            sym (
              latest-old b.id_less i (candidate_event b e input ∷ []) m.events
                (ap (λ d. d || false) p)))
          ∙ a,
    )

add_candidate-HasOneActive :
    (b : Backend) (e : Entry) (input : StatusInput) (m : ModelTables)
    → AreBefore e.created_at m.events
    → HasOneActive b m
    → HasOneActive b (add_candidate b e input m)
unfolding HasOneActive add_candidate
add_candidate-HasOneActive b e input m bef inv i j x y k l t u v =
    let (k', u') = added-before b e input m i x bef k u in
    let (l', v') = added-before b e input m j y bef l v in inv i j x y k' l' t u' v'

registered-inj : {m m' : ModelTables} → registered m ≡ registered m' → m ≡ m'
registered-inj h = cc h

create_model-HasOneActive :
    (b : Backend) (e : Entry) (actor : String) (now : Time) (m m' : ModelTables)
    → AreBefore now m.events
    → HasOneActive b m
    → create_model b e actor now m ≡ registered m'
    → HasOneActive b m'
unfolding create_model create_if create_model_candidate completed_entry
create_model-HasOneActive b e actor now m m' bef inv h = go (entry_refusal b e actor) h
  where
    input : StatusInput
    input = record {
      status = candidate_;
      reason = "candidate registered; explicit review required";
      actor = actor;
    }

    added : HasOneActive b (add_candidate b (completed_entry b e now) input m)
    added = add_candidate-HasOneActive b (completed_entry b e now) input m bef inv

    inserted :
        (d : Bool)
        → (if d
            then not_registered not_inserted
            else registered (add_candidate b (completed_entry b e now) input m))
          ≡ registered m'
        → HasOneActive b m'
    inserted true k = cc k
    inserted false k = subst (HasOneActive b) (registered-inj k) added

    go : (o : Option ModelError) → create_if o b e actor now m ≡ registered m' → HasOneActive b m'
    go (some x) k = cc k
    go none k = inserted _ k

-- Changes of the registry, each later than the events before it; new identifiers are arbitrary.
pub data ModelRun (b : Backend) (m : ModelTables) : ModelTables → Type 0 where
  no_model_step : ModelRun b m m
  model_created :
      (m1 m2 : ModelTables) (new_id : String → String) (e : Entry) (actor : String) (now : Time)
      → ModelRun b m m1
      → AreBefore now m1.events
      → create_model (record b { new_id = new_id }) e actor now m1 ≡ registered m2
      → ModelRun b m m2
  model_moved :
      (m1 m2 : ModelTables) (new_id : String → String) (id : String) (input : StatusInput)
      (now : Time)
      → ModelRun b m m1
      → AreBefore now m1.events
      → transition_model (record b { new_id = new_id }) id input now m1 ≡ registered m2
      → ModelRun b m m2

-- Over any history of candidates that are registered and of statuses that are changed, each later
-- than the ones before, at most one model of each type is active, where that was so at first.
pub ModelRun-HasOneActive :
    (b : Backend) (m m' : ModelTables) → ModelRun b m m' → HasOneActive b m → HasOneActive b m'
unfolding HasOneActive is_active
ModelRun-HasOneActive b m m' no_model_step inv = inv
ModelRun-HasOneActive b m m' (model_created m1 m2 f e actor now r bef h) inv =
    create_model-HasOneActive (record b { new_id = f }) e actor now m1 m2 bef
      (ModelRun-HasOneActive b m m1 r inv) h
ModelRun-HasOneActive b m m' (model_moved m1 m2 f id input now r bef h) inv =
    transition_model-HasOneActive (record b { new_id = f }) id input now m1 m2 bef
      (ModelRun-HasOneActive b m m1 r inv) h
