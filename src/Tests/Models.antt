-- ===== src/Tests/Models.antt =====
-- A registry with one model that is in use and a second one that takes its place.
use razorpay_ai_revenue_reco.Base.{String, refl, true, none, [], arith}
use razorpay_ai_revenue_reco.Base.Tests.{ltb_text}
use razorpay_ai_revenue_reco.Base.Clock.{Time}
use razorpay_ai_revenue_reco.Models.{
  ModelStatus, approved, active_, Entry, StatusInput, ModelTables, Backend, entry_of, Registered,
  registered, transition_model, transition_model_status, transition_found, write_status,
  status_event, retirements, is_superseded, latest, allowed, is_active_status,
}
use razorpay_ai_revenue_reco.Models.Creation.{
  collides, create_model, create_model_candidate, completed_entry, entry_refusal, add_candidate,
  candidate_event,
}
use razorpay_ai_revenue_reco.Models.Activation.{HasOneActive}
use razorpay_ai_revenue_reco.Models.Histories.{
  ModelRun, no_model_step, model_created, model_moved, ModelRun-HasOneActive,
}

abbrev backend : Backend
backend = record {
  id_less = ltb_text;
  new_id = λ s. s;
  valid_json = λ s. true;
  known_dataset = λ s. true;
}

abbrev model : String → Entry
model version = record {
  id = "";
  model_version = version;
  model_type = "recovery";
  feature_version = "f";
  training_dataset_version = "d";
  algorithm = "a";
  training_timestamp = none;
  validation_metrics = "{}";
  calibration_metrics = "{}";
  artifact_uri = "u";
  artifact_hash = "h";
  created_at = 0;
}

abbrev to_status : ModelStatus → StatusInput
to_status s = record { status = s; reason = "r"; actor = "op" }

abbrev empty : ModelTables
empty = record { entries = []; events = [] }

abbrev tables_of : Registered → ModelTables
tables_of (registered m) = m
tables_of _ = empty

abbrev created : String → Time → ModelTables → ModelTables
created id now m =
    tables_of (create_model (record backend { new_id = λ s. id }) (model id) "op" now m)

abbrev moved : String → ModelStatus → Time → ModelTables → ModelTables
moved id s now m =
    tables_of (transition_model (record backend { new_id = λ s. id }) id (to_status s) now m)

abbrev first_active : ModelTables
first_active = moved "m1" active_ 3 (moved "m1" approved 2 (created "m1" 1 empty))

abbrev second_approved : ModelTables
second_approved = moved "m2" approved 5 (created "m2" 4 first_active)

abbrev second_active : ModelTables
second_active = moved "m2" active_ 6 second_approved

history : ModelRun backend empty second_active
unfolding create_model create_model_candidate completed_entry entry_refusal transition_model
    transition_model_status transition_found entry_of add_candidate latest candidate_event allowed
    write_status status_event is_active_status collides retirements is_superseded
history =
    model_moved second_approved second_active (λ s. "m2") "m2" (to_status active_) 6
      (model_moved (created "m2" 4 first_active) second_approved (λ s. "m2") "m2"
        (to_status approved) 5
        (model_created first_active (created "m2" 4 first_active) (λ s. "m2") (model "m2") "op" 4
          (model_moved (moved "m1" approved 2 (created "m1" 1 empty)) first_active (λ s. "m1") "m1"
            (to_status active_) 3
            (model_moved (created "m1" 1 empty) (moved "m1" approved 2 (created "m1" 1 empty))
              (λ s. "m1") "m1" (to_status approved) 2
              (model_created empty (created "m1" 1 empty) (λ s. "m1") (model "m1") "op" 1
                no_model_step tt refl)
              (omega arith, tt) refl)
            (omega arith, (omega arith, tt)) refl)
          (omega arith, (omega arith, (omega arith, tt))) refl)
        (omega arith, (omega arith, (omega arith, (omega arith, tt)))) refl)
      (omega arith, (omega arith, (omega arith, (omega arith, (omega arith, tt))))) refl

nothing_active : HasOneActive backend empty
unfolding HasOneActive entry_of
nothing_active i j x y k l t u v = cc k

ModelRun-HasOneActive_example : HasOneActive backend second_active
ModelRun-HasOneActive_example =
    ModelRun-HasOneActive backend empty second_active history nothing_active
