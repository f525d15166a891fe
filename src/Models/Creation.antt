-- ===== src/Models/Creation.antt =====
-- The registration of a candidate: `Create` of backend/internal/modelregistry/service.go and
-- `CreateModelCandidate` of backend/internal/store/model_registry.go.
use razorpay_ai_revenue_reco.Base.{String, Bool, ◌||◌, not, Option, none, some, [], ◌∷◌, str_eq}
use razorpay_ai_revenue_reco.Base.Tests.{if◌then◌else◌}
use razorpay_ai_revenue_reco.Base.Lists.{any}
use razorpay_ai_revenue_reco.Base.Clock.{Time}
use razorpay_ai_revenue_reco.Models.{
  candidate_, Entry, StatusInput, StatusEvent, ModelTables, Backend, ModelError, incomplete,
  bad_metrics, bad_actor, not_inserted, Registered, registered, not_registered,
}

unfoldable pub candidate_event : Backend → Entry → StatusInput → StatusEvent
candidate_event b e input = record {
  id = b.new_id "";
  registry_id = e.id;
  status = candidate_;
  reason = input.reason;
  actor = input.actor;
  occurred_at = e.created_at;
}

unfoldable pub add_candidate : Backend → Entry → StatusInput → ModelTables → ModelTables
add_candidate b e input m = record {
  entries = e ∷ m.entries;
  events = candidate_event b e input ∷ m.events;
}

-- The identifier is the key of the table, and the version of a model is unique.
unfoldable pub collides : Entry → Entry → Bool
collides e f = str_eq f.id e.id || str_eq f.model_version e.model_version

-- `CreateModelCandidate`; the set of training data must be known.
unfoldable pub create_model_candidate : Backend → Entry → StatusInput → ModelTables → Registered
create_model_candidate b e input m =
    if any (collides e) m.entries || not (b.known_dataset e.training_dataset_version)
    then not_registered not_inserted
    else registered (add_candidate b e input m)

or_now : Option Time → Time → Option Time
or_now none now = some now
or_now (some t) now = some t

unfoldable pub completed_entry : Backend → Entry → Time → Entry
unfolding or_now
completed_entry b e now = record e {
  id = b.new_id "entry";
  created_at = now;
  training_timestamp = or_now e.training_timestamp now;
}

-- The checks of `Service.Create`; `none` is no refusal.
unfoldable pub entry_refusal : Backend → Entry → String → Option ModelError
entry_refusal b e actor =
    if any (λ t. str_eq t "")
      (e.model_version ∷ e.model_type ∷ e.feature_version ∷ e.training_dataset_version ∷ e.algorithm
        ∷ e.artifact_uri ∷ e.artifact_hash ∷ [])
    then some incomplete
    else if not (b.valid_json e.validation_metrics) || not (b.valid_json e.calibration_metrics)
    then some bad_metrics
    else if str_eq actor "" || not (b.valid_json actor)
    then some bad_actor
    else none

unfoldable pub create_if :
    Option ModelError → Backend → Entry → String → Time → ModelTables → Registered
create_if (some x) b e actor now m = not_registered x
create_if none b e actor now m =
    create_model_candidate b (completed_entry b e now)
      (record {
        status = candidate_;
        reason = "candidate registered; explicit review required";
        actor = actor;
      })
      m

-- `Service.Create`
unfoldable pub create_model : Backend → Entry → String → Time → ModelTables → Registered
unfolding create_if
create_model b e actor now m = create_if (entry_refusal b e actor) b e actor now m
