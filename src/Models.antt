-- ===== src/Models.antt =====
-- The status of the models: backend/internal/modelregistry/service.go and
-- backend/internal/store/model_registry.go. The actor and the metrics, which are JSON, are texts,
-- and new identifiers, the JSON library and the database's order of identifiers are arguments.
pub mod Latest
pub mod Activation
pub mod Creation
pub mod Histories
use razorpay_ai_revenue_reco.Base.{
  ℕ, String, ◌≡◌, Bool, true, false, ◌&&◌, ◌||◌, not, Option, none, some, List, [], ◌∷◌, ◌++◌,
  str_eq,
}
use razorpay_ai_revenue_reco.Base.Tests.{◌==◌, ltb, if◌then◌else◌}
use Prim.Native.String.{◌++◌ as str_append}
use razorpay_ai_revenue_reco.Base.Lists.{any, find_first}
use razorpay_ai_revenue_reco.Base.Clock.{Time}

-- A status, or a text that is none.
pub data ModelStatus : Type 0 where
  candidate_ approved active_ retired rejected : ModelStatus
  no_status : String → ModelStatus

unfoldable pub is_active_status : ModelStatus → Bool
is_active_status active_ = true
is_active_status _ = false

-- The map `allowed` of `TransitionModelStatus`.
unfoldable pub allowed : ModelStatus → ModelStatus → Bool
allowed candidate_ approved = true
allowed candidate_ rejected = true
allowed approved active_ = true
allowed approved rejected = true
allowed active_ retired = true
allowed _ _ = false

-- `Entry`, less the status, which is not a column; a zero time is none.
pub record Entry : Type 0 where
  pub id : String
  pub model_version : String
  pub model_type : String
  pub feature_version : String
  pub training_dataset_version : String
  pub algorithm : String
  pub training_timestamp : Option Time
  pub validation_metrics : String
  pub calibration_metrics : String
  pub artifact_uri : String
  pub artifact_hash : String
  pub created_at : Time

pub record StatusInput : Type 0 where
  pub status : ModelStatus
  pub reason : String
  pub actor : String

-- A row of `model_registry_status_events`.
pub record StatusEvent : Type 0 where
  pub id : String
  pub registry_id : String
  pub status : ModelStatus
  pub reason : String
  pub actor : String
  pub occurred_at : Time

-- The two tables, the newest event first.
pub record ModelTables : Type 0 where
  pub entries : List Entry
  pub events : List StatusEvent

unfoldable pub entry_of : String → List Entry → Option Entry
entry_of id es = find_first (λ e. str_eq e.id id) es

-- What the database and the libraries do: its order of identifiers, the identifiers of new rows, by
-- what they are for, what is valid JSON, and which sets of training data there are.
pub record Backend : Type 0 where
  pub id_less : String → String → Bool
  pub new_id : String → String
  pub valid_json : String → Bool
  pub known_dataset : String → Bool

-- `ORDER BY occurred_at DESC,id DESC LIMIT 1`
unfoldable pub newer : (String → String → Bool) → StatusEvent → Option StatusEvent → StatusEvent
newer less e none = e
newer less e (some f) =
    if ltb f.occurred_at e.occurred_at || (f.occurred_at == e.occurred_at && less f.id e.id)
    then e
    else f

unfoldable pub latest : (String → String → Bool) → String → List StatusEvent → Option StatusEvent
unfolding newer
latest less id [] = none
latest less id (e ∷ es) =
    let rest = latest less id es in
    if str_eq e.registry_id id then some (newer less e rest) else rest

unfoldable pub is_active_event : Option StatusEvent → Bool
is_active_event none = false
is_active_event (some e) = is_active_status e.status

unfoldable pub is_active : Backend → String → List StatusEvent → Bool
is_active b id es = is_active_event (latest b.id_less id es)

-- The event that retires an older model, and those of all that the new one supersedes.
unfoldable pub retirement : Backend → String → StatusInput → Time → String → StatusEvent
retirement b id input now old = record {
  id = b.new_id old;
  registry_id = old;
  status = retired;
  reason = str_append "superseded by " id;
  actor = input.actor;
  occurred_at = now;
}

unfoldable pub is_superseded : Backend → Entry → List StatusEvent → Entry → Bool
is_superseded b e events old =
    str_eq old.model_type e.model_type && not (str_eq old.id e.id) && is_active b old.id events

unfoldable pub retirements :
    Backend → Entry → StatusInput → Time → List StatusEvent → List Entry → List StatusEvent
retirements b e input now events [] = []
retirements b e input now events (old ∷ olds) =
    let rest = retirements b e input now events olds in
    if is_superseded b e events old then retirement b e.id input now old.id ∷ rest else rest

unfoldable pub status_event : Backend → String → StatusInput → Time → StatusEvent
status_event b id input now = record {
  id = b.new_id "";
  registry_id = id;
  status = input.status;
  reason = input.reason;
  actor = input.actor;
  occurred_at = now;
}

pub data ModelError : Type 0 where
  no_entry status_conflict incomplete bad_metrics bad_actor bad_reason not_inserted : ModelError

-- The tables after an operation, or its error.
pub data Registered : Type 0 where
  registered : ModelTables → Registered
  not_registered : ModelError → Registered

unfoldable pub write_status : Backend → Entry → StatusInput → Time → ModelTables → ModelTables
write_status b e input now m = record m {
  events =
      status_event b e.id input now
        ∷ (if is_active_status input.status
            then retirements b e input now m.events m.entries
            else [])
      ++ m.events;
}

-- What follows the query of the entry and of its status.
unfoldable pub transition_found :
    Backend → Option Entry → Option StatusEvent → StatusInput → Time → ModelTables → Registered
transition_found b none c input now m = not_registered no_entry
transition_found b (some e) none input now m = not_registered no_entry
transition_found b (some e) (some c) input now m =
    if allowed c.status input.status
    then registered (write_status b e input now m)
    else not_registered status_conflict

-- `TransitionModelStatus`
unfoldable pub transition_model_status :
    Backend → String → StatusInput → Time → ModelTables → Registered
transition_model_status b id input now m =
    transition_found b (entry_of id m.entries) (latest b.id_less id m.events) input now m

-- `Service.Transition`
unfoldable pub transition_model : Backend → String → StatusInput → Time → ModelTables → Registered
transition_model b id input now m =
    if str_eq input.reason "" || str_eq input.actor "" || not (b.valid_json input.actor)
    then not_registered bad_reason
    else transition_model_status b id input now m
