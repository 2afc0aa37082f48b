-- ===== src/Service.antt =====
-- internal/task/types.go and service.go: the data of the task service and its state. Times are
-- nanoseconds, 0 is the zero time; a Go map is an association list and a missing key reads as the
-- value's zero. A section's parameter `L` is the cache of golang-lru.
pub mod Manifests
pub mod Append
pub mod Log
pub mod Replay
pub mod Tasks
pub mod Profiles
pub mod Settings
pub mod Configs
pub mod Commands
pub mod ConfigUpdates
pub mod Mentions
pub mod Reconcile
pub mod Plan
pub mod Artifacts
pub mod Subscribers
use orbit_control.Prelude.{
  ℕ, String, Bool, Option, none, some, List, [], ◌∷◌, Assoc, lookup, str_eq,
}
use orbit_control.Prelude.Int.{ℤ}
use orbit_control.Value.{Value, Values, Fields}
use orbit_control.Policy.{Policy}
use orbit_control.Permissions.{UserSettings}
use orbit_control.Config.{ConfigInput}

pub record Principal : Type 0 where
  pub tenant_id : String
  pub user_id : String

pub record Task : Type 0 where
  pub id : String
  pub tenant_id : String
  pub workflow_id : String
  pub title : String
  pub goal : String
  pub mode : String
  pub status : String
  pub profile : String
  pub plan_version : ℤ
  pub created_by : String
  pub created_at : ℕ
  pub updated_at : ℕ
  pub budgets : Fields
  pub usage : Fields
  pub pending_approvals : List String
  pub policy : Policy

pub record ProfileFile : Type 0 where
  pub path : String
  pub content : String
  pub sha256 : String

pub record Profile : Type 0 where
  pub profile_id : String
  pub version : ℤ
  pub ref : String
  pub spec : Fields
  pub created_at : ℕ
  pub files : List ProfileFile

pub record ManifestOmitted : Type 0 where
  pub count : ℤ
  pub bytes : ℤ
  pub reasons : List (String × ℤ)

pub record ArtifactManifest : Type 0 where
  pub manifest_id : String
  pub task_id : String
  pub attempt_id : String
  pub entries : List Fields
  pub omitted : Option ManifestOmitted
  pub hash : String
  pub created_at : ℕ

-- `Entity` of an event: its kind, id and version.
pub record Entity : Type 0 where
  pub kind : String
  pub id : String
  pub version : ℕ

-- `payload` is what the raw JSON decodes to as an object, `none` where it does not. An entity
-- version is never negative in what a writer sends; the code treats a negative one as 0.
pub record Event : Type 0 where
  pub seq : ℕ
  pub after_seq : ℕ
  pub event_id : String
  pub task_id : String
  pub tenant_id : String
  pub type : String
  pub source : String
  pub payload : Option Fields
  pub occurred : ℕ
  pub durable : Bool
  pub entity_kind : String
  pub entity_id : String
  pub entity_version : ℕ
  pub entity : Option Entity

-- A subscriber's channel: what is queued in it and how much it takes; `id` is its address.
pub record Subscriber : Type 0 where
  pub id : ℕ
  pub queued : List Event
  pub capacity : ℕ
  pub closed : Bool

pub record LocalConfig : Type 0 where
  pub version : ℤ
  pub input : ConfigInput

-- The fields of `Service` that its methods change; the orchestrator, the projection store, the
-- ledger and the log are arguments of the methods that call them.
pub record Service (Seen : Type 0) : Type 0 where
  pub tasks : Assoc Task
  pub events : Assoc (List Event)
  pub subs : Assoc (List Subscriber)
  pub seen_message : Assoc (Assoc ℕ)
  pub next_seq : Assoc ℕ
  pub seen_events : Seen
  pub entity_version : Assoc (Assoc ℕ)
  pub profiles : Assoc (Assoc Profile)
  pub configs : Assoc LocalConfig
  pub user_settings : Assoc UserSettings
  pub manifests : Assoc ArtifactManifest
  pub max_events : ℕ

abbrev pub or_zero : Option ℕ → ℕ
or_zero none = 0
or_zero (some n) = n

abbrev pub or_empty {ℓ} : {A : Type ℓ} → Option (List A) → List A
or_empty none = []
or_empty (some xs) = xs

-- NewWithProjection
unfoldable pub new : {Seen : Type 0} → Seen → Service Seen
new seen = record {
  tasks = [];
  events = [];
  subs = [];
  seen_message = [];
  next_seq = [];
  seen_events = seen;
  entity_version = [];
  profiles = [];
  configs = [];
  user_settings = [];
  manifests = [];
  max_events = 5000;
}

unfoldable pub is_closed : String → Bool
is_closed status = str_eq status "CANCELLED"
