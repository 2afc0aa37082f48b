-- ===== src/Projector.antt =====
-- internal/task/projector.go: appending the rows of the runtime's outbox to the tasks' logs. What the
-- store answers is an argument; a row's body is the JSON object it decodes to, `none` where it is
-- none, and `time_of` decodes a JSON value as a time. The loops of `Run` and `run`, which wait and
-- try again, call `project` over and over.
pub mod Batch
use orbit_control.Prelude.{
  ℕ, String, Bool, true, false, not, Option, none, some, List, [], ◌∷◌, ◌++◌, str_eq, if◌then◌else◌,
}
use orbit_control.Prelude.Int.{ℤ, pos_part}
use orbit_control.Outcome.{Error, malformed_event, encoding, Result, ok, err}
use orbit_control.Lru.{Lru}
use orbit_control.Value.{Value, null, text, object, Fields, end, get, as_object}
use orbit_control.Service.{Event, Service}
use orbit_control.Service.Manifests.{decode_text, decode_int, decode_time, ◌>>=◌}
use orbit_control.Service.Log.{append_event_raw}

pub record OutboxRecord : Type 0 where
  pub id : ℕ
  pub tenant_id : String
  pub task_id : String
  pub event_id : String
  pub body : Option Fields

-- The field `entity` of the body: an object, or left out.
decode_entity : Option Value → Option Fields
decode_entity none = some end
decode_entity (some null) = some end
decode_entity (some (object fs)) = some fs
decode_entity (some _) = none

-- `body.F == ""`
or_text : String → String → String
or_text s given = if str_eq s "" then given else s

kind_or : String → Option String → String
kind_or given none = given
kind_or given (some kind) = if str_eq kind "" then given else kind

-- A source that is a text, or an object with a kind; the text of null is empty.
pub source_of : Option Value → String
unfolding kind_or decode_text
source_of none = "workflow"
source_of (some null) = ""
source_of (some (text source)) = source
source_of (some (object fs)) = kind_or "workflow" (decode_text (get "kind" fs))
source_of (some _) = "workflow"

-- What a batch did: the rows that were dropped, the events that were handed to the store, the ids
-- that were marked, and the answer.
pub record Projected : Type 0 where
  pub dropped : List (OutboxRecord × Error)
  pub stored : List Event
  pub marked : Option (List ℕ)
  pub answer : Result (Unit {0})

-- What the loop over the rows leaves.
pub record Looped : Type 0 where
  pub lost : List (OutboxRecord × Error)
  pub handed : List Event
  pub ids : Result (List ℕ)

abbrev handed_to : Option Event → List Event
handed_to none = []
handed_to (some e) = e ∷ []

abbrev pub with_id : ℕ → Result (List ℕ) → Result (List ℕ)
with_id id (err x) = err x
with_id id (ok ids) = ok (id ∷ ids)

abbrev pub is_malformed : Error → Bool
is_malformed malformed_event = true
is_malformed _ = false

-- One more row in front of what the rest of the loop does.
pub kept_row : OutboxRecord → Option Event → Looped → Looped
kept_row row e rest = record rest {
  handed = handed_to e ++ rest.handed;
  ids = with_id row.id rest.ids;
}

pub dropped_row : OutboxRecord → Error → Option Event → Looped → Looped
unfolding kept_row
dropped_row row x e rest = record (kept_row row e rest) { lost = (row, x) ∷ rest.lost }

pub stopped : Error → Option Event → Looped
stopped x e = record { lost = []; handed = handed_to e; ids = err x }

abbrev pub marked_ids : Result (List ℕ) → Option (List ℕ)
marked_ids (err x) = none
marked_ids (ok ids) = some ids

abbrev pub mark_answer : (List ℕ → Result (Unit {0})) → Result (List ℕ) → Result (Unit {0})
mark_answer mark (err x) = err x
mark_answer mark (ok ids) = mark ids

pub marked_all : (List ℕ → Result (Unit {0})) → Looped → Projected
marked_all mark looped = record {
  dropped = looped.lost;
  stored = looped.handed;
  marked = marked_ids looped.ids;
  answer = mark_answer mark looped.ids;
}

module _ (time_of : Value → Option ℕ) where
  -- The event of a row, if its body decodes.
  unfoldable pub event_of : OutboxRecord → Option Event
  unfolding decode_text decode_int decode_time decode_entity or_text source_of
  event_of row = do
    body ← row.body
    tenant_id ← decode_text (get "tenant_id" body)
    event_id ← decode_text (get "event_id" body)
    task_id ← decode_text (get "task_id" body)
    type_ ← decode_text (get "type" body)
    occurred ← decode_time time_of (get "occurred_at" body)
    retention ← decode_text (get "retention" body)
    entity ← decode_entity (get "entity" body)
    kind ← decode_text (get "kind" entity)
    id ← decode_text (get "id" entity)
    version ← decode_int (get "version" entity)
    some (record {
      seq = 0;
      after_seq = 0;
      event_id = or_text event_id row.event_id;
      task_id = or_text task_id row.task_id;
      tenant_id = or_text tenant_id row.tenant_id;
      type = type_;
      source = source_of (get "source" body);
      payload = as_object (get "payload" body);
      occurred = occurred;
      durable = not (str_eq retention "ephemeral");
      entity_kind = kind;
      entity_id = id;
      entity_version = pos_part version;
      entity = none;
    })

  module _ (L : Lru (Unit {0})) where
    open L use {Cache}

    -- `append` is the store's append, and `clock` what the clock reads while a row is appended.
    module _ (append : Option (Event → Result Event)) (clock : OutboxRecord → ℕ × ℕ) where
      pub append_row :
          Service Cache → OutboxRecord → Event → Service Cache × Result (Unit {0}) × Option Event
      append_row s row e = append_event_raw L time_of append s e (clock row).0 (clock row).1

      appended :
          Service Cache × Result (Unit {0}) × Option Event
          → OutboxRecord
          → (Service Cache → Service Cache × Looped)
          → Service Cache × Looped
      unfolding kept_row dropped_row stopped
      appended (s, ok done, e) row rest = ((rest s).0, kept_row row e (rest s).1)
      appended (s, err x, e) row rest =
          if is_malformed x then ((rest s).0, dropped_row row x e (rest s).1) else (s, stopped x e)

      -- A row whose body does not decode is dropped with the decoder's error; `rest` is the loop over
      -- the rows behind it.
      project_row :
          Option Event
          → Service Cache
          → OutboxRecord
          → (Service Cache → Service Cache × Looped)
          → Service Cache × Looped
      unfolding appended append_row dropped_row
      project_row none s row rest = ((rest s).0, dropped_row row encoding none (rest s).1)
      project_row (some e) s row rest = appended (append_row s row e) row rest

      pub project_rows : Service Cache → List OutboxRecord → Service Cache × Looped
      unfolding project_row event_of
      project_rows s [] = (s, record { lost = []; handed = []; ids = ok [] })
      project_rows s (row ∷ rows) = project_row (event_of row) s row (λ s'. project_rows s' rows)

      project_loop :
          (List ℕ → Result (Unit {0})) → Service Cache × Looped → Service Cache × Projected
      unfolding marked_all
      project_loop mark (s, looped) = (s, marked_all mark looped)

      -- `claimed` is what the store answers to the claim of a batch, and `mark` to marking its ids.
      unfoldable pub project :
          Result (List OutboxRecord)
          → (List ℕ → Result (Unit {0}))
          → Service Cache
          → Service Cache × Projected
      unfolding project_rows project_loop
      project (err x) mark s =
          (s, record { dropped = []; stored = []; marked = none; answer = err x })
      project (ok []) mark s =
          (s, record { dropped = []; stored = []; marked = none; answer = ok tt })
      project (ok (row ∷ rows)) mark s = project_loop mark (project_rows s (row ∷ rows))
