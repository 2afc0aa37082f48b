-- ===== src/Service/Commands.antt =====
-- internal/task/commands.go and projection_apply.go: sending a command to a task's workflow, once per
-- command id. What the orchestrator and the stores answer are arguments. The JSON texts that the
-- ledger keeps are made and read by encoding/json, `encode` and `decode`; `request_hash` is the
-- SHA-256 over the command's name and its payload.
pub mod Retried
pub mod Reopened
use orbit_control.Prelude.{
  ℕ, String, Bool, true, false, ◌&&◌, ◌||◌, Option, none, some, List, [], ◌∷◌, Assoc, lookup,
  insert, str_eq, if◌then◌else◌,
}
use orbit_control.Prelude.Int.{ℤ}
use orbit_control.Outcome.{Error, closed, refusal, Result, ok, err}
use orbit_control.Text.{◌⧺◌, decimal}
use orbit_control.Lru.{Lru}
use orbit_control.Value.{
  Value, null, object, Fields, get, as_text, as_number, as_object, text_or_empty,
}
use orbit_control.Ledger.{command_lease}
use orbit_control.Ledger.Interface.{CommandLedger}
use orbit_control.Service.{Principal, Task, Event, Service, is_closed}
use orbit_control.Service.Log.{append_event_raw}
use orbit_control.Service.Tasks
use orbit_control.Service.Configs.{ConfigUpdateResult, run_config_update}

unfoldable pub command_key : Principal → String → String → String
command_key p task_id command_id = p.tenant_id ⧺ "/" ⧺ task_id ⧺ "/" ⧺ command_id

pub map_orch_err : Error → Error
map_orch_err (refusal kind message) =
    if str_eq kind "TASK_CLOSED" then closed else refusal kind message
map_orch_err x = x

-- The event that a local message is appended as.
pub update_event : String → Option Fields → ℕ → Event
update_event id payload now = record {
  seq = 0;
  after_seq = 0;
  event_id = "evt_" ⧺ id ⧺ "_" ⧺ decimal now;
  task_id = id;
  tenant_id = "";
  type = "message.user";
  source = "control";
  payload = payload;
  occurred = now;
  durable = true;
  entity_kind = "";
  entity_id = "";
  entity_version = 0;
  entity = none;
}

-- The status that a control action leaves where there is no orchestrator.
pub local_status : String → String → String
local_status action status =
    if str_eq action "cancel"
    then "CANCELLED"
    else if str_eq action "pause"
    then "PAUSED"
    else if str_eq action "resume"
    then "RUNNING"
    else status

control_local : String → Option Fields → Task → Task
unfolding local_status
control_local name none t = t
control_local name (some raw) t =
    if str_eq name "control"
    then record t { status = local_status (text_or_empty (get "action" raw)) t.status }
    else t

-- The message to append: the payload of a `sendMessage` that is not null.
message_of : String → Value → Option Value
message_of name null = none
message_of name payload = if str_eq name "sendMessage" then some payload else none

with_status : Option String → Task → Task
with_status none t = t
with_status (some status) t = record t { status = status }

with_plan : Option ℤ → Task → Task
with_plan none t = t
with_plan (some version) t = record t { plan_version = version }

apply_body : String → Fields → ℕ → Task → Task
unfolding with_status with_plan
apply_body name body now t =
    let controlled =
      if str_eq name "control" then with_status (as_text (get "status" body)) t else t in
    record (with_plan (as_number (get "plan_version" body)) controlled) { updated_at = now }

-- What the calls of one command answer, and the times at which they run. `check` is `none` where the
-- caller gives no check.
pub record Answers : Type 0 where
  pub found : Option (Result Task)
  pub owner : String
  pub claimed_at : ℕ
  pub check : Option (Result (Unit {0}))
  pub updated : Option (Result String)
  pub append : Option (Event → Result Event)
  pub applied_at : ℕ
  pub completed_at : ℕ

-- The answer, with what was run to get it: the check, and the command.
pub record Done : Type 0 where
  pub answer : Result String
  pub checked : Bool
  pub ran : Bool

abbrev pub refused : Error → Done
refused x = record { answer = err x; checked = false; ran = false }

abbrev pub forget_answer : Result String → Result (Unit {0})
forget_answer (err x) = err x
forget_answer (ok raw) = ok tt

-- `isClosed(t.Status) && (name == "sendMessage" || name == "updateTaskConfig")`
unfoldable pub is_refused : Task → String → Bool
is_refused t name =
    is_closed t.status && (str_eq name "sendMessage" || str_eq name "updateTaskConfig")

module _ (L : Lru (Unit {0})) (time_of : Value → Option ℕ) (decode : String → Option Fields)
    (encode : ConfigUpdateResult → String) where
  open L use {Cache}

  local_found : Option Task → Service Cache → String → String → Value → ℕ → Service Cache
  unfolding control_local
  local_found none s id name payload now = s
  local_found (some t) s id name payload now = record s {
    tasks =
        insert id (record (control_local name (as_object (some payload)) t) { updated_at = now })
          s.tasks;
  }

  append_message :
      Option Task
      → Option Value
      → Option (Event → Result Event)
      → Service Cache
      → String
      → ℕ
      → Service Cache
  unfolding update_event
  append_message (some t) (some message) append s id now =
      (append_event_raw L time_of append s (update_event id (as_object (some message)) now) now
        now).0
  append_message _ _ append s id now = s

  pub apply_local_update :
      Option (Event → Result Event) → Service Cache → String → String → Value → ℕ → Service Cache
  unfolding local_found append_message message_of
  apply_local_update append s id name payload now =
      let t = lookup id s.tasks in
      append_message t (message_of name payload) append (local_found t s id name payload now) id now

  project_body : Option Task → Option Fields → Service Cache → String → String → ℕ → Service Cache
  unfolding apply_body
  project_body (some t) (some body) s id name now = record s {
    tasks = insert id (apply_body name body now t) s.tasks;
  }
  project_body _ _ s id name now = s

  pub apply_update_projection : Service Cache → String → String → String → ℕ → Service Cache
  unfolding project_body
  apply_update_projection s id name raw now =
      project_body (lookup id s.tasks) (decode raw) s id name now

  encoded : Service Cache × Result ConfigUpdateResult → Service Cache × Result String
  encoded (s, err x) = (s, err x)
  encoded (s, ok r) = (s, ok (encode r))

  forget_all : Option (Result String) → Option (Result (Unit {0}))
  forget_all none = none
  forget_all (some answer) = some (forget_answer answer)

  run_plain : Answers → Service Cache → String → String → Value → Service Cache × Result String
  unfolding apply_local_update apply_update_projection
  run_plain a s id name payload = elim a.updated [
    | none ↦ (apply_local_update a.append s id name payload a.applied_at, ok "{\"accepted\":true}")
    | some (err x) ↦ (s, err x)
    | some (ok raw) ↦ (apply_update_projection s id name raw a.applied_at, ok raw)
  ]

  -- runUpdate
  unfoldable pub run_update :
      Answers → Service Cache → String → String → Value → Service Cache × Result String
  unfolding encoded forget_all run_plain
  run_update a s id name (object config) =
      if str_eq name "updateTaskConfig"
      then encoded (run_config_update (forget_all a.updated) s id config)
      else run_plain a s id name (object config)
  run_update a s id name payload = run_plain a s id name payload

  module _ (G : CommandLedger) (request_hash : String → Value → String) where
    open G use {State, claim_command, complete_command, release_command}

    -- The service and the ledger that it calls.
    abbrev pub Server : Type 0
    Server = Service Cache × State

    completed : Service Cache → State × Result (Unit {0}) → String → String → String → Server × Done
    completed s (g, err x) key owner raw =
        ((s, release_command g key owner), record { answer = err x; checked = false; ran = true })
    completed s (g, ok done) key owner raw =
        ((s, g), record { answer = ok raw; checked = false; ran = true })

    after_run : Answers → Service Cache × Result String → State → String → Server × Done
    unfolding completed map_orch_err
    after_run a (s, err x) g key = (
      (s, release_command g key a.owner),
      record { answer = err (map_orch_err x); checked = false; ran = true },
    )
    after_run a (s, ok raw) g key =
        completed s (complete_command g key a.owner raw a.completed_at) key a.owner raw

    with_check : Server × Done → Server × Done
    with_check (server, done) = (server, record done { checked = true })

    -- `ran` is what the command comes to; it is not run after a check that fails.
    checked_run :
        Option (Result (Unit {0}))
        → Answers
        → Service Cache
        → Service Cache × Result String
        → State
        → String
        → Server × Done
    unfolding after_run with_check
    checked_run none a s ran g key = after_run a ran g key
    checked_run (some (err x)) a s ran g key =
        ((s, release_command g key a.owner), record { answer = err x; checked = true; ran = false })
    checked_run (some (ok passed)) a s ran g key = with_check (after_run a ran g key)

    after_claim :
        Answers
        → Service Cache
        → State × Result (Option String)
        → String
        → String
        → String
        → Value
        → Server × Done
    unfolding checked_run
    after_claim a s (g, err x) key id name payload = ((s, g), refused x)
    after_claim a s (g, ok (some stored)) key id name payload =
        ((s, g), record { answer = ok stored; checked = false; ran = false })
    after_claim a s (g, ok none) key id name payload =
        checked_run a.check a s (run_update a s id name payload) g key

    after_get :
        Answers
        → Service Cache × Result Task
        → State
        → Principal
        → String
        → String
        → String
        → Value
        → Server × Done
    unfolding is_refused after_claim
    after_get a (s, err x) g p id name command_id payload = ((s, g), refused x)
    after_get a (s, ok t) g p id name command_id payload =
        let key = command_key p id command_id in
        let claimed =
          claim_command g key (request_hash name payload) a.owner command_lease a.claimed_at in
        if is_refused t name
        then ((s, g), refused closed)
        else after_claim a s claimed key id name payload

    -- UpdateChecked; `Update` is the same without a check.
    unfoldable pub update_checked :
        Answers → Server → Principal → String → String → String → Value → Server × Done
    unfolding after_get
    update_checked a (s, g) p id name command_id payload =
        after_get a (Tasks.get a.found s p id) g p id name command_id payload
