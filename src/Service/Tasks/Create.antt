-- ===== src/Service/Tasks/Create.antt =====
-- internal/task/tasks.go: creating a task and starting its workflow.
pub mod Started
use orbit_control.Prelude.{
  ℕ, String, Bool, true, false, not, ◌&&◌, ◌||◌, Option, none, some, List, [], ◌∷◌, str_eq,
  if◌then◌else◌, Assoc, lookup, insert,
}
use orbit_control.Prelude.Int.{ℤ, pos}
use orbit_control.Outcome.{Error, invalid, Result, ok, err, ◌>>=◌, ◌>>◌}
use orbit_control.Text.{◌⧺◌, decimal}
use orbit_control.Lru.{Lru}
use orbit_control.Value.{Value, text, Fields, end, field}
use orbit_control.Policy
use orbit_control.Policy.{Policy, validate, smallest}
use orbit_control.Config
use orbit_control.Config.{ConfigInput, workflow_config}
use orbit_control.Service.{Principal, Task, Event, LocalConfig, Service}
use orbit_control.Service.Log.{append_event_raw}
use orbit_control.Service.Tasks.{clone_task}

pub record CreateInput : Type 0 where
  pub title : String
  pub goal : String
  pub mode : String
  pub profile : String
  pub sop : String
  pub budgets : Fields
  pub policy : Policy
  pub config : Option ConfigInput

-- orch.TaskWorkflowInput; `created_by` is the user's id, its kind is always "user".
pub record TaskWorkflowInput : Type 0 where
  pub task_id : String
  pub tenant_id : String
  pub created_by : String
  pub title : String
  pub goal : String
  pub mode : String
  pub profile : String
  pub sop : String
  pub node_type_registry_version : ℕ
  pub budgets : Fields
  pub policy : Policy
  pub config : Fields

-- orch.TaskWorkflowID
unfoldable pub task_workflow_id : String → String → String
task_workflow_id tenant_id task_id = "task/" ⧺ tenant_id ⧺ "/" ⧺ task_id

abbrev pub or_text : String → String → String
or_text s default = if str_eq s "" then default else s

check_required : Principal → CreateInput → Result (Unit {0})
check_required p in_ =
    if str_eq p.tenant_id "" || str_eq p.user_id "" || str_eq in_.title "" || str_eq in_.goal ""
    then err (invalid "tenant, user, title and goal are required")
    else ok tt

check_mode : String → Result (Unit {0})
check_mode mode =
    if str_eq mode "single" || str_eq mode "multi" || str_eq mode "long"
    then ok tt
    else err (invalid "mode must be single, multi or long")

-- The tighter of the task's and the tenant's layer in the two limits that the orchestrator reads.
pub workflow_policy : Policy → Policy → Policy
workflow_policy task tenant = record task {
  max_concurrency = smallest task.max_concurrency tenant.max_concurrency;
  max_review_rounds = smallest task.max_review_rounds tenant.max_review_rounds;
}

-- `none` where the service has no projection store, else what it answers for the tenant's policy.
with_tenant_policy : Option (Result Policy) → Policy → Result Policy
unfolding workflow_policy
with_tenant_policy none task = ok task
with_tenant_policy (some (err x)) task = err x
with_tenant_policy (some (ok tenant)) task = ok (workflow_policy task tenant)

abbrev pub default_config : ConfigInput
default_config = record {
  expert = "";
  skills = none;
  model = "";
  connectors = none;
  mode = "default";
  permissions = none;
  team = none;
}

config_of : Option ConfigInput → Result ConfigInput
config_of none = ok default_config
config_of (some c) = Config.normalized c

-- `if in.Profile == "default@1" && config.Expert != ""`
profile_of : String → Option ConfigInput → ConfigInput → String
profile_of profile none config = profile
profile_of profile (some _) config =
    if str_eq profile "default@1" && not (str_eq config.expert "") then config.expert else profile

-- What the checks and defaults of the first half come to.
pub record Prepared : Type 0 where
  pub task : Task
  pub start : TaskWorkflowInput
  pub config : ConfigInput

new_task : Principal → CreateInput → String → String → Policy → String → ℕ → Task
new_task p in_ mode profile policy id now = record {
  id = id;
  tenant_id = p.tenant_id;
  workflow_id = task_workflow_id p.tenant_id id;
  title = in_.title;
  goal = in_.goal;
  mode = mode;
  status = "CREATED";
  profile = profile;
  plan_version = pos 1;
  created_by = p.user_id;
  created_at = now;
  updated_at = now;
  budgets = in_.budgets;
  usage = end;
  pending_approvals = [];
  policy = policy;
}

start_input : Principal → CreateInput → Task → Policy → ConfigInput → TaskWorkflowInput
start_input p in_ t policy config = record {
  task_id = t.id;
  tenant_id = p.tenant_id;
  created_by = p.user_id;
  title = in_.title;
  goal = in_.goal;
  mode = t.mode;
  profile = t.profile;
  sop = in_.sop;
  node_type_registry_version = 1;
  budgets = in_.budgets;
  policy = policy;
  config = workflow_config config (pos 1);
}

-- `id` is the new id and `now` the clock's time.
unfoldable pub prepare :
    Option (Result Policy) → Principal → CreateInput → String → ℕ → Result Prepared
unfolding check_required check_mode with_tenant_policy config_of profile_of new_task start_input
prepare tenant p in_ id now = do
  check_required p in_
  let mode = or_text in_.mode "single"
  check_mode mode
  validate in_.policy
  let policy = Policy.normalized in_.policy
  for_workflow ← with_tenant_policy tenant policy
  config ← config_of in_.config
  let profile = profile_of (or_text in_.profile "default@1") in_.config config
  let task = new_task p in_ mode profile policy id now
  ok (record { task = task; start = start_input p in_ task for_workflow config; config = config })

-- What the calls answer: the tenant's policy and the row's insertion, where there is a store; the
-- store's append; the start of the workflow, where there is an orchestrator.
pub record Answers : Type 0 where
  pub tenant : Option (Result Policy)
  pub created : Option (Result (Unit {0}))
  pub append : Option (Event → Result Event)
  pub started : Option (Result (Unit {0}))

module _ (L : Lru (Unit {0})) (time_of : Value → Option ℕ) where
  open L use {Cache}

  -- The maps that `Create` fills for the new task.
  unfoldable pub register : Service Cache → Task → ConfigInput → Service Cache
  register s t config = record s {
    tasks = insert t.id t s.tasks;
    seen_message = insert t.id [] s.seen_message;
    next_seq = insert t.id 0 s.next_seq;
    entity_version = insert t.id [] s.entity_version;
    configs = insert t.id (record { version = pos 1; input = config }) s.configs;
  }

  start_failed : String → ℕ → Event
  start_failed id now = record {
    seq = 0;
    after_seq = 0;
    event_id = "evt_" ⧺ id ⧺ "_" ⧺ decimal now;
    task_id = id;
    tenant_id = "";
    type = "task.start_failed";
    source = "control";
    payload = some (field "message" (text "workflow unavailable") end);
    occurred = now;
    durable = true;
    entity_kind = "";
    entity_id = "";
    entity_version = 0;
    entity = none;
  }

  after_start : Answers → Service Cache → String → ℕ → Service Cache
  unfolding start_failed
  after_start a s id now = elim a.started [
    | none ↦ s
    | some (ok _) ↦ s
    | some (err _) ↦ (append_event_raw L time_of a.append s (start_failed id now) now now).0
  ]

  sent : Option (Result (Unit {0})) → TaskWorkflowInput → Option TaskWorkflowInput
  sent none start = none
  sent (some _) start = some start

  -- The task as it stands at the end: appending an event writes to the object in the map.
  current : Service Cache → Task → Task
  current s t = elim (lookup t.id s.tasks) [ none ↦ t | some u ↦ u ]

  create_prepared :
      Answers
      → Service Cache
      → Result Prepared
      → ℕ
      → Service Cache × Result Task × Option TaskWorkflowInput
  unfolding after_start sent current
  create_prepared a s (err x) now = (s, err x, none)
  create_prepared a s (ok r) now = elim a.created [
    | some (err x) ↦ (s, err x, none)
    | _ ↦ (
      after_start a (register s r.task r.config) r.task.id now,
      ok (clone_task (current (after_start a (register s r.task r.config) r.task.id now) r.task)),
      sent a.started r.start,
    )
  ]

  -- The third part is the input that the workflow was started with, if one was.
  unfoldable pub create :
      Answers
      → Service Cache
      → Principal
      → CreateInput
      → String
      → ℕ
      → Service Cache × Result Task × Option TaskWorkflowInput
  unfolding create_prepared
  create a s p in_ id now = create_prepared a s (prepare a.tenant p in_ id now) now
