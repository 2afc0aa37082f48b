-- ===== src/Service/Configs.antt =====
-- internal/task/config.go: reading a task's configuration and replacing it. What the orchestrator
-- answers is an argument, `none` where the service has none.
pub mod Replaced
use orbit_control.Prelude.{
  String, not, Option, none, some, List, [], ◌∷◌, map, Assoc, lookup, insert, if◌then◌else◌,
}
use orbit_control.Prelude.Int.{ℤ, pos, ◌+ℤ◌, eqb_ℤ}
use orbit_control.Outcome.{Error, config_conflict, Result, ok, err}
use orbit_control.Value.{
  Value, number, text, Values, nil, cons, Fields, end, field, get, without, as_number, as_text,
  as_list, text_or_empty,
}
use orbit_control.Permissions.{permissions_from_workflow}
use orbit_control.Config.{
  ConfigTeamMember, ConfigTeam, ConfigInput, ConfigView, normalized, workflow_config, view,
  team_from_workflow, config_from_workflow, option_map, texts_of, entry_of,
}
use orbit_control.Service.{Principal, Task, Profile, LocalConfig, Service}
use orbit_control.Service.Tasks
use orbit_control.Service.Tasks.Create.{default_config}

-- `if profile, err := s.GetProfile(…); err == nil`
named : ConfigTeamMember → Result Profile → ConfigTeamMember
named m (err x) = m
named m (ok q) = record m { name = text_or_empty (get "name" q.spec) }

name_members : (String → Result Profile) → List ConfigTeamMember → List ConfigTeamMember
unfolding named
name_members read [] = []
name_members read (m ∷ ms) = named m (read m.expert) ∷ name_members read ms

named_team : (String → Result Profile) → Option ConfigTeam → Option ConfigTeam
unfolding name_members
named_team read none = none
named_team read (some t) = some (record t { members = name_members read t.members })

-- withMemberNames; `read` is `GetProfile` for the caller.
unfoldable pub with_member_names : (String → Result Profile) → ConfigView → ConfigView
unfolding named_team
with_member_names read v = record v { team = named_team read v.team }

pub record ConfigUpdateResult : Type 0 where
  pub version : ℤ
  pub effective : String

-- The configuration that a payload holds. `mode` is a text in every payload that is made; the lists
-- are the slices that `workflowConfig` put there.
abbrev pub objects_of : Values → List Fields
objects_of nil = []
objects_of (cons v vs) = entry_of v ∷ objects_of vs

pub input_of : Fields → ConfigInput
input_of payload = record {
  expert = text_or_empty (get "expert" payload);
  skills = option_map texts_of (as_list (get "skills" payload));
  model = text_or_empty (get "model" payload);
  connectors = option_map objects_of (as_list (get "connectors" payload));
  mode = text_or_empty (get "mode" payload);
  permissions = permissions_from_workflow (get "permissions" payload);
  team = team_from_workflow (get "team" payload);
}

-- the version that a missing copy has
pub current_version : Option LocalConfig → ℤ
current_version none = pos 1
current_version (some c) = c.version

abbrev pub or_zero_number : Option ℤ → ℤ
or_zero_number none = pos 0
or_zero_number (some n) = n

-- What `UpdateTaskConfig` sends.
pub update_payload : String → ℤ → ConfigInput → Fields
update_payload command_id base input = field "command_id" (text command_id) (
    field "base_config_version" (number base)
      (without "config_version" (workflow_config input (pos 0))))

-- The answer where there is no orchestrator.
local_view : Option LocalConfig → (String → Result Profile) → ConfigView
local_view none read = view default_config (pos 1)
local_view (some c) read = with_member_names read (view c.input c.version)

module _ {Seen : Type 0} where
  config_found :
      Option (Result Fields)
      → (String → Result Profile)
      → Service Seen × Result Task
      → String
      → Service Seen × Result ConfigView
  unfolding local_view
  config_found shown read (s, err x) id = (s, err x)
  config_found none read (s, ok t) id = (s, ok (local_view (lookup id s.configs) read))
  config_found (some (err x)) read (s, ok t) id = (s, err x)
  config_found (some (ok config)) read (s, ok t) id =
      (s, ok (with_member_names read (config_from_workflow config)))

  -- TaskConfig; `shown` is the configuration in what the workflow's query answers.
  unfoldable pub task_config :
      Option (Result Task)
      → Option (Result Fields)
      → (String → Result Profile)
      → Service Seen
      → Principal
      → String
      → Service Seen × Result ConfigView
  unfolding config_found
  task_config found shown read s p id = config_found shown read (Tasks.get found s p id) id

  pub apply_local_config : Service Seen → String → ℤ → Fields → Service Seen × Result (Unit {0})
  unfolding current_version input_of
  apply_local_config s id base payload =
      let current = current_version (lookup id s.configs) in
      if not (eqb_ℤ base current) then (s, err config_conflict) else (
        record s {
          configs =
              insert id (record { version = current +ℤ pos 1; input = input_of payload }) s.configs;
        },
        ok tt,
      )

  update_result : ℤ → Service Seen × Result (Unit {0}) → Service Seen × Result ConfigUpdateResult
  update_result next (s, err x) = (s, err x)
  update_result next (s, ok done) = (s, ok (record { version = next; effective = "next_attempt" }))

  -- runConfigUpdate; `updated` is what the workflow answers to the update.
  pub run_config_update :
      Option (Result (Unit {0}))
      → Service Seen
      → String
      → Fields
      → Service Seen × Result ConfigUpdateResult
  unfolding update_result
  run_config_update updated s id payload =
      let base = or_zero_number (as_number (get "base_config_version" payload)) in
      elim updated [
        | some answer ↦ update_result (base +ℤ pos 1) (s, answer)
        | none ↦ update_result (base +ℤ pos 1) (apply_local_config s id base payload)
      ]
