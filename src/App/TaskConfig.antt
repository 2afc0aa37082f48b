-- ===== src/App/TaskConfig.antt =====
-- internal/app/task_config.go: what a request asks a task to run with, checked against the tenant's
-- own experts, connectors and skills. `read` is `GetProfile` for the caller; what the repository and
-- the skill library answer are arguments.
pub mod Runs
use Prim.Native.Char.{Char, code}
use Prim.Native.String
use Prim.Native.String.{len}
use orbit_control.Prelude.{
  ℕ, ◌+◌, String, Bool, true, false, not, ◌&&◌, ◌||◌, Option, none, some, List, [], ◌∷◌, Assoc,
  str_eq, ltb, ◌==◌, if◌then◌else◌,
}
use orbit_control.Outcome.{
  Error, not_found, invalid, field_error, external, Result, ok, err, ◌>>=◌, ◌>>◌,
}
use orbit_control.Prelude.Int.{pos}
use orbit_control.Value.{Fields, end}
use orbit_control.Sop.Patterns.{is_versioned_id}
use orbit_control.Permissions
use orbit_control.Config.{ConfigTeam, ConfigTeamMember, ConfigInput, ConfigView}
use orbit_control.Catalog.{SkillFile, SkillRecord, McpConnectorRecord}
use orbit_control.Service.{Profile}
use orbit_control.App.Refs.{valid_model_name, check_ref_list, entry_path}
use orbit_control.App.Teams.{kind_of, resolve_team}
use orbit_control.App.Skills.{SkillAnswers, check_skill}
use orbit_control.App.Connectors.{snapshots_for}

pub record TaskConfigRequest : Type 0 where
  pub expert : String
  pub team_ref : String
  pub model : String
  pub skills : Option (List String)
  pub connector_ids : Option (List String)
  pub mode : String
  pub permissions : Option Permissions.Permissions

-- The zero Profile
abbrev pub no_profile : Profile
no_profile = record {
  profile_id = "";
  version = pos 0;
  ref = "";
  spec = end;
  created_at = 0;
  files = [];
}

own_profile : Result Profile → Result Profile
own_profile (ok q) = ok q
own_profile (err not_found) = err (field_error "EXPERT_NOT_FOUND" "expert")
own_profile (err x) = err x

-- checkExpert
unfoldable pub check_expert : (String → Result Profile) → String → Result Profile
unfolding own_profile
check_expert read ref =
    if str_eq ref "" || str_eq ref "default@1"
    then ok no_profile
    else if not (is_versioned_id ref)
    then err (field_error "EXPERT_REF_INVALID" "expert")
    else own_profile (read ref)

-- The loop over the skills of a request; `index` is the position of the first.
check_skills : (String → SkillAnswers) → ℕ → List String → Result (Unit {0})
check_skills skills index [] = ok tt
check_skills skills index (id ∷ ids) =
    check_skill (entry_path "skills" index) (skills id) >> check_skills skills (index + 1) ids

checked_profile : Result Profile → Result (Unit {0})
checked_profile (err not_found) = err (external "unknown profile")
checked_profile (err x) = err x
checked_profile (ok q) =
    if str_eq (kind_of q) "team" then err (invalid "a team cannot be a node's profile") else ok tt

-- CheckProfile
unfoldable pub check_profile : (String → Result Profile) → String → Result (Unit {0})
unfolding checked_profile
check_profile read ref =
    if str_eq ref "default@1"
    then ok tt
    else if not (is_versioned_id ref)
    then err (invalid "profile is not a versioned reference")
    else checked_profile (read ref)

pub role_expert : String → String → List ConfigTeamMember → String
role_expert leader found [] = found
role_expert leader found (m ∷ ms) =
    role_expert leader (if str_eq m.role leader then m.expert else found) ms

-- What a request's profile comes to: the expert to run, and its team if it is one.
pub record Selected : Type 0 where
  pub runs : String
  pub team : Option ConfigTeam

with_leader : TaskConfigRequest → Profile → ConfigTeam → Result Selected
unfolding role_expert
with_leader in_ q team =
    let leader = role_expert team.leader "" team.members in
    if not (str_eq in_.team_ref "")
      && not (str_eq in_.expert "")
      && not (str_eq in_.expert in_.team_ref)
      && not (str_eq in_.expert leader)
    then err (field_error "EXPERT_TEAM_MISMATCH" "expert")
    else ok (record { runs = leader; team = some (record team { ref = q.ref }) })

select_profile :
    (String → Result Profile) → (String → String) → TaskConfigRequest → Profile → Result Selected
unfolding with_leader
select_profile read bundled in_ q =
    if str_eq (kind_of q) "team"
    then resolve_team read bundled q >>= with_leader in_ q
    else if not (str_eq in_.team_ref "")
    then err (field_error "TEAM_REF_NOT_TEAM" "team_ref")
    else ok (record { runs = in_.expert; team = none })

-- A refusal of the team's reference names the field that holds it.
at_team_ref : String → Result Profile → Result Profile
at_team_ref team_ref (err (field_error kind path)) =
    err (field_error kind (if str_eq team_ref "" then path else "team_ref"))
at_team_ref team_ref r = r

unfoldable pub resolve_expert :
    (String → Result Profile) → (String → String) → TaskConfigRequest → Result Selected
unfolding at_team_ref select_profile
resolve_expert read bundled in_ =
    at_team_ref in_.team_ref
      (check_expert read (if str_eq in_.team_ref "" then in_.expert else in_.team_ref))
    >>= select_profile read bundled in_

abbrev pub mode_of : String → String
mode_of mode = if str_eq mode "" then "default" else mode

check_mode : String → Result (Unit {0})
check_mode mode =
    if str_eq mode "default" || str_eq mode "plan" || str_eq mode "ask"
    then ok tt
    else err (field_error "MODE_INVALID" "mode")

check_model : String → Result (Unit {0})
check_model model =
    if not (str_eq model "") && not (valid_model_name model)
    then err (field_error "MODEL_INVALID" "model")
    else ok tt

abbrev pub ids_or_none : Option (List String) → List String
ids_or_none none = []
ids_or_none (some ids) = ids

-- `connectors` are the tenant's; an empty list of ids asks the repository nothing.
snapshots_of :
    Result (Assoc McpConnectorRecord) → Option (List String) → Result (Option (List Fields))
snapshots_of connectors none = ok none
snapshots_of connectors (some []) = ok (some [])
snapshots_of connectors (some (id ∷ ids)) =
    connectors >>= λ by_id. (snapshots_for by_id (id ∷ ids) >>= λ found. ok (some found))

-- ResolveTaskConfig; `permissions` is what `ResolvePermissions` answers for the request's.
unfoldable pub resolve_task_config :
    (String → Result Profile)
    → (String → String)
    → Result (Assoc McpConnectorRecord)
    → (String → SkillAnswers)
    → (Option Permissions.Permissions → Result Permissions.Permissions)
    → TaskConfigRequest
    → Result ConfigInput
unfolding check_mode check_model snapshots_of check_skills
resolve_task_config read bundled connectors skills permissions in_ = do
  let mode = mode_of in_.mode
  check_mode mode
  check_model in_.model
  granted ← permissions in_.permissions
  selected ← resolve_expert read bundled in_
  check_ref_list "skills" "SKILLS_INVALID" (ids_or_none in_.skills)
  check_ref_list "connector_ids" "CONNECTORS_INVALID" (ids_or_none in_.connector_ids)
  snapshots ← snapshots_of connectors in_.connector_ids
  check_skills skills 0 (ids_or_none in_.skills)
  ok (record {
    expert = selected.runs;
    skills = in_.skills;
    model = in_.model;
    connectors = snapshots;
    mode = mode;
    permissions = some granted;
    team = selected.team;
  })

-- ResolveTaskConfigUpdate; `current` is what `TaskConfig` answers, which is only asked for where the
-- request leaves the permissions out.
unfoldable pub resolve_task_config_update :
    (String → Result Profile)
    → (String → String)
    → Result (Assoc McpConnectorRecord)
    → (String → SkillAnswers)
    → (Option Permissions.Permissions → Result Permissions.Permissions)
    → Result ConfigView
    → TaskConfigRequest
    → Result ConfigInput
resolve_task_config_update read bundled connectors skills permissions current in_ =
    elim in_.permissions [
      | none ↦ do
        v ← current
        resolve_task_config read bundled connectors skills permissions
            (record in_ { permissions = some v.permissions })
      | some _ ↦ resolve_task_config read bundled connectors skills permissions in_
    ]
