-- ===== src/Witnesses/Studio.antt =====
-- Runs of the application layer.
use orbit_control.Prelude.{
  String, true, false, ◌≤◌, ◌≡◌, ◌≢◌, ◌⊎◌, refl, none, some, Option, [], ◌∷◌, map, lookup, insert,
  All, Occurs, contains, arith, eq_iff, Assoc,
}
use orbit_control.Prelude.Int.{pos, ◌+ℤ◌, ◌≤ℤ◌}
use orbit_control.Outcome.{not_found, Result, ok, err}
use orbit_control.Text.{trim_space}
use orbit_control.Text.Order.{rune_count}
use orbit_control.Sop.Patterns.{is_versioned_id}
use orbit_control.Value.{field, text, list, object, cons, nil, end, Fields, get}
use orbit_control.Permissions
use orbit_control.Permissions.{default_user_settings, valid_preset, valid_write_scope}
use orbit_control.Config.{ConfigInput}
use orbit_control.Catalog.{SkillFile, McpConnectorRecord}
use orbit_control.Service.{Profile, Service}
use orbit_control.Service.Settings.{user_settings}
use orbit_control.App.Refs.{check_ref_list, check_connectors}
use orbit_control.App.Permissions.{PermissionsRequest, save_user_settings, resolve_permissions}
use orbit_control.App.Permissions.Resolved.{
  IsValidSettings, AllValid, IsComplete, save_user_settings-AllValid,
  resolve_permissions-IsComplete,
}
use orbit_control.App.Teams.{TeamMemberInput, kind_of}
use orbit_control.App.Connectors.{
  HeaderRef, is_header_name, is_env_name, clean_header_refs, decode_header_refs,
}
use orbit_control.App.Connectors.Headers.{clean_header_refs-decoded}
use orbit_control.App.Experts.{
  ExpertInput, validate_single, validate, is_expert, latest_profiles, update_expert,
}
use orbit_control.App.Experts.Accepted.{IsSingle, IsTeam, validate-ok}
use orbit_control.App.Experts.Latest.{VersionOf, update_expert-newest}
use orbit_control.App.TaskConfig.{
  TaskConfigRequest, check_expert, resolve_expert, resolve_task_config,
}
use orbit_control.App.Skills.{SkillAnswers, is_safe_name, skill_usable}
use orbit_control.App.Skills.Usable.{Stays, path_of, skill_usable-Stays}
use orbit_control.App.TaskConfig.Runs.{Runnable, resolve_task_config-Runnable}
use orbit_control.Witnesses.Samples.{seen, alice, service}
open seen use {Cache}

abbrev kept : Service Cache
kept = record service { user_settings = ("a\0bob", default_user_settings) ∷ [] }

valid_default : IsValidSettings default_user_settings
unfolding valid_preset valid_write_scope
valid_default = (refl, refl)

kept-AllValid : AllValid kept
unfolding lookup
kept-AllValid key settings h = ground (arith, eq_iff "a\0bob" key, valid_default)

abbrev unknown_preset : PermissionsRequest
unknown_preset = record { default_preset = "everything"; custom = none }

save_user_settings-AllValid_example :
    AllValid (save_user_settings none kept alice (some unknown_preset)).0
save_user_settings-AllValid_example =
    save_user_settings-AllValid kept alice (some unknown_preset) kept-AllValid

abbrev custom : Permissions.Permissions
custom = record {
  preset = "custom";
  write_scope = none;
  auto_edits = some true;
  auto_commands = none;
  auto_builtin = none;
}

abbrev completed : Permissions.Permissions
completed = record {
  preset = "custom";
  write_scope = some default_user_settings.custom.write_scope;
  auto_edits = some true;
  auto_commands = some default_user_settings.custom.auto_commands;
  auto_builtin = some default_user_settings.custom.auto_builtin;
}

filled_in : resolve_permissions none kept alice (some custom) ≡ ok completed
unfolding resolve_permissions valid_preset user_settings lookup
filled_in = refl

resolve_permissions-IsComplete_example : IsComplete completed
resolve_permissions-IsComplete_example =
    resolve_permissions-IsComplete kept alice (some custom) completed kept-AllValid filled_in

abbrev writer : Profile
writer = record {
  profile_id = "writer";
  version = pos 2;
  ref = "writer@2";
  spec = field "kind" (text "expert") (field "name" (text "Writer") end);
  created_at = 0;
  files = [];
}

abbrev read : String → Result Profile
read ref = ok writer

abbrev lead : TeamMemberInput
lead = record { role = "lead"; expert = "writer@2"; description = ""; label = "" }

abbrev crew : Fields
crew = field "kind" (text "team") (
    field "name" (text "Crew") (
      field "leader" (text "lead") (
        field "members"
          (list (
            cons
              (object (
                field "role" (text "lead")
                  (field "expert" (text "writer@2") (field "name" (text "Writer") end))))
              nil))
          end)))

abbrev token : HeaderRef
token = record { name = "X-Token"; env = "TOKEN" }

abbrev as_given : String → String
as_given s = s

accepted_headers : clean_header_refs as_given (token ∷ []) ≡ ok (token ∷ [], "X-Token:TOKEN" ∷ [])
unfolding clean_header_refs trim_space is_header_name is_env_name
accepted_headers = refl

clean_header_refs-decoded_example :
    (decode_header_refs ("X-Token:TOKEN" ∷ []) ≡ token ∷ [])
    × ((contains "X-Token" [] ≡ false) × Unit {0})
clean_header_refs-decoded_example =
    clean_header_refs-decoded as_given (token ∷ []) (token ∷ []) ("X-Token:TOKEN" ∷ [])
      accepted_headers

abbrev coder : ExpertInput
coder = record {
  name = "Coder";
  description = "";
  instructions = "Write code.";
  soul = "";
  model = "";
  connector_ids = [];
  skill_ids = [];
  source = "";
  kind = "expert";
  leader = "";
  members = [];
}

accepted : validate coder ≡ ok coder
unfolding validate trim_space rune_count validate_single check_ref_list check_connectors
accepted = refl

validate-ok_example :
    (coder.name ≢ "") × (rune_count coder.name ≤ 100) × (IsSingle coder ⊎ IsTeam coder)
validate-ok_example = validate-ok coder coder accepted

updated : update_expert (writer ∷ []) "writer" coder ≡ ok (coder, pos 3)
unfolding update_expert lookup latest_profiles get insert ◌+ℤ◌
updated = refl

update_expert-newest_example :
    (r : Profile) × VersionOf (writer ∷ []) "writer" r
    × (coder.kind ≡ kind_of r)
    × (pos 3 ≡ r.version +ℤ pos 1)
    × ((x : Profile)
        → Occurs x (writer ∷ [])
        → is_expert x ≡ true
        → x.profile_id ≡ "writer"
        → x.version ≤ℤ r.version)
update_expert-newest_example =
    update_expert-newest (writer ∷ []) "writer" coder coder (pos 3) updated

abbrev skill_md : SkillFile
skill_md = record { path = "SKILL.md"; body = "Do." }

abbrev script : SkillFile
script = record { path = "bin/run.sh"; body = "true" }

usable : skill_usable (skill_md ∷ script ∷ []) ≡ true
unfolding skill_usable is_safe_name
usable = refl

skill_usable-Stays_example :
    All (Stays ("writing" ∷ [])) (skill_md ∷ script ∷ [])
    × (contains "SKILL.md" (map path_of (skill_md ∷ script ∷ [])) ≡ true)
skill_usable-Stays_example = skill_usable-Stays (skill_md ∷ script ∷ []) ("writing" ∷ []) usable

abbrev nothing : TaskConfigRequest
nothing = record {
  expert = "writer@2";
  team_ref = "";
  model = "";
  skills = none;
  connector_ids = none;
  mode = "plan";
  permissions = some custom;
}

abbrev bundled : String → String
bundled ref = ""

abbrev connectors : Result (Assoc McpConnectorRecord)
connectors = ok []

abbrev skills : String → SkillAnswers
skills id = record { row = err not_found; text_files = ok ([], false) }

abbrev permitted : Option Permissions.Permissions → Result Permissions.Permissions
permitted p = ok completed

abbrev configured : ConfigInput
configured = record {
  expert = "writer@2";
  skills = none;
  model = "";
  connectors = none;
  mode = "plan";
  permissions = some completed;
  team = none;
}

resolved : resolve_task_config read bundled connectors skills permitted nothing ≡ ok configured
unfolding resolve_task_config resolve_expert check_expert is_versioned_id get check_ref_list
resolved = refl

resolve_task_config-Runnable_example :
    Runnable read bundled connectors skills permitted nothing configured
resolve_task_config-Runnable_example =
    resolve_task_config-Runnable read bundled connectors skills permitted nothing configured
      resolved
