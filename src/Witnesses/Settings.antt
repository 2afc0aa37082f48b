-- ===== src/Witnesses/Settings.antt =====
-- Runs of policies, permissions, configurations and of the text helpers.
use orbit_control.Prelude.{true, false, ◌≡◌, ◌↔◌, refl, none, some, [], ◌∷◌, ne_of_str_eq}
use orbit_control.Prelude.Int.{pos}
use orbit_control.Outcome.{ok}
use orbit_control.Text.{trim_space, decimal}
use orbit_control.Policy.{Policy, validate}
use orbit_control.Policy.Layers.{IsValid, validate_iff}
use orbit_control.Permissions.{Permissions}
use orbit_control.Value.{text, field, end}
use orbit_control.Config.{ConfigTeam, ConfigInput, workflow_config, view, config_from_workflow}
use orbit_control.Config.RoundTrip.{without_names, view-roundtrip}

abbrev strict : Policy
strict = record {
  denied_tools = some ("shell" ∷ " " ∷ []);
  exploration_max_tool_calls = some (pos 5);
  max_concurrency = some (pos 65);
  max_review_rounds = none;
}

validate_iff_example : (validate strict ≡ ok tt) ↔ IsValid strict
validate_iff_example = validate_iff strict

abbrev careful : Permissions
careful = record {
  preset = "custom";
  write_scope = some "workspace";
  auto_edits = some true;
  auto_commands = some false;
  auto_builtin = none;
}

abbrev team : ConfigTeam
team = record {
  ref = "team_1";
  leader = "lead@1";
  members =
      record {
        role = "author";
        expert = "writer@2";
        name = "Writer";
        description = "";
        label = "W";
      }
      ∷ [];
}

abbrev config : ConfigInput
config = record {
  expert = "writer@2";
  skills = some [];
  model = "m";
  connectors = some (field "id" (text "c1") end ∷ []);
  mode = "plan";
  permissions = some careful;
  team = some team;
}

view-roundtrip_example :
    config_from_workflow (workflow_config config (pos 3))
    ≡ view (record config { team = without_names config.team }) (pos 3)
view-roundtrip_example = view-roundtrip config (pos 3) (ne_of_str_eq "plan" "" refl)

trim_runs : trim_space "  \ta b\u{3000} " ≡ "a b"
unfolding trim_space
trim_runs = refl

decimal_runs : decimal 1905 ≡ "1905"
unfolding decimal
decimal_runs = refl
