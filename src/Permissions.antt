-- ===== src/Permissions.antt =====
-- internal/task/permissions.go: how much a task's agent may do without asking.
-- A nil pointer is `none`; `map[string]any` is `Fields`. The case of `permissionsFromWorkflow` for a
-- `*Permissions` is left out: every payload holds the map that `workflowValue` makes.
pub mod RoundTrip
use orbit_control.Prelude.{
  String, Bool, true, false, ◌||◌, Option, none, some, if◌then◌else◌, str_eq,
}
use orbit_control.Value.{
  Value, null, bool, text, object, Fields, end, field, get, put, as_text, as_bool, text_or_empty,
}

pub record Permissions : Type 0 where
  pub preset : String
  pub write_scope : Option String
  pub auto_edits : Option Bool
  pub auto_commands : Option Bool
  pub auto_builtin : Option Bool

unfoldable pub valid_preset : String → Bool
valid_preset name =
    str_eq name "default"
    || str_eq name "request"
    || str_eq name "auto"
    || str_eq name "full"
    || str_eq name "custom"

unfoldable pub valid_write_scope : String → Bool
valid_write_scope name = str_eq name "none" || str_eq name "workspace"

-- `if p.F != nil { out[key] = *p.F }`
abbrev put_some {ℓ} : {A : Type ℓ} → (A → Value) → String → Option A → Fields → Fields
put_some f key none out = out
put_some f key (some a) out = put key (f a) out

pub workflow_value : Option Permissions → Value
workflow_value none = null
workflow_value (some p) = object (
    put_some bool "auto_builtin" p.auto_builtin (
      put_some bool "auto_commands" p.auto_commands (
        put_some bool "auto_edits" p.auto_edits
          (put_some text "write_scope" p.write_scope (field "preset" (text p.preset) end)))))

pub bool_field : Fields → String → Option Bool
bool_field fields key = as_bool (get key fields)

unfoldable pub permissions_from_workflow : Option Value → Option Permissions
unfolding bool_field
permissions_from_workflow (some (object fields)) = some (record {
  preset = text_or_empty (get "preset" fields);
  write_scope = as_text (get "write_scope" fields);
  auto_edits = bool_field fields "auto_edits";
  auto_commands = bool_field fields "auto_commands";
  auto_builtin = bool_field fields "auto_builtin";
})
permissions_from_workflow _ = none

abbrev pub default_preset : Permissions
default_preset = record {
  preset = "default";
  write_scope = none;
  auto_edits = none;
  auto_commands = none;
  auto_builtin = none;
}

unfoldable pub or_default : Option Permissions → Permissions
or_default none = default_preset
or_default (some p) = if str_eq p.preset "" then default_preset else p

pub record CustomPermissions : Type 0 where
  pub write_scope : String
  pub auto_edits : Bool
  pub auto_commands : Bool
  pub auto_builtin : Bool

pub record UserSettings : Type 0 where
  pub default_preset : String
  pub custom : CustomPermissions

abbrev pub default_user_settings : UserSettings
default_user_settings = record {
  default_preset = "default";
  custom = record {
    write_scope = "workspace";
    auto_edits = true;
    auto_commands = false;
    auto_builtin = false;
  };
}
