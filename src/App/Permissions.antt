-- ===== src/App/Permissions.antt =====
-- internal/app/permissions.go: what a request says about permissions, resolved against the user's
-- settings, and saving those settings. `UserSettings` and `SetUserSettings` of the task service are
-- the service's; what its store answers is an argument.
pub mod Resolved
use orbit_control.Prelude.{
  String, Bool, true, false, not, ◌||◌, Option, none, some, str_eq, if◌then◌else◌,
}
use orbit_control.Outcome.{Error, field_error, Result, ok, err, ◌>>=◌, ◌>>◌}
use orbit_control.Text.{◌⧺◌}
use orbit_control.Permissions
use orbit_control.Permissions.{
  CustomPermissions, UserSettings, valid_preset, valid_write_scope, default_user_settings,
}
use orbit_control.Service.{Principal, Service}
use orbit_control.Service.Settings.{user_settings, set_user_settings}

check_scope : String → Option String → Result (Unit {0})
check_scope path none = ok tt
check_scope path (some scope) =
    if valid_write_scope scope
    then ok tt
    else err (field_error "PERMISSIONS_WRITE_SCOPE_INVALID" (path ⧺ ".write_scope"))

pub validate_permissions : String → Option Permissions.Permissions → Result (Unit {0})
unfolding check_scope
validate_permissions path none = ok tt
validate_permissions path (some spec) =
    if not (valid_preset spec.preset)
    then err (field_error "PERMISSIONS_PRESET_INVALID" (path ⧺ ".preset"))
    else check_scope path spec.write_scope

abbrev pub or_given {ℓ} : {A : Type ℓ} → Option A → A → A
or_given none given = given
or_given (some a) given = a

abbrev pub alone : String → Permissions.Permissions
alone preset = record {
  preset = preset;
  write_scope = none;
  auto_edits = none;
  auto_commands = none;
  auto_builtin = none;
}

-- "custom", filled from the user's rules where the request says nothing.
filled : Option Permissions.Permissions → CustomPermissions → Permissions.Permissions
filled none custom = record {
  preset = "custom";
  write_scope = some custom.write_scope;
  auto_edits = some custom.auto_edits;
  auto_commands = some custom.auto_commands;
  auto_builtin = some custom.auto_builtin;
}
filled (some requested) custom = record {
  preset = "custom";
  write_scope = some (or_given requested.write_scope custom.write_scope);
  auto_edits = some (or_given requested.auto_edits custom.auto_edits);
  auto_commands = some (or_given requested.auto_commands custom.auto_commands);
  auto_builtin = some (or_given requested.auto_builtin custom.auto_builtin);
}

preset_of : Option Permissions.Permissions → UserSettings → String
preset_of none settings = settings.default_preset
preset_of (some requested) settings = requested.preset

pub resolved : Option Permissions.Permissions → UserSettings → Permissions.Permissions
unfolding preset_of filled
resolved requested settings =
    let preset = preset_of requested settings in
    if str_eq preset "custom" then filled requested settings.custom else alone preset

-- The body of a request for settings: a field that is left out takes its default.
pub record CustomRequest : Type 0 where
  pub write_scope : String
  pub auto_edits : Option Bool
  pub auto_commands : Option Bool
  pub auto_builtin : Option Bool

pub record PermissionsRequest : Type 0 where
  pub default_preset : String
  pub custom : Option CustomRequest

with_preset : String → UserSettings → Result UserSettings
with_preset preset settings =
    if str_eq preset ""
    then ok settings
    else if not (valid_preset preset)
    then err (field_error "PERMISSIONS_PRESET_INVALID" "permissions.default_preset")
    else ok (record settings { default_preset = preset })

-- The three switches and the scope.
with_rules : CustomRequest → String → CustomPermissions → CustomPermissions
with_rules custom scope before = record {
  write_scope = scope;
  auto_edits = or_given custom.auto_edits before.auto_edits;
  auto_commands = or_given custom.auto_commands before.auto_commands;
  auto_builtin = or_given custom.auto_builtin before.auto_builtin;
}

with_custom : Option CustomRequest → UserSettings → Result UserSettings
unfolding with_rules
with_custom none settings = ok settings
with_custom (some custom) settings =
    if str_eq custom.write_scope ""
    then ok
        (record settings { custom = with_rules custom settings.custom.write_scope settings.custom })
    else if not (valid_write_scope custom.write_scope)
    then err (field_error "PERMISSIONS_WRITE_SCOPE_INVALID" "permissions.custom.write_scope")
    else ok (record settings { custom = with_rules custom custom.write_scope settings.custom })

-- The settings that a request asks for.
pub requested_settings : Option PermissionsRequest → Result UserSettings
unfolding with_preset with_custom
requested_settings none = ok default_user_settings
requested_settings (some request) = do
  settings ← with_preset request.default_preset default_user_settings
  with_custom request.custom settings

abbrev pub answer_with :
    {Seen : Type 0}
    → UserSettings
    → Service Seen × Result (Unit {0})
    → Service Seen × Result UserSettings
answer_with settings (s, err x) = (s, err x)
answer_with settings (s, ok done) = (s, ok settings)

module _ {Seen : Type 0} where
  -- ResolvePermissions
  unfoldable pub resolve_permissions :
      Option (Result (Option UserSettings))
      → Service Seen
      → Principal
      → Option Permissions.Permissions
      → Result Permissions.Permissions
  unfolding validate_permissions resolved
  resolve_permissions stored s p requested = do
    validate_permissions "permissions" requested
    settings ← user_settings stored s p
    ok (resolved requested settings)

  saved :
      Option (Result (Unit {0}))
      → Service Seen
      → Principal
      → Result UserSettings
      → Service Seen × Result UserSettings
  saved stored s p (err x) = (s, err x)
  saved stored s p (ok settings) = answer_with settings (set_user_settings stored s p settings)

  -- SaveUserSettings
  pub save_user_settings :
      Option (Result (Unit {0}))
      → Service Seen
      → Principal
      → Option PermissionsRequest
      → Service Seen × Result UserSettings
  unfolding saved requested_settings
  save_user_settings stored s p request = saved stored s p (requested_settings request)
