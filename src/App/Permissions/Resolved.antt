-- ===== src/App/Permissions/Resolved.antt =====
-- What a task is stored with is valid and complete, whatever the request and the settings say.
use orbit_control.Prelude.{
  String, Bool, true, ◌≡◌, ◌≢◌, ◌⊎◌, inl, inr, refl, Option, none, some, lookup, lookup-insert,
  arith, eq_iff, str_eq, Bool-cases, ne_of_str_eq,
}
use mathlib.Core.Path.{subst}
use orbit_control.Outcome.{Result, ok, err, then-ok, bind-ok}
use orbit_control.Permissions
use orbit_control.Permissions.{UserSettings, valid_preset, valid_write_scope, default_user_settings}
use orbit_control.Service.{Principal, Service}
use orbit_control.Service.Settings.{user_settings, set_user_settings, user_key, or_defaults}
use orbit_control.App.Permissions.{
  validate_permissions, check_scope, resolved, filled, preset_of, alone, PermissionsRequest,
  CustomRequest, requested_settings, with_preset, with_custom, with_rules, saved,
  save_user_settings, resolve_permissions, or_given,
}

abbrev pub IsValidSettings : UserSettings → Type 0
IsValidSettings settings =
    (valid_preset settings.default_preset ≡ true)
    × (valid_write_scope settings.custom.write_scope ≡ true)

abbrev pub AllValid : {Seen : Type 0} → Service Seen → Type 0
AllValid s =
    (key : String) (settings : UserSettings)
    → lookup key s.user_settings ≡ some settings
    → IsValidSettings settings

default_valid : IsValidSettings default_user_settings
unfolding valid_preset valid_write_scope
default_valid = (refl, refl)

with_preset-valid :
    (preset : String) (before settings : UserSettings)
    → IsValidSettings before
    → with_preset preset before ≡ ok settings
    → IsValidSettings settings
unfolding with_preset
with_preset-valid preset before settings h k = ground (arith, eq_iff preset "")

with_custom-valid :
    (custom : Option CustomRequest) (before settings : UserSettings)
    → IsValidSettings before
    → with_custom custom before ≡ ok settings
    → IsValidSettings settings
unfolding with_custom with_rules
with_custom-valid none before settings h k = ground arith
with_custom-valid (some custom) before settings h k = ground (arith, eq_iff custom.write_scope "")

requested_settings-valid :
    (request : Option PermissionsRequest) (settings : UserSettings)
    → requested_settings request ≡ ok settings
    → IsValidSettings settings
unfolding requested_settings
requested_settings-valid none settings h = ground (arith, default_valid)
requested_settings-valid (some request) settings h =
    let (one, p, q) = bind-ok (with_preset request.default_preset default_user_settings) _ h in
    with_custom-valid request.custom one settings
      (with_preset-valid request.default_preset default_user_settings one default_valid p) q

-- A permission spec as a task is stored with it: a preset alone, or "custom" with each of its rules.
abbrev pub IsComplete : Permissions.Permissions → Type 0
IsComplete r =
    ((r.preset ≢ "custom") × (valid_preset r.preset ≡ true) × (r ≡ alone r.preset))
    ⊎ ((r.preset ≡ "custom")
        × ((scope : String) × (r.write_scope ≡ some scope) × (valid_write_scope scope ≡ true))
        × ((edits : Bool) × (r.auto_edits ≡ some edits))
        × ((commands : Bool) × (r.auto_commands ≡ some commands))
        × ((builtin : Bool) × (r.auto_builtin ≡ some builtin)))

scope_valid :
    (given : Option String) (scope : String)
    → valid_write_scope scope ≡ true
    → check_scope "permissions" given ≡ ok tt
    → valid_write_scope (or_given given scope) ≡ true
unfolding check_scope
scope_valid none scope h v = h
scope_valid (some asked) scope h v = ground arith

filled-rules :
    (requested : Option Permissions.Permissions) (settings : UserSettings)
    → IsValidSettings settings
    → validate_permissions "permissions" requested ≡ ok tt
    → IsComplete (filled requested settings.custom)
unfolding filled validate_permissions
filled-rules none settings (h₁, h₂) v =
    let c = settings.custom in
    inr (
      refl,
      (c.write_scope, refl, h₂),
      (c.auto_edits, refl),
      (c.auto_commands, refl),
      (c.auto_builtin, refl),
    )
filled-rules (some r) settings (h₁, h₂) v =
    let c = settings.custom in
    inr (
      refl,
      (
        or_given r.write_scope c.write_scope,
        refl,
        scope_valid r.write_scope c.write_scope h₂ (ground arith),
      ),
      (or_given r.auto_edits c.auto_edits, refl),
      (or_given r.auto_commands c.auto_commands, refl),
      (or_given r.auto_builtin c.auto_builtin, refl),
    )

preset_of-valid :
    (requested : Option Permissions.Permissions) (settings : UserSettings)
    → IsValidSettings settings
    → validate_permissions "permissions" requested ≡ ok tt
    → valid_preset (preset_of requested settings) ≡ true
unfolding preset_of validate_permissions
preset_of-valid none settings (h₁, h₂) v = h₁
preset_of-valid (some r) settings h v = ground arith

resolved-IsComplete :
    (requested : Option Permissions.Permissions) (settings : UserSettings)
    → IsValidSettings settings
    → validate_permissions "permissions" requested ≡ ok tt
    → IsComplete (resolved requested settings)
unfolding resolved
resolved-IsComplete requested settings h v =
    elim (Bool-cases (str_eq (preset_of requested settings) "custom")) [
      | inl custom ↦ rw custom (filled-rules requested settings h v)
      | inr other ↦ rw other (
          inl (
            ne_of_str_eq (preset_of requested settings) "custom" other,
            preset_of-valid requested settings h v,
            refl,
          ))
    ]

module _ {Seen : Type 0} (s : Service Seen) (p : Principal) where
  saved-AllValid :
      (asked : Result UserSettings)
      → AllValid s
      → ((settings : UserSettings) → asked ≡ ok settings → IsValidSettings settings)
      → AllValid (saved none s p asked).0
  unfolding saved set_user_settings
  saved-AllValid (err x) h v = h
  saved-AllValid (ok settings) h v = λ key found k. elim (Bool-cases (str_eq (user_key p) key)) [
    | inl mine ↦
        ground
          (arith, mine, lookup-insert (user_key p) key settings s.user_settings, v settings refl)
    | inr other ↦
        h key found (ground (arith, other, lookup-insert (user_key p) key settings s.user_settings))
  ]

  -- Saving settings keeps every user's settings valid: the preset and the write scope of each are ones
  -- that are known, also after a request that is refused.
  pub save_user_settings-AllValid :
      (request : Option PermissionsRequest)
      → AllValid s
      → AllValid (save_user_settings none s p request).0
  unfolding save_user_settings
  save_user_settings-AllValid request h =
      saved-AllValid (requested_settings request) h (requested_settings-valid request)

  or_defaults-valid :
      (found : Option UserSettings)
      → ((settings : UserSettings) → found ≡ some settings → IsValidSettings settings)
      → IsValidSettings (or_defaults found)
  or_defaults-valid none h = default_valid
  or_defaults-valid (some settings) h = h settings refl

  -- Where every user's settings are valid and the service has no store, a task whose request is
  -- accepted is stored with a known preset: one that is not "custom" alone, and "custom" with every
  -- rule stated and a known write scope.
  pub resolve_permissions-IsComplete :
      (requested : Option Permissions.Permissions) (r : Permissions.Permissions)
      → AllValid s
      → resolve_permissions none s p requested ≡ ok r
      → IsComplete r
  unfolding resolve_permissions user_settings
  resolve_permissions-IsComplete requested r h k =
      let (v, q) = then-ok (validate_permissions "permissions" requested) _ k in
      subst IsComplete (ground arith) (
        resolved-IsComplete requested (or_defaults (lookup (user_key p) s.user_settings))
          (or_defaults-valid (lookup (user_key p) s.user_settings) (h (user_key p))) v)
