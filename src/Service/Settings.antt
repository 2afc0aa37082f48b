-- ===== src/Service/Settings.antt =====
-- internal/task/permissions.go, policy.go and sop.go: the methods of the service that read and
-- replace a user's settings, a tenant's policy and the registered procedures. What the projection
-- store answers is an argument, `none` where the service has no store.
pub mod Own
use orbit_control.Prelude.{
  ℕ, String, Bool, ◌&&◌, ◌||◌, ◌≡◌, ◌≢◌, refl, sym, Option, none, some, List, Assoc, lookup, insert,
  str_eq, if◌then◌else◌, arith, eq_iff, lookup-insert, eq_refl,
}
use orbit_control.Prelude.Int.{ℤ, pos, ltb_ℤ}
use orbit_control.Outcome.{Error, needs_store, invalid, Result, ok, err, ◌>>=◌, ◌>>◌}
use orbit_control.Text.{◌⧺◌}
use orbit_control.Policy
use orbit_control.Policy.{Policy, validate}
use orbit_control.Permissions.{UserSettings, default_user_settings}
use orbit_control.Sop.{Sop, validate_sop}
use orbit_control.Service.{Principal, Service}
use orbit_control.Service.Profiles.{versioned_ref}

pub user_key : Principal → String
user_key p = p.tenant_id ⧺ "\0" ⧺ p.user_id

abbrev pub or_defaults : Option UserSettings → UserSettings
or_defaults none = default_user_settings
or_defaults (some settings) = settings

stored_settings : Result (Option UserSettings) → Result UserSettings
stored_settings (err x) = err x
stored_settings (ok found) = ok (or_defaults found)

-- `p.TenantID == "" || p.UserID == ""`
abbrev is_anonymous : Principal → Bool
is_anonymous p = str_eq p.tenant_id "" || str_eq p.user_id ""

-- GetTenantPolicy
pub get_tenant_policy : Option (Result Policy) → Result Policy
get_tenant_policy none = err needs_store
get_tenant_policy (some answer) = answer

to_store : Option (Policy → Result Policy) → Policy → Result Policy
to_store none policy = err needs_store
to_store (some save) policy = save (Policy.normalized policy)

-- SetTenantPolicy
unfoldable pub set_tenant_policy :
    Option (Policy → Result Policy) → Principal → Policy → Result Policy
unfolding to_store
set_tenant_policy stored p policy =
    if is_anonymous p
    then err (invalid "tenant and user are required")
    else validate policy >>= λ valid. to_store stored policy

register_valid : Option (Sop → Result Sop) → Sop → Result Sop
register_valid none sop = err needs_store
register_valid (some save) sop = save (record sop { ref = versioned_ref sop.sop_id sop.version })

-- RegisterSOP
unfoldable pub register_sop : Option (Sop → Result Sop) → Principal → Sop → Result Sop
unfolding register_valid
register_sop stored p sop =
    if is_anonymous p || str_eq sop.sop_id "" || ltb_ℤ sop.version (pos 1)
    then err (invalid "tenant, user, sop_id and positive version are required")
    else validate_sop sop >>= λ valid. register_valid stored valid

-- ListSOPs
pub list_sops : Option (Result (List Sop)) → Result (List Sop)
list_sops none = err needs_store
list_sops (some answer) = answer

module _ {Seen : Type 0} where
  -- UserSettings
  unfoldable pub user_settings :
      Option (Result (Option UserSettings)) → Service Seen → Principal → Result UserSettings
  unfolding user_key stored_settings
  user_settings (some answer) s p = stored_settings answer
  user_settings none s p = ok (or_defaults (lookup (user_key p) s.user_settings))

  -- SetUserSettings
  unfoldable pub set_user_settings :
      Option (Result (Unit {0}))
      → Service Seen
      → Principal
      → UserSettings
      → Service Seen × Result (Unit {0})
  unfolding user_key
  set_user_settings (some answer) s p settings = (s, answer)
  set_user_settings none s p settings =
      (record s { user_settings = insert (user_key p) settings s.user_settings }, ok tt)
