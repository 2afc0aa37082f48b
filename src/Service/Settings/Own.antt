-- ===== src/Service/Settings/Own.antt =====
-- Saving settings changes what their own user reads, and nobody else.
use orbit_control.Prelude.{
  Bool, true, ◌&&◌, ◌≡◌, none, arith, str_eq, eq_iff, if◌then◌else◌, Bool-cases, inl, inr,
  lookup-insert, eq_of_str_eq,
}
use orbit_control.Outcome.{ok}
use orbit_control.Text.Join.{nul_free, join_inj}
use orbit_control.Permissions.{UserSettings}
use orbit_control.Service.{Principal, Service}
use orbit_control.Service.Settings.{user_key, user_settings, set_user_settings}

abbrev pub same_user : Principal → Principal → Bool
same_user p q = str_eq p.tenant_id q.tenant_id && str_eq p.user_id q.user_id

user_key-same :
    (p q : Principal)
    → nul_free p.tenant_id ≡ true
    → nul_free q.tenant_id ≡ true
    → str_eq (user_key p) (user_key q) ≡ same_user p q
unfolding user_key
user_key-same p q h k = elim (Bool-cases (str_eq (user_key p) (user_key q))) [
  | inl same ↦
      let (tenant, user) =
        join_inj p.tenant_id p.user_id q.tenant_id q.user_id h k (eq_of_str_eq _ _ same) in
      ground (arith, eq_iff p.tenant_id q.tenant_id, eq_iff p.user_id q.user_id)
  | inr differs ↦ ground (
    arith,
    eq_iff p.tenant_id q.tenant_id,
    eq_iff p.user_id q.user_id,
    eq_iff (user_key p) (user_key q),
  )
]

-- After a user's settings are saved where the service has no store, the user of that tenant reads
-- them back, and every other user, also one of the same name in another tenant, reads what they read
-- before. No tenant's id holds a NUL.
pub user_settings-set :
    {Seen : Type 0} (s : Service Seen) (p q : Principal) (settings : UserSettings)
    → nul_free p.tenant_id ≡ true
    → nul_free q.tenant_id ≡ true
    → user_settings none (set_user_settings none s p settings).0 q
      ≡ (if same_user p q then ok settings else user_settings none s q)
unfolding user_settings set_user_settings
user_settings-set s p q settings h k =
    ground (
      arith,
      user_key-same p q h k,
      lookup-insert (user_key p) (user_key q) settings s.user_settings,
    )
