-- ===== src/Service/Profiles.antt =====
-- internal/task/profiles.go: the versions of expert profiles that a tenant has registered. What the
-- projection store answers is an argument, `none` where the service has no store.
pub mod Versions
use orbit_control.Prelude.{
  ℕ, ◌+◌, String, Bool, not, ◌||◌, Option, none, some, List, [], ◌∷◌, Assoc, lookup, insert, str_eq,
  if◌then◌else◌,
}
use orbit_control.Prelude.Int.{ℤ, pos, negsuc, ltb_ℤ}
use orbit_control.Outcome.{Error, not_found, idempotency_conflict, invalid, Result, ok, err}
use orbit_control.Text.{◌⧺◌, decimal}
use orbit_control.Value.Same.{json_equal}
use orbit_control.Service.{Principal, Profile, ProfileFile, Service, or_empty}

-- `%d` of Go's int
pub decimal_int : ℤ → String
decimal_int (pos n) = decimal n
decimal_int (negsuc n) = "-" ⧺ decimal (n + 1)

-- fmt.Sprintf("%s@%d", …)
unfoldable pub versioned_ref : String → ℤ → String
unfolding decimal_int
versioned_ref id version = id ⧺ "@" ⧺ decimal_int version

pub with_ref : Profile → Profile
with_ref profile = record profile { ref = versioned_ref profile.profile_id profile.version }

pub is_incomplete : Principal → Profile → Bool
is_incomplete p profile =
    str_eq p.tenant_id ""
    || str_eq p.user_id ""
    || str_eq profile.profile_id ""
    || ltb_ℤ profile.version (pos 1)

values : Assoc Profile → List Profile
values [] = []
values ((ref, profile) ∷ rest) = profile ∷ values rest

found_or : Option Profile → Result Profile
found_or none = err not_found
found_or (some profile) = ok profile

files_or : Option Profile → Result (List ProfileFile)
files_or none = err not_found
files_or (some profile) = ok profile.files

module _ {Seen : Type 0} where
  unfoldable pub shelf : Service Seen → String → Assoc Profile
  shelf s tenant = or_empty (lookup tenant s.profiles)

  -- `if s.profiles[p.TenantID] == nil`
  pub with_shelf : Service Seen → String → Service Seen
  with_shelf s tenant = elim (lookup tenant s.profiles) [
    | none ↦ record s { profiles = insert tenant [] s.profiles }
    | some _ ↦ s
  ]

  register_found : Option Profile → Service Seen → String → Profile → Service Seen × Result Profile
  unfolding shelf
  register_found none s tenant profile = (
    record s { profiles = insert tenant (insert profile.ref profile (shelf s tenant)) s.profiles },
    ok profile,
  )
  register_found (some existing) s tenant profile =
      if not (json_equal existing.spec profile.spec)
      then (s, err idempotency_conflict)
      else (s, ok existing)

  register_local : Service Seen → String → Profile → Service Seen × Result Profile
  unfolding with_shelf shelf register_found
  register_local s tenant profile =
      let s' = with_shelf s tenant in
      register_found (lookup profile.ref (shelf s' tenant)) s' tenant profile

  -- RegisterProfile; `stored` is the store's answer for the profile it is given.
  unfoldable pub register_profile :
      Option (Profile → Result Profile)
      → Service Seen
      → Principal
      → Profile
      → ℕ
      → Service Seen × Result Profile
  unfolding is_incomplete with_ref register_local
  register_profile stored s p profile now =
      if is_incomplete p profile
      then (s, err (invalid "tenant, user, profile_id and positive version are required"))
      else elim stored [
        | none ↦ register_local s p.tenant_id (record (with_ref profile) { created_at = now })
        | some answer ↦ (s, answer (with_ref profile))
      ]

  -- ListProfiles; Go visits the entries in no fixed order.
  unfoldable pub list_profiles :
      Option (Result (List Profile)) → Service Seen → Principal → Result (List Profile)
  unfolding values shelf
  list_profiles (some answer) s p = answer
  list_profiles none s p = ok (values (shelf s p.tenant_id))

  -- GetProfile
  pub get_profile : Option (Result Profile) → Service Seen → Principal → String → Result Profile
  unfolding found_or shelf
  get_profile (some answer) s p ref = answer
  get_profile none s p ref = found_or (lookup ref (shelf s p.tenant_id))

  -- ProfileFiles; a store that does not read files has none for any version.
  unfoldable pub profile_files :
      Option (Option (Result (List ProfileFile)))
      → Service Seen
      → Principal
      → String
      → Result (List ProfileFile)
  unfolding files_or shelf
  profile_files (some (some answer)) s p ref = answer
  profile_files (some none) s p ref = ok []
  profile_files none s p ref = files_or (lookup ref (shelf s p.tenant_id))

pub persona_profile_ref : String → String
persona_profile_ref id = "persona_" ⧺ id ⧺ "@1"
