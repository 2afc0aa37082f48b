-- ===== src/Service/Profiles/Versions.antt =====
-- A registered version of a profile is never changed, and stays within its tenant.
use orbit_control.Prelude.{
  ℕ, String, true, false, ◌≡◌, refl, sym, ◌∙◌, if◌then◌else◌, none, some, [], lookup, insert, arith,
  eq_iff, lookup-insert, eq_refl, Option-cases, Bool-cases, inl, inr,
}
use mathlib.Core.Path.{subst}
use orbit_control.Outcome.{idempotency_conflict, ok, err}
use orbit_control.Value.Same.{json_equal, json_equal_refl}
use orbit_control.Service.{Principal, Profile, Service}
use orbit_control.Service.Profiles.{
  shelf, with_shelf, register_profile, register_local, register_found, get_profile, with_ref,
  versioned_ref, found_or, is_incomplete,
}

module _ {Seen : Type 0} where
  shelf-with_shelf :
      (s : Service Seen) (tenant other : String) → shelf (with_shelf s tenant) other ≡ shelf s other
  unfolding shelf with_shelf
  shelf-with_shelf s tenant other = elim (Option-cases (lookup tenant s.profiles)) [
    | inl p ↦ ground (arith, eq_iff tenant other, lookup-insert tenant other [] s.profiles)
    | inr (m, p) ↦ ground arith
  ]

  register_found-kept :
      (s : Service Seen) (tenant : String) (profile : Profile) (other ref : String) (q : Profile)
      → lookup ref (shelf s other) ≡ some q
      → lookup ref
          (shelf (register_found (lookup profile.ref (shelf s tenant)) s tenant profile).0 other)
        ≡ some q
  unfolding shelf register_found
  register_found-kept s tenant profile other ref q h =
      elim (Option-cases (lookup profile.ref (shelf s tenant))) [
        | inl p ↦ ground (
          arith,
          eq_iff tenant other,
          eq_iff profile.ref ref,
          lookup-insert tenant other (insert profile.ref profile (shelf s tenant)) s.profiles,
          lookup-insert profile.ref ref profile (shelf s tenant),
        )
        | inr (e, p) ↦ elim (Bool-cases (json_equal e.spec profile.spec)) [
          | inl same ↦ rw (p, same) h
          | inr differs ↦ rw (p, differs) h
        ]
      ]

  -- A version that a tenant has registered is the same after every later registration, of whatever
  -- profile, by whomever, in whatever tenant.
  pub register_profile-kept :
      (s : Service Seen) (p : Principal) (profile : Profile) (now : ℕ) (tenant ref : String)
      (q : Profile)
      → lookup ref (shelf s tenant) ≡ some q
      → lookup ref (shelf (register_profile none s p profile now).0 tenant) ≡ some q
  unfolding register_profile register_local
  register_profile-kept s p profile now tenant ref q h =
      elim (Bool-cases (is_incomplete p profile)) [
        | inl bad ↦ rw bad h
        | inr good ↦ rw good (
            register_found-kept (with_shelf s p.tenant_id) p.tenant_id
              (record (with_ref profile) { created_at = now }) tenant ref q
              (rw (shelf-with_shelf s p.tenant_id tenant) h))
      ]

  -- a tenant with a registered version has its map
  with_shelf-settled :
      (s : Service Seen) (tenant ref : String) (q : Profile)
      → lookup ref (shelf s tenant) ≡ some q
      → with_shelf s tenant ≡ s
  unfolding shelf with_shelf lookup
  with_shelf-settled s tenant ref q h = ground arith

  register_found-settled :
      (s : Service Seen) (tenant : String) (profile r : Profile)
      → (register_found (lookup profile.ref (shelf s tenant)) s tenant profile).1 ≡ ok r
      → lookup profile.ref
          (shelf (register_found (lookup profile.ref (shelf s tenant)) s tenant profile).0 tenant)
        ≡ some r
  unfolding shelf register_found
  register_found-settled s tenant profile r h =
      elim (Option-cases (lookup profile.ref (shelf s tenant))) [
        | inl p ↦ ground (
          arith,
          lookup-insert tenant tenant (insert profile.ref profile (shelf s tenant)) s.profiles,
          lookup-insert profile.ref profile.ref profile (shelf s tenant),
          eq_refl tenant,
          eq_refl profile.ref,
        )
        | inr (e, p) ↦ ground arith
      ]

  register_profile-local :
      (s : Service Seen) (p : Principal) (profile : Profile) (now : ℕ)
      → is_incomplete p profile ≡ false
      → register_profile none s p profile now
        ≡ register_local s p.tenant_id (record (with_ref profile) { created_at = now })
  unfolding register_profile
  register_profile-local s p profile now good = rw good refl

  is_incomplete-accepted :
      (s : Service Seen) (p : Principal) (profile r : Profile) (now : ℕ)
      → (register_profile none s p profile now).1 ≡ ok r
      → is_incomplete p profile ≡ false
  unfolding register_profile
  is_incomplete-accepted s p profile r now h = ground arith

  register_local-again :
      (s : Service Seen) (tenant : String) (other r : Profile)
      → lookup other.ref (shelf s tenant) ≡ some r
      → register_local s tenant other
        ≡ (s, if json_equal r.spec other.spec then ok r else err idempotency_conflict)
  unfolding register_local register_found
  register_local-again s tenant other r h =
      rw (with_shelf-settled s tenant other.ref r h, h)
        (elim (Bool-cases (json_equal r.spec other.spec)) [
          | inl same ↦ rw same refl
          | inr differs ↦ rw differs refl
        ])

  register_settled :
      (s : Service Seen) (p : Principal) (profile r : Profile) (now : ℕ)
      → (register_profile none s p profile now).1 ≡ ok r
      → lookup (with_ref profile).ref (shelf (register_profile none s p profile now).0 p.tenant_id)
        ≡ some r
  unfolding register_local
  register_settled s p profile r now h =
      let e = register_profile-local s p profile now (is_incomplete-accepted s p profile r now h) in
      subst (λ x. lookup (with_ref profile).ref (shelf x.0 p.tenant_id) ≡ some r) (sym e)
        (register_found-settled (with_shelf s p.tenant_id) p.tenant_id
          (record (with_ref profile) { created_at = now }) r (subst (λ x. x.1 ≡ ok r) e h))

  -- After a registration that answered with a profile, reading that version answers with it, and
  -- registering the version again, at any time and with whatever else, changes nothing and answers
  -- with it if the spec is the same, and with a conflict otherwise.
  pub register_profile-settled :
      (s : Service Seen) (p : Principal) (profile r : Profile) (now : ℕ)
      → (register_profile none s p profile now).1 ≡ ok r
      → let s' = (register_profile none s p profile now).0 in
        (get_profile none s' p (versioned_ref profile.profile_id profile.version) ≡ ok r)
        × ((other : Profile) (later : ℕ)
            → other.profile_id ≡ profile.profile_id
            → other.version ≡ profile.version
            → register_profile none s' p other later
              ≡ (s', if json_equal r.spec other.spec then ok r else err idempotency_conflict))
  unfolding get_profile found_or with_ref is_incomplete
  register_profile-settled s p profile r now h =
      let q = register_settled s p profile r now h in
      let good = is_incomplete-accepted s p profile r now h in
      (
        rw q refl,
        λ other later same_id same_version.
            register_profile-local (register_profile none s p profile now).0 p other later
              (rw (same_id, same_version) good)
            ∙ register_local-again (register_profile none s p profile now).0 p.tenant_id
                (record (with_ref other) { created_at = later }) r (rw (same_id, same_version) q),
      )

  register_found-spec :
      (s : Service Seen) (tenant : String) (profile r : Profile)
      → (register_found (lookup profile.ref (shelf s tenant)) s tenant profile).1 ≡ ok r
      → json_equal r.spec profile.spec ≡ true
  unfolding register_found
  register_found-spec s tenant profile r h =
      elim (Option-cases (lookup profile.ref (shelf s tenant))) [
        | inl p ↦ ground (arith, json_equal_refl profile.spec)
        | inr (e, p) ↦ ground arith
      ]

  -- A registration that answered with a profile can be repeated at any time: the state stays as it
  -- is, and the answer is the same.
  pub register_profile-again :
      (s : Service Seen) (p : Principal) (profile r : Profile) (now later : ℕ)
      → (register_profile none s p profile now).1 ≡ ok r
      → register_profile none (register_profile none s p profile now).0 p profile later
        ≡ ((register_profile none s p profile now).0, ok r)
  unfolding register_local register_profile json_equal
  register_profile-again s p profile r now later h =
      let e = register_profile-local s p profile now (is_incomplete-accepted s p profile r now h) in
      let same =
        register_found-spec (with_shelf s p.tenant_id) p.tenant_id
          (record (with_ref profile) { created_at = now }) r (subst (λ x. x.1 ≡ ok r) e h) in
      (register_profile-settled s p profile r now h).1 profile later refl refl ∙ rw same refl
