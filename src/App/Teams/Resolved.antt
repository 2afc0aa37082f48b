-- ===== src/App/Teams/Resolved.antt =====
-- The leader of a resolved team is the role of a member.
use mathlib.Core.Path.{subst}
use orbit_control.Prelude.{
  String, true, ◌≡◌, sym, ap, List, [], ◌∷◌, map, contains, arith, ◌∙◌, Bool-cases, inl, inr,
}
use orbit_control.Outcome.{Result, ok, bind-ok, ok_inj}
use orbit_control.Value.{Fields, get, text_or_empty, as_list}
use orbit_control.Config.{ConfigTeamMember, ConfigTeam}
use orbit_control.Service.{Profile}
use orbit_control.App.Teams.{
  TeamMember, member_role, team_member_profile, resolve_members, resolve_team, team_from_spec,
  with_leader, members_from, values_or_nil,
}

abbrev pub config_role : ConfigTeamMember → String
config_role m = m.role

with_leader-known :
    (leader : String) (ms : List TeamMember) (found : String × List TeamMember)
    → with_leader leader ms ≡ ok found
    → contains found.0 (map member_role found.1) ≡ true
unfolding with_leader
with_leader-known leader ms found h = elim (Bool-cases (contains leader (map member_role ms))) [
  | inl known ↦
      subst (λ f. contains f.0 (map member_role f.1) ≡ true)
        (ok_inj (leader, ms) found (rw known at h)) known
  | inr unknown ↦ ground arith
]

team_from_spec-known :
    (spec : Fields) (found : String × List TeamMember)
    → team_from_spec spec ≡ ok found
    → contains found.0 (map member_role found.1) ≡ true
unfolding team_from_spec
team_from_spec-known spec found h =
    let leader = text_or_empty (get "leader" spec) in
    let (ms, _, h₁) =
      bind-ok (members_from [] (values_or_nil (as_list (get "members" spec)))) (with_leader leader)
        {found = found} (ground arith) in
    with_leader-known leader ms found h₁

module _ (read : String → Result Profile) (bundled : String → String) where
  resolve_members-roles :
      (team_id : String) (ms : List TeamMember) (found : List ConfigTeamMember)
      → resolve_members read bundled team_id ms ≡ ok found
      → map config_role found ≡ map member_role ms
  unfolding resolve_members
  resolve_members-roles team_id [] found h = ground arith
  resolve_members-roles team_id (m ∷ ms) found h =
      let (q, _, h₁) = bind-ok (team_member_profile read team_id m.expert "expert") _ h in
      let (rest, h₂, h₃) = bind-ok (resolve_members read bundled team_id ms) _ h₁ in
      sym (ap (map config_role) (ok_inj _ found h₃))
      ∙ ap (λ l. m.role ∷ l) (resolve_members-roles team_id ms rest h₂)

  -- The leader of a team that is resolved is the role of one of its members.
  pub resolve_team-leader :
      (profile : Profile) (team : ConfigTeam)
      → resolve_team read bundled profile ≡ ok team
      → contains team.leader (map config_role team.members) ≡ true
  unfolding resolve_team
  resolve_team-leader profile team h =
      let (spec, h₁, h₂) = bind-ok (team_from_spec profile.spec) _ h in
      let (members, h₃, h₄) =
        bind-ok (resolve_members read bundled profile.profile_id spec.1) _ h₂ in
      subst (λ t. contains t.leader (map config_role t.members) ≡ true) (ok_inj _ team h₄)
        (rw (resolve_members-roles profile.profile_id spec.1 members h₃)
          (team_from_spec-known profile.spec spec h₁))
