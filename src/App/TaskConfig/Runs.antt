-- ===== src/App/TaskConfig/Runs.antt =====
-- A configuration that is resolved is one that can run.
use mathlib.Core.Option.{some-injective}
use mathlib.Core.Path.{subst}
use orbit_control.Prelude.{
  ◌≤◌, String, Bool, true, false, ◌≡◌, refl, sym, ◌∙◌, ◌⊎◌, inl, inr, Option, none, some, List, [],
  ◌∷◌, map, Occurs, Assoc, str_eq, eq_iff, if◌then◌else◌, contains, arith, Bool-cases, length,
}
use orbit_control.Outcome.{Error, Result, ok, err, then-ok, bind-ok, ok_inj}
use orbit_control.Permissions
use orbit_control.Config.{ConfigTeam, ConfigTeamMember, ConfigInput}
use orbit_control.Catalog.{McpConnectorRecord}
use orbit_control.Service.{Profile}
use orbit_control.App.Teams.{resolve_team, kind_of}
use orbit_control.App.Teams.Resolved.{config_role, resolve_team-leader}
use orbit_control.Service.Mentions.Clean.{Fresh}
use orbit_control.App.Refs.{check_ref_list, check_ref_list-Fresh}
use orbit_control.App.TaskConfig.{
  TaskConfigRequest, Selected, role_expert, select_profile, resolve_expert, resolve_task_config,
  check_mode, mode_of, with_leader, check_model, snapshots_of, check_skills, ids_or_none,
  at_team_ref, check_expert,
}
use orbit_control.App.Skills.{SkillAnswers}
use orbit_control.App.Connectors.{snapshots_for}
use orbit_control.App.Connectors.Snapshots.{Snapshots, snapshots_for-Snapshots}
use orbit_control.Value.{Fields}

-- a member of the team that has the leader's role and is run by the expert
abbrev pub LeaderRuns : String → ConfigTeam → Type 0
LeaderRuns expert team =
    (m : ConfigTeamMember) × Occurs m team.members × (m.role ≡ team.leader) × (m.expert ≡ expert)

role_expert-kept :
    (leader found : String) (ms : List ConfigTeamMember)
    → contains leader (map config_role ms) ≡ false
    → role_expert leader found ms ≡ found
unfolding role_expert
role_expert-kept leader found [] h = refl
role_expert-kept leader found (m ∷ ms) h =
    role_expert-kept leader (if str_eq m.role leader then m.expert else found) ms (ground arith)
    ∙ ground arith

role_expert-given :
    (leader found : String) (ms : List ConfigTeamMember)
    → contains leader (map config_role ms) ≡ true
    → (m : ConfigTeamMember) × Occurs m ms
      × (m.role ≡ leader)
      × (m.expert ≡ role_expert leader found ms)
unfolding role_expert
role_expert-given leader found [] h = ground arith
role_expert-given leader found (m ∷ ms) h =
    elim (Bool-cases (contains leader (map config_role ms))) [
      | inl later ↦
          let (n, there, role, runs) =
            role_expert-given leader (if str_eq m.role leader then m.expert else found) ms later in
          (n, inr there, role, runs)
      | inr last ↦ (
        m,
        inl refl,
        ground (arith, eq_iff m.role leader),
        sym (
            role_expert-kept leader (if str_eq m.role leader then m.expert else found) ms last
            ∙ ground arith),
      )
    ]

abbrev pub LeaderOf : Selected → Type 0
LeaderOf x = (team : ConfigTeam) → x.team ≡ some team → LeaderRuns x.runs team

unless_ok :
    {A : Type 0} (b : Bool) (e : Error) (y x : A) → (if b then err e else ok y) ≡ ok x → y ≡ x
unless_ok true e y x h = ground arith
unless_ok false e y x h = ok_inj y x h

with_leader-LeaderOf :
    (in_ : TaskConfigRequest) (q : Profile) (team : ConfigTeam) (x : Selected)
    → contains team.leader (map config_role team.members) ≡ true
    → with_leader in_ q team ≡ ok x
    → LeaderOf x
unfolding with_leader
with_leader-LeaderOf in_ q team x known h =
    let runs = role_expert team.leader "" team.members in
    subst LeaderOf
      (unless_ok _ _ (record { runs = runs; team = some (record team { ref = q.ref }) }) x h)
      (λ team' found.
        subst (LeaderRuns runs) (some-injective (record team { ref = q.ref }) team' found)
          (role_expert-given team.leader "" team.members known))

select_profile-LeaderOf :
    (read : String → Result Profile) (bundled : String → String) (in_ : TaskConfigRequest)
    (q : Profile) (x : Selected)
    → select_profile read bundled in_ q ≡ ok x
    → LeaderOf x
unfolding select_profile
select_profile-LeaderOf read bundled in_ q x h = elim (Bool-cases (str_eq (kind_of q) "team")) [
  | inl team_ ↦
      let (team, h₁, h₂) =
        bind-ok (resolve_team read bundled q) (with_leader in_ q) {found = x} (rw team_ at h) in
      with_leader-LeaderOf in_ q team x (resolve_team-leader read bundled q team h₁) h₂
  | inr single ↦ λ team found. ground arith
]

check_mode-known :
    (mode : String)
    → check_mode mode ≡ ok tt
    → (mode ≡ "default") ⊎ ((mode ≡ "plan") ⊎ (mode ≡ "ask"))
unfolding check_mode
check_mode-known mode h =
    ground (arith, eq_iff mode "default", eq_iff mode "plan", eq_iff mode "ask")

-- what is asked for, or left out, is what the configuration has
abbrev pub Connected :
    Result (Assoc McpConnectorRecord) → Option (List String) → Option (List Fields) → Type 0
Connected connectors none c = c ≡ none
Connected connectors (some ids) c = (fs : List Fields) × (c ≡ some fs) × Snapshots connectors ids fs

snapshots_of-Connected :
    (connectors : Result (Assoc McpConnectorRecord)) (asked : Option (List String))
    (c : Option (List Fields))
    → snapshots_of connectors asked ≡ ok c
    → Connected connectors asked c
unfolding snapshots_of
snapshots_of-Connected connectors none c h = sym (ok_inj none c h)
snapshots_of-Connected connectors (some []) c h = ([], sym (ok_inj (some []) c h), tt)
snapshots_of-Connected connectors (some (id ∷ ids)) c h =
    let (by_id, h₁, h₂) = bind-ok connectors _ h in
    let (fs, h₃, h₄) = bind-ok (snapshots_for by_id (id ∷ ids)) _ h₂ in
    (
      fs,
      sym (ok_inj (some fs) c h₄),
      subst (λ r. Snapshots r (id ∷ ids) fs) (sym h₁)
          (snapshots_for-Snapshots by_id (id ∷ ids) fs h₃),
    )

module _ (read : String → Result Profile) (bundled : String → String)
    (connectors : Result (Assoc McpConnectorRecord)) (skills : String → SkillAnswers)
    (permissions : Option Permissions.Permissions → Result Permissions.Permissions) where
  abbrev pub Runnable : TaskConfigRequest → ConfigInput → Type 0
  Runnable in_ c =
      ((c.mode ≡ "default") ⊎ ((c.mode ≡ "plan") ⊎ (c.mode ≡ "ask")))
      × ((granted : Permissions.Permissions) × (permissions in_.permissions ≡ ok granted)
          × (c.permissions ≡ some granted))
      × ((length (ids_or_none c.skills) ≤ 20) × Fresh [] (ids_or_none c.skills))
      × ((length (ids_or_none in_.connector_ids) ≤ 20) × Fresh [] (ids_or_none in_.connector_ids))
      × Connected connectors in_.connector_ids c.connectors
      × ((team : ConfigTeam) → c.team ≡ some team → LeaderRuns c.expert team)

  -- A configuration that is resolved from a request has a known mode and the permissions that were
  -- resolved for it, its skills are at most twenty and none is listed twice, and its connectors are the
  -- snapshots, one for one, of the at most twenty and distinct connectors that the request names, or
  -- left out as there. Where it has a team, its expert is the one of a member with the leader's role.
  pub resolve_task_config-Runnable :
      (in_ : TaskConfigRequest) (c : ConfigInput)
      → resolve_task_config read bundled connectors skills permissions in_ ≡ ok c
      → Runnable in_ c
  unfolding resolve_task_config resolve_expert
  resolve_task_config-Runnable in_ c h =
      let (mode, h₁) = then-ok (check_mode (mode_of in_.mode)) _ h in
      let (_, h₂) = then-ok (check_model in_.model) _ h₁ in
      let (granted, p, h₃) = bind-ok (permissions in_.permissions) _ h₂ in
      let (x, s, h₄) = bind-ok (resolve_expert read bundled in_) _ h₃ in
      let (few_skills, h₅) =
        then-ok (check_ref_list "skills" "SKILLS_INVALID" (ids_or_none in_.skills)) _ h₄ in
      let (few_ids, h₆) =
        then-ok
          (check_ref_list "connector_ids" "CONNECTORS_INVALID" (ids_or_none in_.connector_ids)) _
          h₅ in
      let (shots, taken, h₇) = bind-ok (snapshots_of connectors in_.connector_ids) _ h₆ in
      let (_, h₈) = then-ok (check_skills skills 0 (ids_or_none in_.skills)) _ h₇ in
      let selected = if str_eq in_.team_ref "" then in_.expert else in_.team_ref in
      let (q, _, chosen) =
        bind-ok (at_team_ref in_.team_ref (check_expert read selected))
          (select_profile read bundled in_) s in
      subst (Runnable in_) (ok_inj _ c h₈) (
        check_mode-known (mode_of in_.mode) mode,
        (granted, p, refl),
        check_ref_list-Fresh "skills" "SKILLS_INVALID" (ids_or_none in_.skills) few_skills,
        check_ref_list-Fresh "connector_ids" "CONNECTORS_INVALID" (ids_or_none in_.connector_ids)
            few_ids,
        snapshots_of-Connected connectors in_.connector_ids shots taken,
        select_profile-LeaderOf read bundled in_ q x chosen,
      )
