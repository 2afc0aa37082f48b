-- ===== src/Config/RoundTrip.antt =====
-- The workflow's copy of a configuration shows a reader what the caller set.
use orbit_control.Prelude.{
  String, ◌≡◌, ◌≢◌, refl, ap, Option, none, some, List, [], ◌∷◌, map, arith, eq_iff,
}
use orbit_control.Prelude.Int.{ℤ}
use orbit_control.Permissions.{permissions_from_workflow}
use orbit_control.Permissions.RoundTrip.{permissions-roundtrip}
use orbit_control.Value.{Fields, put, get, text, number, as_text, as_list}
use orbit_control.Config.{
  ConfigTeamMember, ConfigTeam, ConfigInput, member_entry, member_of, member_values, members_of,
  workflow_team, team_from_workflow, workflow_config, view, config_from_workflow, option_map,
  text_values, texts_of, object_values, ids_of, connector_id, nonempty,
}
use orbit_control.Value.{object}

-- a member's name is never sent
abbrev pub unnamed : ConfigTeamMember → ConfigTeamMember
unnamed m = record m { name = "" }

abbrev pub without_names : Option ConfigTeam → Option ConfigTeam
without_names none = none
without_names (some t) = some (record t { members = map unnamed t.members })

member_roundtrip : (m : ConfigTeamMember) → member_of (object (member_entry m)) ≡ unnamed m
unfolding put get
member_roundtrip m = ground (arith, eq_iff m.label "", eq_iff m.description "")

members_roundtrip : (ms : List ConfigTeamMember) → members_of (member_values ms) ≡ map unnamed ms
members_roundtrip [] = refl
members_roundtrip (m ∷ ms) = cc (member_roundtrip m, members_roundtrip ms)

-- A team read back from the workflow is the team that was sent, less the members' names.
pub team-roundtrip :
    (t : Option ConfigTeam) → team_from_workflow (some (workflow_team t)) ≡ without_names t
unfolding workflow_team team_from_workflow put get
team-roundtrip none = refl
team-roundtrip (some t) = ground (arith, eq_iff t.ref "", members_roundtrip t.members)

texts_roundtrip : (ss : List String) → texts_of (text_values ss) ≡ ss
texts_roundtrip [] = refl
texts_roundtrip (s ∷ ss) = ap (λ l. s ∷ l) (texts_roundtrip ss)

ids_roundtrip : (cs : List Fields) → ids_of (object_values cs) ≡ map connector_id cs
ids_roundtrip [] = refl
ids_roundtrip (c ∷ cs) = ap (λ l. connector_id c ∷ l) (ids_roundtrip cs)

pub skills_roundtrip :
    (ss : Option (List String)) → option_map texts_of (option_map text_values ss) ≡ ss
skills_roundtrip none = refl
skills_roundtrip (some ss) = ap some (texts_roundtrip ss)

connectors_roundtrip :
    (cs : Option (List Fields))
    → option_map ids_of (option_map object_values cs) ≡ option_map (map connector_id) cs
connectors_roundtrip none = refl
connectors_roundtrip (some cs) = ap some (ids_roundtrip cs)

module _ (c : ConfigInput) (version : ℤ) where
  pub get-version : get "config_version" (workflow_config c version) ≡ some (number version)
  unfolding workflow_config put get
  get-version = ground arith

  pub get-mode : get "mode" (workflow_config c version) ≡ some (text c.mode)
  unfolding workflow_config put get
  get-mode = ground arith

  pub get-model : get "model" (workflow_config c version) ≡ some (text c.model)
  unfolding workflow_config put get
  get-model = ground arith

  pub get-team : get "team" (workflow_config c version) ≡ some (workflow_team c.team)
  unfolding workflow_config put get
  get-team = ground arith

  pub get-expert : as_text (get "expert" (workflow_config c version)) ≡ nonempty c.expert
  unfolding workflow_config put get
  get-expert = ground arith

  pub get-skills :
      as_list (get "skills" (workflow_config c version)) ≡ option_map text_values c.skills
  unfolding workflow_config put get
  get-skills = ground arith

  pub get-connectors :
      as_list (get "connectors" (workflow_config c version)) ≡ option_map object_values c.connectors
  unfolding workflow_config put get
  get-connectors = ground arith

  pub get-permissions :
      permissions_from_workflow (get "permissions" (workflow_config c version)) ≡ c.permissions
  unfolding workflow_config put get permissions_from_workflow
  get-permissions = ground (arith, permissions-roundtrip c.permissions)

-- What a reader gets from the workflow's copy of a configuration with a mode is the view of the
-- configuration itself, less the members' names: the version, the expert, the mode, the model, the
-- permissions, and skills and connectors with "none set" kept apart from "the empty list".
pub view-roundtrip :
    (c : ConfigInput) (version : ℤ)
    → c.mode ≢ ""
    → config_from_workflow (workflow_config c version)
      ≡ view (record c { team = without_names c.team }) version
unfolding config_from_workflow view
view-roundtrip c version h = ground (
  arith,
  get-version c version,
  get-mode c version,
  get-model c version,
  get-team c version,
  get-expert c version,
  get-skills c version,
  get-connectors c version,
  get-permissions c version,
  team-roundtrip c.team,
  skills_roundtrip c.skills,
  connectors_roundtrip c.connectors,
  eq_iff c.mode "",
  eq_iff c.expert "",
)
