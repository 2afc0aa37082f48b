-- ===== src/App/Experts.antt =====
-- internal/app/experts.go: what is checked of an expert before it is written, and its versions.
pub mod Accepted
pub mod Latest
use orbit_control.Prelude.{
  ℕ, ◌+◌, String, Bool, true, false, not, ◌&&◌, ◌||◌, Option, none, some, List, [], ◌∷◌, Assoc,
  lookup, insert, str_eq, ltb, ◌==◌, if◌then◌else◌, length,
}
use orbit_control.Prelude.Int.{ℤ, pos, ltb_ℤ, ◌+ℤ◌}
use orbit_control.Outcome.{Error, not_found, field_error, Result, ok, err, ◌>>=◌, ◌>>◌}
use orbit_control.Text.{trim_space}
use orbit_control.Text.Order.{rune_count}
use orbit_control.Service.{Profile}
use orbit_control.App.Refs.{valid_model_name, check_ref_list, check_connectors}
use orbit_control.App.Teams.{TeamMemberInput, kind_of, validate_members}

pub record ExpertInput : Type 0 where
  pub name : String
  pub instructions : String
  pub description : String
  pub soul : String
  pub model : String
  pub connector_ids : List String
  pub skill_ids : List String
  pub source : String
  pub kind : String
  pub leader : String
  pub members : List TeamMemberInput

abbrev pub is_none {ℓ} : {A : Type ℓ} → List A → Bool
is_none [] = true
is_none (x ∷ xs) = false

refuse : Bool → String → String → Result (Unit {0})
refuse true kind path = err (field_error kind path)
refuse false kind path = ok tt

-- `in` with its texts trimmed, and "expert" for a kind that is left out
pub trimmed : ExpertInput → ExpertInput
trimmed in_ = record in_ {
  name = trim_space in_.name;
  description = trim_space in_.description;
  instructions = trim_space in_.instructions;
  soul = trim_space in_.soul;
  model = trim_space in_.model;
  kind = if str_eq in_.kind "" then "expert" else in_.kind;
}

check_kind : String → Result (Unit {0})
unfolding refuse
check_kind kind =
    refuse (not (str_eq kind "expert") && not (str_eq kind "team")) "KIND_INVALID" "kind"

check_name : String → Result (Unit {0})
unfolding refuse
check_name name = refuse (str_eq name "" || ltb 100 (rune_count name)) "NAME_INVALID" "name"

-- What a team has none of.
check_bare : ExpertInput → Result (Unit {0})
unfolding refuse
check_bare in_ = do
  refuse (not (str_eq in_.description "")) "FIELD_NOT_ALLOWED" "description"
  refuse (not (str_eq in_.instructions "")) "FIELD_NOT_ALLOWED" "instructions"
  refuse (not (str_eq in_.soul "")) "FIELD_NOT_ALLOWED" "soul"
  refuse (not (str_eq in_.model "")) "FIELD_NOT_ALLOWED" "model"
  refuse (not (is_none in_.connector_ids)) "FIELD_NOT_ALLOWED" "connector_ids"
  refuse (not (is_none in_.skill_ids)) "FIELD_NOT_ALLOWED" "skill_ids"

-- validateTeam
pub validate_team : ExpertInput → Result ExpertInput
unfolding check_bare
validate_team in_ = do
  let leader = trim_space in_.leader
  check_bare in_
  members ← validate_members leader in_.members
  ok (record in_ { leader = leader; members = members })

check_texts : ExpertInput → Result (Unit {0})
unfolding refuse
check_texts in_ = do
  refuse (not (str_eq in_.leader "")) "FIELD_NOT_ALLOWED" "leader"
  refuse (not (is_none in_.members)) "FIELD_NOT_ALLOWED" "members"
  refuse (ltb 300 (rune_count in_.description)) "DESCRIPTION_TOO_LONG" "description"
  refuse (str_eq in_.instructions "") "AGENTS_MD_REQUIRED" "instructions"
  refuse (ltb 20000 (rune_count in_.instructions)) "INSTRUCTIONS_TOO_LONG" "instructions"
  refuse (ltb 20000 (rune_count in_.soul + rune_count in_.instructions)) "INSTRUCTIONS_TOO_LONG"
      "soul"
  refuse (not (str_eq in_.model "") && not (valid_model_name in_.model)) "MODEL_INVALID" "model"
  refuse (ltb 20 (length in_.connector_ids)) "CONNECTORS_INVALID" "connector_ids"

-- The cases of a single expert.
unfoldable pub validate_single : ExpertInput → Result ExpertInput
unfolding check_texts
validate_single in_ = do
  check_texts in_
  check_ref_list "skill_ids" "SKILLS_INVALID" in_.skill_ids
  check_connectors in_.connector_ids
  ok in_

-- ExpertInput.validate
unfoldable pub validate : ExpertInput → Result ExpertInput
unfolding trimmed check_kind check_name
validate given = do
  let in_ = trimmed given
  check_kind in_.kind
  check_name in_.name
  if str_eq in_.kind "team" then validate_team in_ else validate_single in_

abbrev pub is_expert : Profile → Bool
is_expert q = str_eq (kind_of q) "expert" || str_eq (kind_of q) "team"

newer : Option Profile → Profile → Bool
newer none q = true
newer (some current) q = ltb_ℤ current.version q.version

-- The loop of `latestProfiles`: the newest so far, and the profiles left.
latest_from : Assoc Profile → List Profile → Assoc Profile
unfolding newer
latest_from latest [] = latest
latest_from latest (q ∷ qs) =
    latest_from
      (if is_expert q && newer (lookup q.profile_id latest) q
        then insert q.profile_id q latest
        else latest)
      qs

unfoldable pub latest_profiles : List Profile → Assoc Profile
unfolding latest_from
latest_profiles qs = latest_from [] qs

-- UpdateExpert, up to what it writes: the input with its kind, and its version.
next_version : Option Profile → ExpertInput → Result (ExpertInput × ℤ)
next_version none in_ = err not_found
next_version (some latest) in_ =
    if str_eq in_.kind ""
    then ok (record in_ { kind = kind_of latest }, latest.version +ℤ pos 1)
    else if not (str_eq in_.kind (kind_of latest))
    then err (field_error "KIND_IMMUTABLE" "kind")
    else ok (in_, latest.version +ℤ pos 1)

unfoldable pub update_expert : List Profile → String → ExpertInput → Result (ExpertInput × ℤ)
unfolding next_version
update_expert profiles expert_id in_ =
    next_version (lookup expert_id (latest_profiles profiles)) in_
