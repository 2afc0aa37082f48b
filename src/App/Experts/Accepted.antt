-- ===== src/App/Experts/Accepted.antt =====
-- What an accepted expert or team holds to.
use mathlib.Core.Path.{subst}
use orbit_control.Prelude.{
  ℕ, ◌+◌, ◌≤◌, String, Bool, true, false, ◌≡◌, ◌≢◌, refl, sym, ◌&&◌, ◌||◌, ◌⊎◌, inl, inr, not, List,
  [], ◌∷◌, str_eq, arith, eq_iff, Bool-cases, contains, length, map, ltb, ne_of_str_eq,
  eq_of_str_eq,
}
use orbit_control.Outcome.{ok, then-ok, bind-ok, ok_inj}
use orbit_control.Text.{trim_space}
use orbit_control.Text.Order.{rune_count}
use orbit_control.Service.Mentions.Clean.{Fresh}
use orbit_control.App.Refs.{
  valid_model_name, check_ref_list, check_connectors, check_ref_list-Fresh, check_connectors-Fresh,
}
use orbit_control.App.Teams.{role_of, validate_members}
use orbit_control.App.Teams.Stored.{Sound, validate_members-Sound}
use orbit_control.App.Experts.{
  ExpertInput, is_none, refuse, trimmed, check_kind, check_name, check_bare, check_texts,
  validate_team, validate_single, validate,
}

refuse-ok : (b : Bool) (kind path : String) → refuse b kind path ≡ ok tt → b ≡ false
unfolding refuse
refuse-ok true kind path h = ground arith
refuse-ok false kind path h = refl

none_of : {A : Type 0} (xs : List A) → not (is_none xs) ≡ false → xs ≡ []
none_of [] h = refl
none_of (x ∷ xs) h = ground arith

set_of : (b : Bool) → not b ≡ false → b ≡ true
set_of true h = refl
set_of false h = ground arith

few : (n m : ℕ) → ltb n m ≡ false → m ≤ n
few n m h = ground arith

model_of :
    (model : String)
    → (not (str_eq model "") && not (valid_model_name model)) ≡ false
    → (model ≡ "") ⊎ (valid_model_name model ≡ true)
model_of model h = ground (arith, eq_iff model "")

-- A single expert: its own texts are within their bounds, and no reference is there twice.
abbrev pub IsSingle : ExpertInput → Type 0
IsSingle v =
    (v.kind ≡ "expert")
    × (v.instructions ≢ "")
    × (rune_count v.soul + rune_count v.instructions ≤ 20000)
    × (rune_count v.description ≤ 300)
    × ((v.model ≡ "") ⊎ (valid_model_name v.model ≡ true))
    × (v.leader ≡ "")
    × (v.members ≡ [])
    × ((length v.connector_ids ≤ 20) × Fresh [] v.connector_ids)
    × ((length v.skill_ids ≤ 20) × Fresh [] v.skill_ids)

-- A team: one to eight members with distinct roles, one of them the leader's, and nothing of its own.
abbrev pub IsTeam : ExpertInput → Type 0
IsTeam v =
    (v.kind ≡ "team")
    × Sound [] v.members
    × (1 ≤ length v.members)
    × (length v.members ≤ 8)
    × (contains v.leader (map role_of v.members) ≡ true)
    × (v.description ≡ "")
    × (v.instructions ≡ "")
    × (v.soul ≡ "")
    × (v.model ≡ "")
    × (v.connector_ids ≡ [])
    × (v.skill_ids ≡ [])

validate_single-ok :
    (in_ v : ExpertInput)
    → in_.kind ≡ "expert"
    → validate_single in_ ≡ ok v
    → (in_ ≡ v) × IsSingle in_
unfolding validate_single check_texts
validate_single-ok in_ v k h =
    let (texts, h₁) = then-ok (check_texts in_) _ h in
    let (skills, h₂) = then-ok (check_ref_list "skill_ids" "SKILLS_INVALID" in_.skill_ids) _ h₁ in
    let (connectors, h₃) = then-ok (check_connectors in_.connector_ids) _ h₂ in
    let (no_leader, t₁) =
      then-ok (refuse (not (str_eq in_.leader "")) "FIELD_NOT_ALLOWED" "leader") _ texts in
    let (no_members, t₂) =
      then-ok (refuse (not (is_none in_.members)) "FIELD_NOT_ALLOWED" "members") _ t₁ in
    let (short, t₃) =
      then-ok (refuse (ltb 300 (rune_count in_.description)) "DESCRIPTION_TOO_LONG" "description") _
        t₂ in
    let (there, t₄) =
      then-ok (refuse (str_eq in_.instructions "") "AGENTS_MD_REQUIRED" "instructions") _ t₃ in
    let (_, t₅) =
      then-ok
        (refuse (ltb 20000 (rune_count in_.instructions)) "INSTRUCTIONS_TOO_LONG" "instructions") _
        t₄ in
    let (both, t₆) =
      then-ok
        (refuse (ltb 20000 (rune_count in_.soul + rune_count in_.instructions))
          "INSTRUCTIONS_TOO_LONG" "soul")
        _ t₅ in
    let (model, t₇) =
      then-ok
        (refuse (not (str_eq in_.model "") && not (valid_model_name in_.model)) "MODEL_INVALID"
          "model")
        _ t₆ in
    (
      ok_inj in_ v h₃,
      (
        k,
        ne_of_str_eq in_.instructions "" (refuse-ok _ _ _ there),
        few 20000 _ (refuse-ok _ _ _ both),
        few 300 _ (refuse-ok _ _ _ short),
        model_of in_.model (refuse-ok _ _ _ model),
        eq_of_str_eq in_.leader "" (set_of _ (refuse-ok _ _ _ no_leader)),
        none_of in_.members (refuse-ok _ _ _ no_members),
        (few 20 _ (refuse-ok _ _ _ t₇), check_connectors-Fresh in_.connector_ids connectors),
        check_ref_list-Fresh "skill_ids" "SKILLS_INVALID" in_.skill_ids skills,
      ),
    )

neither : (b c : Bool) → (b || c) ≡ false → (b ≡ false) × (c ≡ false)
neither false c h = (refl, h)
neither true c h = ground arith

expert_of :
    (kind : String)
    → str_eq kind "team" ≡ false
    → (not (str_eq kind "expert") && not (str_eq kind "team")) ≡ false
    → kind ≡ "expert"
expert_of kind t h = ground (arith, eq_iff kind "expert")

check_bare-none :
    (in_ : ExpertInput)
    → check_bare in_ ≡ ok tt
    → (in_.description ≡ "")
      × (in_.instructions ≡ "")
      × (in_.soul ≡ "")
      × (in_.model ≡ "")
      × (in_.connector_ids ≡ [])
      × (in_.skill_ids ≡ [])
unfolding check_bare
check_bare-none in_ h =
    let (z, t₁) =
      then-ok (refuse (not (str_eq in_.description "")) "FIELD_NOT_ALLOWED" "description") _ h in
    let (a, t₂) =
      then-ok (refuse (not (str_eq in_.instructions "")) "FIELD_NOT_ALLOWED" "instructions") _ t₁ in
    let (b, t₃) = then-ok (refuse (not (str_eq in_.soul "")) "FIELD_NOT_ALLOWED" "soul") _ t₂ in
    let (c, t₄) = then-ok (refuse (not (str_eq in_.model "")) "FIELD_NOT_ALLOWED" "model") _ t₃ in
    let (d, t₅) =
      then-ok (refuse (not (is_none in_.connector_ids)) "FIELD_NOT_ALLOWED" "connector_ids") _ t₄ in
    (
      eq_of_str_eq in_.description "" (set_of _ (refuse-ok _ _ _ z)),
      eq_of_str_eq in_.instructions "" (set_of _ (refuse-ok _ _ _ a)),
      eq_of_str_eq in_.soul "" (set_of _ (refuse-ok _ _ _ b)),
      eq_of_str_eq in_.model "" (set_of _ (refuse-ok _ _ _ c)),
      none_of in_.connector_ids (refuse-ok _ _ _ d),
      none_of in_.skill_ids (refuse-ok _ _ _ t₅),
    )

validate_team-ok :
    (in_ v : ExpertInput)
    → in_.kind ≡ "team"
    → validate_team in_ ≡ ok v
    → (v.name ≡ in_.name) × IsTeam v
unfolding validate_team
validate_team-ok in_ v k h =
    let leader = trim_space in_.leader in
    let (bare, h₁) = then-ok (check_bare in_) _ h in
    let (members, h₂, h₃) = bind-ok (validate_members leader in_.members) _ h₁ in
    let (sound, some_, few_, known) = validate_members-Sound leader in_.members members h₂ in
    let (z, a, b, c, d, e) = check_bare-none in_ bare in
    subst (λ w. (w.name ≡ in_.name) × IsTeam w)
      (ok_inj (record in_ { leader = leader; members = members }) v h₃)
      (refl, (k, sound, some_, few_, known, z, a, b, c, d, e))

-- An expert or a team that is accepted has a name of at most 100 characters that is not empty. A single
-- expert has instructions, texts within their bounds, a model that is empty or well formed, no leader and
-- no members, and at most twenty skills and connectors, each once. A team has one to eight members with
-- distinct roles, one of them the leader's, and no texts, model, skills or connectors of its own.
pub validate-ok :
    (given v : ExpertInput)
    → validate given ≡ ok v
    → (v.name ≢ "") × (rune_count v.name ≤ 100) × (IsSingle v ⊎ IsTeam v)
unfolding validate check_name check_kind
validate-ok given v h =
    let in_ = trimmed given in
    let (kind, h₁) = then-ok (check_kind in_.kind) _ h in
    let (name, h₂) = then-ok (check_name in_.name) _ h₁ in
    let named = refuse-ok (str_eq in_.name "" || ltb 100 (rune_count in_.name)) _ _ name in
    let set = ne_of_str_eq in_.name "" (neither _ _ named).0 in
    let short = few 100 (rune_count in_.name) (neither _ _ named).1 in
    elim (Bool-cases (str_eq in_.kind "team")) [
      | inl team ↦
          let (same, is) =
            validate_team-ok in_ v (eq_of_str_eq in_.kind "team" team) (rw team at h₂) in
          (
            subst (λ n. n ≢ "") (sym same) set,
            subst (λ n. rune_count n ≤ 100) (sym same) short,
            inr is,
          )
      | inr other ↦
          let single = expert_of in_.kind other (refuse-ok _ _ _ kind) in
          let (same, is) = validate_single-ok in_ v single (rw other at h₂) in
          subst (λ w. (w.name ≢ "") × (rune_count w.name ≤ 100) × (IsSingle w ⊎ IsTeam w)) same
            (set, short, inl is)
    ]
