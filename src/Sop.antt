-- ===== src/Sop.antt =====
-- internal/task/sop.go: procedures of steps with dependencies, how their defaults are filled in and
-- what makes one valid. `len` of a text counts its bytes; a nil `DependsOn` is `none`. An error's
-- message stands without the values that the source formats into it.
pub mod Patterns
pub mod Cycle
pub mod Valid
use Prim.Native.String.{len}
use orbit_control.Prelude.{
  ℕ, ◌+◌, String, Bool, true, false, not, ◌&&◌, ◌||◌, Option, none, some, List, [], ◌∷◌, map, ltb,
  leb, ◌==◌, str_eq, if◌then◌else◌, contains, length,
}
use orbit_control.Prelude.Int.{ℤ, pos, ltb_ℤ, eqb_ℤ}
use orbit_control.Outcome.{Error, invalid, Result, ok, err, ◌>>=◌, ◌>>◌}
use orbit_control.Text.{trim_space, ◌⧺◌, decimal}
use Patterns.{is_step_id, is_versioned_id, is_schema_ref}
use Cycle.{Node, has_cycle}

pub record SopVerifier : Type 0 where
  pub instructions : String
  pub expert : String

pub record SopArtifactSpec : Type 0 where
  pub name : String
  pub media_type : String
  pub min_count : ℤ

pub record SopStep : Type 0 where
  pub id : String
  pub subject : String
  pub description : String
  pub max_attempts : ℤ
  pub executor : String
  pub verifier : Option SopVerifier
  pub depends_on : Option (List String)
  pub output_schema_ref : String
  pub required_artifacts : List SopArtifactSpec
  pub human_approval : String

pub record Sop : Type 0 where
  pub sop_id : String
  pub version : ℤ
  pub ref : String
  pub name : String
  pub description : String
  pub steps : List SopStep
  pub created_at : ℕ

dedupe_from : List String → List String → List String
dedupe_from seen [] = []
dedupe_from seen (item ∷ items) = elim (contains item seen) [
  | true ↦ dedupe_from seen items
  | false ↦ item ∷ dedupe_from (item ∷ seen) items
]

unfoldable pub dedupe : List String → List String
unfolding dedupe_from
dedupe items = dedupe_from [] items

-- The name of the step at a position: "s" and the position, counted from 1.
unfoldable pub step_name : ℕ → String
step_name position = "s" ⧺ decimal position

or_text : String → String → String
or_text s default = if str_eq s "" then default else s

-- What a step waits for; `index` counts from 0, `previous` is the id that the step before was given
-- in the definition.
depends : ℕ → String → Option (List String) → List String
depends index previous none = if index == 0 then [] else or_text previous (step_name index) ∷ []
depends index previous (some items) = dedupe items

at_least_one : SopArtifactSpec → SopArtifactSpec
at_least_one a = if eqb_ℤ a.min_count (pos 0) then record a { min_count = pos 1 } else a

unfoldable pub normalize_step : ℕ → String → SopStep → SopStep
unfolding or_text depends at_least_one
normalize_step index previous step =
    let subject = trim_space step.subject in
    record step {
      subject = subject;
      id = or_text step.id (step_name (index + 1));
      description = if str_eq (trim_space step.description) "" then subject else step.description;
      max_attempts = if eqb_ℤ step.max_attempts (pos 0) then pos 3 else step.max_attempts;
      depends_on = some (depends index previous step.depends_on);
      required_artifacts = map at_least_one step.required_artifacts;
    }

unfoldable pub normalize_from : ℕ → String → List SopStep → List SopStep
normalize_from index previous [] = []
normalize_from index previous (step ∷ steps) =
    normalize_step index previous step ∷ normalize_from (index + 1) step.id steps

unfoldable pub normalize_sop_steps : List SopStep → List SopStep
normalize_sop_steps steps = normalize_from 0 "" steps

refuse_if : Bool → String → Result (Unit {0})
refuse_if true message = err (invalid message)
refuse_if false message = ok tt

-- The loop over the ids as they were written: those before, and the steps left.
check_written : List String → List SopStep → Result (List String)
unfolding refuse_if
check_written written [] = ok written
check_written written (step ∷ steps) =
    let next = check_written (step.id ∷ written) steps in
    let skipped = check_written written steps in
    if str_eq step.id ""
    then skipped
    else if not (is_step_id step.id)
    then err (invalid "step id is not valid")
    else if contains step.id written
    then err (invalid "step ids must be unique")
    else next

check_defaults : List String → ℕ → List SopStep → Result (Unit {0})
check_defaults written index [] = ok tt
check_defaults written index (step ∷ steps) =
    let rest = check_defaults written (index + 1) steps in
    if str_eq step.id "" && contains (step_name (index + 1)) written
    then err (invalid "a step has no id and its default id is taken")
    else rest

-- The ids of the normalized steps, each new.
collect_ids : List String → List SopStep → Result (List String)
collect_ids ids [] = ok ids
collect_ids ids (step ∷ steps) =
    let rest = collect_ids (step.id ∷ ids) steps in
    if contains step.id ids then err (invalid "step ids must be unique") else rest

check_verifier : Option SopVerifier → Result (Unit {0})
unfolding refuse_if
check_verifier none = ok tt
check_verifier (some v) = do
  refuse_if (ltb 8000 (len v.instructions)) "the verifier's instructions are too long"
  refuse_if (not (str_eq v.expert "") && not (is_versioned_id v.expert))
      "verifier expert is not a versioned profile ref (expert@3)"

check_artifacts : List SopArtifactSpec → Result (Unit {0})
check_artifacts [] = ok tt
check_artifacts (a ∷ as_) =
    let rest = check_artifacts as_ in
    if str_eq a.name "" || str_eq a.media_type "" || ltb_ℤ a.min_count (pos 1)
    then err (invalid "a required artifact needs a name, a media type and a count of at least 1")
    else rest

unfoldable pub validate_sop_step : SopStep → Result (Unit {0})
unfolding refuse_if check_verifier check_artifacts
validate_sop_step step = do
  refuse_if (str_eq step.subject "" || ltb 200 (len step.subject))
      "a step needs a subject of at most 200 characters"
  refuse_if (ltb 8000 (len step.description)) "the description is too long"
  refuse_if (ltb_ℤ step.max_attempts (pos 1) || ltb_ℤ (pos 20) step.max_attempts)
      "max_attempts is from 1 to 20"
  refuse_if (not (str_eq step.executor "") && not (is_versioned_id step.executor))
      "executor is not a versioned profile ref (expert@3)"
  check_verifier step.verifier
  refuse_if (not (str_eq step.output_schema_ref "") && not (is_schema_ref step.output_schema_ref))
      "output_schema_ref must look like schema://name/1"
  check_artifacts step.required_artifacts
  refuse_if
      (not (str_eq step.human_approval "")
        && not (str_eq step.human_approval "before")
        && not (str_eq step.human_approval "after"))
      "human_approval is before, after or left out"

abbrev pub or_empty : Option (List String) → List String
or_empty none = []
or_empty (some xs) = xs

check_dependencies : List String → String → List String → Result (Unit {0})
check_dependencies ids id [] = ok tt
check_dependencies ids id (dependency ∷ dependencies) =
    let rest = check_dependencies ids id dependencies in
    if str_eq dependency id
    then err (invalid "a step depends on itself")
    else if not (contains dependency ids)
    then err (invalid "a step depends on an unknown step")
    else rest

check_steps : List String → List SopStep → Result (Unit {0})
unfolding check_dependencies
check_steps ids [] = ok tt
check_steps ids (step ∷ steps) = do
  validate_sop_step step
  check_dependencies ids step.id (or_empty step.depends_on)
  check_steps ids steps

abbrev pub node_of : SopStep → Node
node_of step = record { id = step.id; depends_on = or_empty step.depends_on }

sop_name : Sop → String
sop_name sop = or_text (trim_space sop.name) sop.sop_id

unfoldable pub validate_sop : Sop → Result Sop
unfolding refuse_if check_written check_defaults collect_ids check_steps sop_name or_text
validate_sop sop = do
  refuse_if (length sop.steps == 0) "an SOP needs at least one step"
  refuse_if (ltb 50 (length sop.steps)) "an SOP has at most 50 steps"
  refuse_if (ltb 200 (len (sop_name sop)) || ltb 8000 (len sop.description))
      "the name or the description is too long"
  written ← check_written [] sop.steps
  check_defaults written 0 sop.steps
  let steps = normalize_sop_steps sop.steps
  ids ← collect_ids [] steps
  check_steps ids steps
  refuse_if (has_cycle (map node_of steps)) "the steps' dependencies contain a cycle"
  ok (record sop { name = sop_name sop; steps = steps })
