-- ===== src/App/Skills.antt =====
-- internal/app/task_config.go: which skills a worker can be given, and the files it is given. What the
-- repository and the skill library answer are arguments.
pub mod Usable
use Prim.Native.Char.{Char, code}
use Prim.Native.String
use Prim.Native.String.{len}
use orbit_control.Prelude.{
  ℕ, ◌+◌, String, Bool, true, false, not, ◌&&◌, ◌||◌, Option, none, some, List, [], ◌∷◌, str_eq,
  ltb, ◌==◌, if◌then◌else◌,
}
use orbit_control.Outcome.{Error, not_found, field_error, Result, ok, err, ◌>>=◌}
use orbit_control.Catalog.{SkillFile, SkillRecord}

-- strings.Split(s, "/"): the segment before the first slash, and those behind it
pub segments : String → String × List String
segments String.[] = (String.[], [])
segments (String.◌∷◌ c s) =
    let (first, rest) = segments s in
    if code c == b'/' then (String.[], first ∷ rest) else (String.◌∷◌ c first, rest)

pub split : String → List String
unfolding segments
split s = let (first, rest) = segments s in first ∷ rest

-- strings.ContainsAny(name, "\\\x00")
has_forbidden : String → Bool
has_forbidden String.[] = false
has_forbidden (String.◌∷◌ c s) = let rest = has_forbidden s in code c == 92 || code c == 0 || rest

is_absolute : String → Bool
is_absolute String.[] = false
is_absolute (String.◌∷◌ c s) = code c == b'/'

all_plain : List String → Bool
all_plain [] = true
all_plain (s ∷ ss) =
    let rest = all_plain ss in
    not (str_eq s "") && not (str_eq s ".") && not (str_eq s "..") && rest

-- What is left of a name's checks: `path.Clean(name) == name`, which for a relative name without a
-- ".." means that no segment is empty or ".", or that the name is "." itself; and no ".." segment.
is_plain : String → Bool
unfolding split all_plain
is_plain name = str_eq name "." || all_plain (split name)

unfoldable pub is_safe_name : String → Bool
unfolding has_forbidden is_absolute is_plain
is_safe_name name =
    not (str_eq name "") && not (is_absolute name) && not (has_forbidden name) && is_plain name

-- The loop of `skillUsable`: whether SKILL.md was seen, and the files left.
usable_from : Bool → List SkillFile → Bool
usable_from seen [] = seen
usable_from seen (f ∷ fs) =
    let rest = usable_from (seen || str_eq f.path "SKILL.md") fs in is_safe_name f.path && rest

unfoldable pub skill_usable : List SkillFile → Bool
unfolding usable_from
skill_usable files = usable_from false files

-- What the catalog and the library answer about a skill.
pub record SkillAnswers : Type 0 where
  pub row : Result SkillRecord
  pub text_files : Result (List SkillFile × Bool)

usable_or : String → Result (List SkillFile × Bool) → Result (Unit {0})
usable_or path (err x) = err x
usable_or path (ok (files, known)) =
    if not known || not (skill_usable files) then err (field_error "SKILL_UNUSABLE" path) else ok tt

-- checkSkill
unfoldable pub check_skill : String → SkillAnswers → Result (Unit {0})
unfolding usable_or
check_skill path answers = elim answers.row [
  | err not_found ↦ err (field_error "SKILL_NOT_FOUND" path)
  | err x ↦ err x
  | ok rec ↦ usable_or path answers.text_files
]

bytes : List SkillFile → ℕ
bytes [] = 0
bytes (f ∷ fs) = len f.body + bytes fs

pub record SkillBundle : Type 0 where
  pub id : String
  pub name : String
  pub description : String
  pub bundle_files : List SkillFile

abbrev pub max_skill_bundle_bytes : ℕ
max_skill_bundle_bytes = 8388608

bundle_of : String → SkillRecord → Result (List SkillFile × Bool) → Result SkillBundle
unfolding bytes
bundle_of id rec (err x) = err x
bundle_of id rec (ok (files, known)) =
    if not known || not (skill_usable files) || ltb max_skill_bundle_bytes (bytes files)
    then err not_found
    else ok
        (record { id = id; name = rec.name; description = rec.description; bundle_files = files })

-- SkillBundleForWorker, for the id that the handle and the slug make, if they make one.
unfoldable pub skill_bundle_for_worker : Option String → SkillAnswers → Result SkillBundle
unfolding bundle_of
skill_bundle_for_worker none answers = err not_found
skill_bundle_for_worker (some id) answers =
    answers.row >>= λ rec. bundle_of id rec answers.text_files
