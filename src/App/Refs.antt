-- ===== src/App/Refs.antt =====
-- internal/app/task_config.go and experts.go: the patterns of roles and model names, and lists of
-- references.
use Prim.Native.Char.{code}
use orbit_control.Prelude.{
  ℕ, zero, suc, ◌+◌, String, Bool, true, false, ◌&&◌, ◌||◌, ◌≡◌, ◌≤◌, List, [], ◌∷◌, ltb, leb, ◌==◌,
  if◌then◌else◌, contains, length, arith, Bool-cases, inl, inr,
}
use orbit_control.Outcome.{field_error, Result, ok, err}
use orbit_control.Text.{◌⧺◌, decimal}
use orbit_control.Service.Mentions.Clean.{Fresh}

is_lower : ℕ → Bool
is_lower c = leb b'a' c && leb c b'z'

is_digit : ℕ → Bool
is_digit c = leb b'0' c && leb c b'9'

is_role_char : ℕ → Bool
unfolding is_lower is_digit
is_role_char c = is_lower c || is_digit c || c == b'_' || c == b'-'

-- the characters of a model name behind the first
is_model_char : ℕ → Bool
unfolding is_lower is_digit
is_model_char c =
    is_lower c
    || leb b'A' c && leb c b'Z'
    || is_digit c
    || c == b'.'
    || c == b'_'
    || c == b':'
    || c == b'/'
    || c == b'-'

-- at most `n` characters that pass the test, to the end
up_to : (ℕ → Bool) → ℕ → String → Bool
up_to test n String.[] = true
up_to test zero (String.◌∷◌ c s) = false
up_to test (suc n) (String.◌∷◌ c s) = let rest = up_to test n s in test (code c) && rest

-- teamRolePattern: ^[a-z][a-z0-9_-]{0,31}$
unfoldable pub is_team_role : String → Bool
unfolding is_lower is_role_char up_to
is_team_role String.[] = false
is_team_role (String.◌∷◌ c s) = is_lower (code c) && up_to is_role_char 31 s

is_model_start : ℕ → Bool
unfolding is_lower is_digit
is_model_start c = is_lower c || leb b'A' c && leb c b'Z' || is_digit c

-- expertModelPattern: ^[A-Za-z0-9][A-Za-z0-9._:/-]{0,99}$
unfoldable pub valid_model_name : String → Bool
unfolding is_model_start is_model_char up_to
valid_model_name String.[] = false
valid_model_name (String.◌∷◌ c s) = is_model_start (code c) && up_to is_model_char 99 s

abbrev pub max_task_config_refs : ℕ
max_task_config_refs = 20

-- The path of an entry of a list.
pub entry_path : String → ℕ → String
entry_path path index = path ⧺ "[" ⧺ decimal index ⧺ "]"

-- The loop over a list's entries: those seen, the index of the next, and the entries left.
check_distinct : String → String → List String → ℕ → List String → Result (Unit {0})
unfolding entry_path
check_distinct path kind seen index [] = ok tt
check_distinct path kind seen index (id ∷ ids) =
    let rest = check_distinct path kind (id ∷ seen) (index + 1) ids in
    if contains id seen then err (field_error kind (entry_path path index)) else rest

-- checkRefList(field, code, ids)
unfoldable pub check_ref_list : String → String → List String → Result (Unit {0})
unfolding check_distinct
check_ref_list path kind ids =
    if ltb max_task_config_refs (length ids)
    then err (field_error kind path)
    else check_distinct path kind [] 0 ids

-- the loop over an expert's connectors
unfoldable pub check_connectors : List String → Result (Unit {0})
unfolding check_distinct
check_connectors ids = check_distinct "connector_ids" "CONNECTORS_INVALID" [] 0 ids

check_distinct-Fresh :
    (path kind : String) (seen : List String) (index : ℕ) (ids : List String)
    → check_distinct path kind seen index ids ≡ ok tt
    → Fresh seen ids
unfolding check_distinct
check_distinct-Fresh path kind seen index [] h = tt
check_distinct-Fresh path kind seen index (id ∷ ids) h = elim (Bool-cases (contains id seen)) [
  | inl old ↦ ground arith
  | inr new ↦ (new, check_distinct-Fresh path kind (id ∷ seen) (index + 1) ids (ground arith))
]

-- A list of references that is accepted has at most 20 entries and none twice.
pub check_ref_list-Fresh :
    (path kind : String) (ids : List String)
    → check_ref_list path kind ids ≡ ok tt
    → (length ids ≤ 20) × Fresh [] ids
unfolding check_ref_list
check_ref_list-Fresh path kind ids h =
    (ground arith, check_distinct-Fresh path kind [] 0 ids (ground arith))

pub check_connectors-Fresh : (ids : List String) → check_connectors ids ≡ ok tt → Fresh [] ids
unfolding check_connectors
check_connectors-Fresh ids h = check_distinct-Fresh "connector_ids" "CONNECTORS_INVALID" [] 0 ids h
