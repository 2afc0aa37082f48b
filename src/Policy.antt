-- ===== src/Policy.antt =====
-- internal/task/policy.go: the limits of an attempt and how layers of them tighten each other.
-- `*int` is an optional integer; a nil list of denied tools is `none`.
pub mod Layers
use orbit_control.Prelude.{
  String, Bool, true, false, ◌||◌, Option, none, some, List, [], ◌∷◌, if◌then◌else◌, str_eq,
}
use orbit_control.Prelude.Int.{ℤ, pos, ltb_ℤ, leb_ℤ}
use orbit_control.Outcome.{Result, ok, err, invalid, ◌>>=◌, ◌>>◌}
use orbit_control.Text.{trim_space}

pub record Policy : Type 0 where
  pub denied_tools : Option (List String)
  pub exploration_max_tool_calls : Option ℤ
  pub max_concurrency : Option ℤ
  pub max_review_rounds : Option ℤ

abbrev pub max_review_rounds_limit : ℤ
max_review_rounds_limit = pos 20

abbrev pub max_concurrency_limit : ℤ
max_concurrency_limit = pos 64

-- The first loop of `validate`.
pub check_names : List String → Result (Unit {0})
check_names [] = ok tt
check_names (name ∷ names) =
    let rest = check_names names in
    if str_eq (trim_space name) ""
    then err (invalid "denied_tools must not contain an empty name")
    else rest

abbrev pub or_none {ℓ} : {A : Type ℓ} → Option (List A) → List A
or_none none = []
or_none (some xs) = xs

check_range : ℤ → ℤ → String → Option ℤ → Result (Unit {0})
check_range lo hi message none = ok tt
check_range lo hi message (some n) =
    if ltb_ℤ n lo || ltb_ℤ hi n then err (invalid message) else ok tt

check_exploration : Option ℤ → Result (Unit {0})
check_exploration none = ok tt
check_exploration (some n) =
    if ltb_ℤ n (pos 0)
    then err (invalid "exploration_max_tool_calls must not be negative")
    else ok tt

unfoldable pub validate : Policy → Result (Unit {0})
unfolding check_names check_range check_exploration
validate p = do
  check_names (or_none p.denied_tools)
  check_exploration p.exploration_max_tool_calls
  check_range (pos 1) max_concurrency_limit "max_concurrency must be between 1 and 64"
      p.max_concurrency
  check_range (pos 0) max_review_rounds_limit "max_review_rounds must be between 0 and 20"
      p.max_review_rounds

unfoldable pub normalized : Policy → Policy
normalized p = record p { denied_tools = some (or_none p.denied_tools) }

-- The tighter of two optional caps.
pub smallest : Option ℤ → Option ℤ → Option ℤ
smallest none none = none
smallest none (some b) = some b
smallest (some a) none = some a
smallest (some a) (some b) = if leb_ℤ a b then some a else some b
