-- ===== src/Service/Mentions.antt =====
-- internal/task/mentions.go: the roles that a message mentions.
pub mod Clean
use orbit_control.Prelude.{
  ℕ, ◌+◌, String, Bool, true, false, Option, none, some, List, [], ◌∷◌, map, if◌then◌else◌,
  contains,
}
use orbit_control.Outcome.{Error, mention, Result, ok, err}
use orbit_control.Text.{trim_space, trim_at, ◌⧺◌, decimal}
use orbit_control.Value.{Fields}
use orbit_control.Config.{ConfigTeamMember, ConfigTeam, ConfigView}
use orbit_control.Service.{Principal, Task, Profile, Service}
use orbit_control.Service.Configs.{task_config}

-- strings.TrimPrefix(strings.TrimSpace(role), "@")
unfoldable pub clean_role : String → String
clean_role role = trim_at (trim_space role)

-- The loop of `NormalizeMentions`: the roles seen before, and those left.
normalize_from : List String → List String → List String
normalize_from seen [] = []
normalize_from seen (role ∷ roles) =
    let skipped = normalize_from seen roles in
    let kept = normalize_from (clean_role role ∷ seen) roles in
    if contains (clean_role role) seen then skipped else clean_role role ∷ kept

pub normalize_mentions : List String → List String
unfolding normalize_from
normalize_mentions mentions = normalize_from [] mentions

abbrev pub role_of : ConfigTeamMember → String
role_of m = m.role

-- The loop over the mentions; `index` is the position of the first of them.
pub check_roles : List String → ℕ → List String → Result (Unit {0})
check_roles roles index [] = ok tt
check_roles roles index (role ∷ rest) =
    let others = check_roles roles (index + 1) rest in
    if contains role roles
    then others
    else err (mention "UNKNOWN_MENTION" ("mentions[" ⧺ decimal index ⧺ "]"))

check_team : Option ConfigTeam → List String → Result (Unit {0})
unfolding check_roles
check_team none mentions = err (mention "MENTIONS_NOT_ALLOWED" "mentions")
check_team (some t) mentions = check_roles (map role_of t.members) 0 mentions

check_view : Result ConfigView → List String → Result (Unit {0})
unfolding check_team
check_view (err x) mentions = err x
check_view (ok v) mentions = check_team v.team mentions

module _ {Seen : Type 0} where
  -- CheckMentions, with the answers that `task_config` takes.
  pub check_mentions :
      Option (Result Task)
      → Option (Result Fields)
      → (String → Result Profile)
      → Service Seen
      → Principal
      → String
      → List String
      → Service Seen × Result (Unit {0})
  unfolding check_view
  check_mentions found shown read s p id [] = (s, ok tt)
  check_mentions found shown read s p id (m ∷ ms) =
      let (s', v) = task_config found shown read s p id in (s', check_view v (m ∷ ms))
