-- ===== src/App/Teams.antt =====
-- internal/app/experts.go (validateTeam) and teams.go: teams of experts, as they are checked, stored
-- as a profile's spec, and read back. `read` is `GetProfile` for the caller.
pub mod Stored
pub mod Resolved
use Prim.Native.Char.{code}
use Prim.Native.String
use orbit_control.Prelude.{
  ℕ, zero, suc, ◌+◌, String, Bool, true, false, not, ◌&&◌, ◌||◌, Option, none, some, List, [], ◌∷◌,
  ◌++◌, str_eq, ltb, ◌==◌, if◌then◌else◌, contains, length, map,
}
use orbit_control.Prelude.Int.{ℤ}
use orbit_control.Outcome.{Error, not_found, field_error, Result, ok, err, ◌>>=◌, ◌>>◌}
use orbit_control.Text.{trim_space, ◌⧺◌, decimal}
use orbit_control.Text.Order.{rune_count, take_runes}
use orbit_control.Value.{
  Value, text, list, object, Values, nil, cons, Fields, end, field, get, put, as_list,
  text_or_empty,
}
use orbit_control.Sop.Patterns.{is_versioned_id}
use orbit_control.Config.{ConfigTeamMember, ConfigTeam, entry_of}
use orbit_control.Service.{Profile}
use orbit_control.App.Refs.{is_team_role, entry_path}

pub record TeamMemberInput : Type 0 where
  pub role : String
  pub expert : String
  pub description : String
  pub label : String

pub record TeamMember : Type 0 where
  pub role : String
  pub expert : String
  pub name : String
  pub description : String
  pub label : String

trim_member : TeamMemberInput → TeamMemberInput
trim_member m = record {
  role = trim_space m.role;
  expert = trim_space m.expert;
  description = trim_space m.description;
  label = trim_space m.label;
}

at_field : ℕ → String → String
at_field index name = "members[" ⧺ decimal index ⧺ "]." ⧺ name

check_member : ℕ → List String → TeamMemberInput → Result (Unit {0})
unfolding at_field
check_member index roles m =
    if not (is_team_role m.role)
    then err (field_error "ROLE_INVALID" (at_field index "role"))
    else if not (is_versioned_id m.expert)
    then err (field_error "TEAM_MEMBER_REF_INVALID" (at_field index "expert"))
    else if ltb 300 (rune_count m.description)
    then err (field_error "DESCRIPTION_TOO_LONG" (at_field index "description"))
    else if ltb 40 (rune_count m.label)
    then err (field_error "LABEL_TOO_LONG" (at_field index "label"))
    else if contains m.role roles
    then err (field_error "TEAM_DUPLICATE_ROLE" (at_field index "role"))
    else ok tt

-- The loop over the members: the roles so far, and the members left.
check_members : ℕ → List String → List TeamMemberInput → Result (List TeamMemberInput)
unfolding check_member trim_member
check_members index roles [] = ok []
check_members index roles (m ∷ ms) =
    let member = trim_member m in
    check_member index roles member
    >> (check_members (index + 1) (member.role ∷ roles) ms >>= λ rest. ok (member ∷ rest))

abbrev pub role_of : TeamMemberInput → String
role_of m = m.role

check_leader : String → List TeamMemberInput → Result (List TeamMemberInput)
check_leader leader members =
    if contains leader (map role_of members)
    then ok members
    else err (field_error "TEAM_LEADER_NOT_MEMBER" "leader")

-- The second half of `validateTeam`, for a leader that is trimmed already.
unfoldable pub validate_members : String → List TeamMemberInput → Result (List TeamMemberInput)
unfolding check_members check_leader
validate_members leader members =
    if length members == 0
    then err (field_error "TEAM_NO_MEMBERS" "members")
    else if ltb 8 (length members)
    then err (field_error "TEAM_TOO_MANY_MEMBERS" "members")
    else check_members 0 [] members >>= check_leader leader

-- strings.Cut(ref, "@"), the part before
unfoldable pub before_at : String → String
before_at String.[] = String.[]
before_at (String.◌∷◌ c s) =
    let rest = before_at s in if code c == b'@' then String.[] else String.◌∷◌ c rest

abbrev pub kind_of : Profile → String
kind_of q = text_or_empty (get "kind" q.spec)

member_profile : String → Result Profile → Result Profile
member_profile path (ok q) =
    if not (str_eq (kind_of q) "expert") then err (field_error "TEAM_MEMBER_IS_TEAM" path) else ok q
member_profile path (err not_found) = err (field_error "TEAM_MEMBER_NOT_FOUND" path)
member_profile path (err x) = err x

-- teamMemberProfile(teamID, ref, field)
unfoldable pub team_member_profile :
    (String → Result Profile) → String → String → String → Result Profile
unfolding member_profile
team_member_profile read team_id ref path =
    if str_eq (before_at ref) team_id
    then err (field_error "TEAM_SELF_REFERENCE" path)
    else member_profile path (read ref)

pub name_of : Profile → String
name_of q = text_or_empty (get "name" q.spec)

abbrev put_nonempty : String → String → Fields → Fields
put_nonempty key s out = if str_eq s "" then out else put key (text s) out

pub member_entry : TeamMember → Fields
member_entry m = put_nonempty "label" m.label (
    put_nonempty "description" m.description (
      field "role" (text m.role) (field "expert" (text m.expert) (field "name" (text m.name) end))))

pub member_entries : List TeamMember → Values
unfolding member_entry
member_entries [] = nil
member_entries (m ∷ ms) = cons (object (member_entry m)) (member_entries ms)

-- The loop of `writeTeam`: each member with the name of its expert.
pub named_members :
    (String → Result Profile) → String → ℕ → List TeamMemberInput → Result (List TeamMember)
unfolding at_field name_of
named_members read team_id index [] = ok []
named_members read team_id index (m ∷ ms) = do
  q ← team_member_profile read team_id m.expert (at_field index "expert")
  rest ← named_members read team_id (index + 1) ms
  ok (
      record {
        role = m.role;
        expert = m.expert;
        name = name_of q;
        description = m.description;
        label = m.label;
      }
      ∷ rest)

-- The spec that a team is stored with.
pub team_spec : String → String → List TeamMember → Fields
unfolding member_entries
team_spec name leader members = field "kind" (text "team") (
    field "name" (text name)
      (field "leader" (text leader) (field "members" (list (member_entries members)) end)))

-- writeTeam, up to the profile that it registers.
unfoldable pub write_team :
    (String → Result Profile) → String → String → String → List TeamMemberInput → Result Fields
unfolding named_members team_spec
write_team read team_id name leader members = do
  named ← named_members read team_id 0 members
  ok (team_spec name leader named)

pub member_from : Fields → TeamMember
member_from entry = record {
  role = text_or_empty (get "role" entry);
  expert = text_or_empty (get "expert" entry);
  name = text_or_empty (get "name" entry);
  description = text_or_empty (get "description" entry);
  label = text_or_empty (get "label" entry);
}

abbrev pub team_malformed : Error
team_malformed = field_error "TEAM_MALFORMED" "expert"

-- The loop of `teamFromSpec`: the roles so far, and the members left.
members_from : List String → Values → Result (List TeamMember)
unfolding member_from
members_from roles nil = ok []
members_from roles (cons item items) =
    let member = member_from (entry_of item) in
    let rest = members_from (member.role ∷ roles) items in
    if not (is_team_role member.role)
      || not (is_versioned_id member.expert)
      || contains member.role roles
    then err team_malformed
    else rest >>= λ members. ok (member ∷ members)

abbrev pub member_role : TeamMember → String
member_role m = m.role

abbrev pub values_or_nil : Option Values → Values
values_or_nil none = nil
values_or_nil (some vs) = vs

count_values : Values → ℕ
count_values nil = zero
count_values (cons v vs) = suc (count_values vs)

with_leader : String → List TeamMember → Result (String × List TeamMember)
with_leader leader members =
    if contains leader (map member_role members) then ok (leader, members) else err team_malformed

-- teamFromSpec
pub team_from_spec : Fields → Result (String × List TeamMember)
unfolding members_from count_values with_leader
team_from_spec spec =
    let raw = values_or_nil (as_list (get "members" spec)) in
    if count_values raw == 0 || ltb 8 (count_values raw)
    then err team_malformed
    else members_from [] raw >>= with_leader (text_or_empty (get "leader" spec))

-- the first of two texts that is not empty
abbrev or_else : String → String → String
or_else s other = if str_eq s "" then other else s

-- memberDescription; `bundled` is the description that the version's agent.json has.
unfoldable pub member_description : (String → String) → TeamMember → Profile → String
unfolding name_of
member_description bundled m q =
    let own =
      or_else (trim_space m.description) (trim_space (text_or_empty (get "description" q.spec))) in
    let name = or_else (trim_space (name_of q)) (trim_space m.name) in
    let chosen = or_else (or_else own (bundled m.expert)) name in
    if ltb 300 (rune_count chosen) then take_runes 300 chosen else chosen

resolve_members :
    (String → Result Profile)
    → (String → String)
    → String
    → List TeamMember
    → Result (List ConfigTeamMember)
resolve_members read bundled team_id [] = ok []
resolve_members read bundled team_id (m ∷ ms) = do
  q ← team_member_profile read team_id m.expert "expert"
  rest ← resolve_members read bundled team_id ms
  ok (
      record {
        role = m.role;
        expert = m.expert;
        name = m.name;
        description = member_description bundled m q;
        label = m.label;
      }
      ∷ rest)

-- resolveTeam
pub resolve_team : (String → Result Profile) → (String → String) → Profile → Result ConfigTeam
unfolding resolve_members
resolve_team read bundled profile = do
  team ← team_from_spec profile.spec
  members ← resolve_members read bundled profile.profile_id team.1
  ok (record { ref = ""; leader = team.0; members = members })
