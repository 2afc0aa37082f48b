-- ===== src/App/Teams/Stored.antt =====
-- A team that was checked and stored is read back as it was.
use orbit_control.Prelude.{
  ℕ, suc, ◌+◌, ◌≤◌, String, true, false, ◌≡◌, ap, List, [], ◌∷◌, contains, length, map, arith,
}
use mathlib.Core.Path.{subst}
use orbit_control.Outcome.{Result, ok, then-ok, bind-ok, ok_inj}
use orbit_control.Value.{Value, get, text_or_empty}
use orbit_control.Sop.Patterns.{is_versioned_id}
use orbit_control.Service.{Profile}
use orbit_control.App.Refs.{is_team_role}
use orbit_control.App.Teams.{
  TeamMemberInput, TeamMember, check_member, check_members, check_leader, role_of, validate_members,
  trim_member, name_of,
}

with_name : TeamMemberInput → Profile → TeamMember
with_name m q = record {
  role = m.role;
  expert = m.expert;
  name = name_of q;
  description = m.description;
  label = m.label;
}

-- members with well-formed and distinct roles and references
abbrev pub Sound : List String → List TeamMemberInput → Type 0
Sound roles [] = Unit
Sound roles (m ∷ ms) =
    (is_team_role m.role ≡ true)
    × (is_versioned_id m.expert ≡ true)
    × (contains m.role roles ≡ false)
    × Sound (m.role ∷ roles) ms

abbrev Storable : List String → List TeamMember → Type 0
Storable roles [] = Unit
Storable roles (m ∷ ms) =
    (is_team_role m.role ≡ true)
    × (is_versioned_id m.expert ≡ true)
    × (contains m.role roles ≡ false)
    × Storable (m.role ∷ roles) ms

check_member-Sound :
    (index : ℕ) (roles : List String) (m : TeamMemberInput)
    → check_member index roles m ≡ ok tt
    → (is_team_role m.role ≡ true)
      × (is_versioned_id m.expert ≡ true)
      × (contains m.role roles ≡ false)
unfolding check_member
check_member-Sound index roles m h = (ground arith, ground arith, ground arith)

check_members-Sound :
    (ms : List TeamMemberInput) (index : ℕ) (roles : List String) (valid : List TeamMemberInput)
    → check_members index roles ms ≡ ok valid
    → Sound roles valid × (length valid ≡ length ms)
unfolding check_members
check_members-Sound [] index roles valid h = ground arith
check_members-Sound (m ∷ ms) index roles valid h =
    let member = trim_member m in
    let (fine, h₁) = then-ok (check_member index roles member) _ h in
    let (rest, h₂, h₃) = bind-ok (check_members (index + 1) (member.role ∷ roles) ms) _ h₁ in
    let (s₁, s₂, s₃) = check_member-Sound index roles member fine in
    let (sound, same) = check_members-Sound ms (index + 1) (member.role ∷ roles) rest h₂ in
    subst (λ v. Sound roles v × (length v ≡ suc (length ms))) (ok_inj (member ∷ rest) valid h₃)
      ((s₁, s₂, s₃, sound), ap suc same)

ms_few :
    (leader : String) (ms valid : List TeamMemberInput)
    → validate_members leader ms ≡ ok valid
    → (1 ≤ length ms) × (length ms ≤ 8)
unfolding validate_members
ms_few leader ms valid h = (ground arith, ground arith)

check_leader-known :
    (leader : String) (checked valid : List TeamMemberInput)
    → check_leader leader checked ≡ ok valid
    → (checked ≡ valid) × (contains leader (map role_of checked) ≡ true)
unfolding check_leader
check_leader-known leader checked valid h = (ground arith, ground arith)

pub validate_members-Sound :
    (leader : String) (ms valid : List TeamMemberInput)
    → validate_members leader ms ≡ ok valid
    → Sound [] valid
      × (1 ≤ length valid)
      × (length valid ≤ 8)
      × (contains leader (map role_of valid) ≡ true)
unfolding validate_members
validate_members-Sound leader ms valid h =
    let (checked, h₁, h₂) =
      bind-ok (check_members 0 [] ms) (check_leader leader) {found = valid} (ground arith) in
    let (sound, count) = check_members-Sound ms 0 [] checked h₁ in
    let (same, known) = check_leader-known leader checked valid h₂ in
    let few = ms_few leader ms valid h in
    subst
      (λ v. Sound [] v × (1 ≤ length v) × (length v ≤ 8) × (contains leader (map role_of v) ≡ true))
      same (sound, omega (arith, count, few), omega (arith, count, few), known)

-- each member as it was given, with the name in the profile that its reference reads
abbrev pub Named : (String → Result Profile) → List TeamMemberInput → List TeamMember → Type 0
Named read [] [] = Unit
Named read [] (n ∷ ns) = ⊥
Named read (m ∷ ms) [] = ⊥
Named read (m ∷ ms) (n ∷ ns) =
    ((n.role ≡ m.role)
      × (n.expert ≡ m.expert)
      × (n.description ≡ m.description)
      × (n.label ≡ m.label)
      × ((q : Profile) × (read m.expert ≡ ok q) × (n.name ≡ text_or_empty (get "name" q.spec))))
    × Named read ms ns
