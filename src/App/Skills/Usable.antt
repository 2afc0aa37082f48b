-- ===== src/App/Skills/Usable.antt =====
-- Where the files of a usable skill are put.
use mathlib.Core.Path.{subst}
use orbit_control.Prelude.{
  String, Bool, true, false, ◌||◌, ◌≡◌, refl, sym, inl, inr, List, [], ◌∷◌, ◌++◌, map, All, str_eq,
  if◌then◌else◌, contains, arith, Bool-cases, eq_of_str_eq,
}
use orbit_control.Catalog.{SkillFile}
use orbit_control.App.Skills.{split, all_plain, is_plain, is_safe_name, usable_from, skill_usable}

-- Where a relative name leads from a directory, both as lists of names with the deepest first: "." and
-- the empty segment stay, ".." goes up, and any other segment goes down.
up : List String → List String
up [] = []
up (s ∷ ss) = ss

pub walk : List String → List String → List String
unfolding up
walk place [] = place
walk place (s ∷ ss) =
    let stay = walk place ss in
    let out = walk (up place) ss in
    let down = walk (s ∷ place) ss in
    if str_eq s "" || str_eq s "." then stay else if str_eq s ".." then out else down

-- every place on the way, and the last one, lies in the directory
abbrev pub Inside : List String → List String → List String → Type 0
Inside base place [] = (names : List String) × (place ≡ names ++ base)
Inside base place (s ∷ ss) =
    ((names : List String) × (place ≡ names ++ base)) × Inside base (walk place (s ∷ [])) ss

down_one :
    (s : String) (place : List String)
    → str_eq s "" ≡ false
    → str_eq s "." ≡ false
    → str_eq s ".." ≡ false
    → walk place (s ∷ []) ≡ s ∷ place
unfolding walk
down_one s place h₁ h₂ h₃ = rw (h₁, h₂, h₃) refl

here : (base : List String) → Inside base base (split ".")
unfolding split walk
here base = (([], refl), ([], refl))

all_plain-Inside :
    (ss names base : List String) → all_plain ss ≡ true → Inside base (names ++ base) ss
unfolding all_plain walk
all_plain-Inside [] names base h = (names, refl)
all_plain-Inside (s ∷ ss) names base h = (
  (names, refl),
  subst (λ p. Inside base p ss)
      (sym (down_one s (names ++ base) (ground arith) (ground arith) (ground arith)))
      (all_plain-Inside ss (s ∷ names) base (ground arith)),
)

is_safe_name-Inside :
    (name : String) (base : List String) → is_safe_name name ≡ true → Inside base base (split name)
unfolding is_safe_name is_plain
is_safe_name-Inside name base h = elim (Bool-cases (str_eq name ".")) [
  | inl dot ↦ subst (λ n. Inside base base (split n)) (sym (eq_of_str_eq name "." dot)) (here base)
  | inr other ↦ all_plain-Inside (split name) [] base (ground arith)
]

-- the file's name never leads out of the directory
abbrev pub Stays : List String → SkillFile → Type 0
Stays base f = Inside base base (split f.path)

abbrev pub path_of : SkillFile → String
path_of f = f.path

usable_from-Stays :
    (files : List SkillFile) (seen : Bool) (base : List String)
    → usable_from seen files ≡ true
    → All (Stays base) files × ((seen || contains "SKILL.md" (map path_of files)) ≡ true)
unfolding usable_from
usable_from-Stays [] seen base h = (tt, ground arith)
usable_from-Stays (f ∷ fs) seen base h =
    let (rest, found) =
      usable_from-Stays fs (seen || str_eq f.path "SKILL.md") base (ground arith) in
    ((is_safe_name-Inside f.path base (ground arith), rest), ground arith)

-- A skill that is usable has a file named SKILL.md at its root, and wherever its files are put, none
-- of their names leads out of that directory at any step.
pub skill_usable-Stays :
    (files : List SkillFile) (base : List String)
    → skill_usable files ≡ true
    → All (Stays base) files × (contains "SKILL.md" (map path_of files) ≡ true)
unfolding skill_usable
skill_usable-Stays files base h = usable_from-Stays files false base h
