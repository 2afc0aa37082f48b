-- ===== src/Service/Mentions/Clean.antt =====
-- What normalizing and checking mentions comes to.
use mathlib.Core.Path.{subst}
use orbit_control.Prelude.{
  ℕ, suc, ◌+◌, String, true, false, ◌||◌, ◌≡◌, refl, sym, ap, ◌∙◌, ◌⊎◌, inl, inr, List, [], ◌∷◌,
  ◌++◌, map, All, contains, length, arith, eq_iff, Bool-cases, some, Option,
}
use orbit_control.Outcome.{Result, ok, err, mention}
use orbit_control.Value.{Fields}
use orbit_control.Config.{ConfigTeam, ConfigView}
use orbit_control.Service.{Principal, Task, Profile, Service}
use orbit_control.Service.Configs.{task_config}
use orbit_control.Text.{◌⧺◌, decimal}
use orbit_control.Service.Mentions.{
  clean_role, normalize_from, normalize_mentions, check_roles, role_of, check_mentions, check_view,
}

-- no member of the list is among `seen` or before it in the list
abbrev pub Fresh : List String → List String → Type 0
Fresh seen [] = Unit
Fresh seen (x ∷ xs) = (contains x seen ≡ false) × Fresh (x ∷ seen) xs

normalize_from-Fresh : (ms seen : List String) → Fresh seen (normalize_from seen ms)
unfolding normalize_from
normalize_from-Fresh [] seen = tt
normalize_from-Fresh (m ∷ ms) seen = elim (Bool-cases (contains (clean_role m) seen)) [
  | inl old ↦ rw old (normalize_from-Fresh ms seen)
  | inr new ↦ rw new (new, normalize_from-Fresh ms (clean_role m ∷ seen))
]

-- A role is among those seen or given, exactly if it is among those seen or kept.
contains-normalize_from :
    (ms seen : List String) (role : String)
    → (contains role seen || contains role (normalize_from seen ms))
      ≡ (contains role seen || contains role (map clean_role ms))
unfolding normalize_from
contains-normalize_from [] seen role = refl
contains-normalize_from (m ∷ ms) seen role = elim (Bool-cases (contains (clean_role m) seen)) [
  | inl old ↦ ground (arith, eq_iff (clean_role m) role, contains-normalize_from ms seen role)
  | inr new ↦
      ground
        (arith, eq_iff (clean_role m) role, contains-normalize_from ms (clean_role m ∷ seen) role)
]

-- Normalizing a message's mentions keeps each role that they name, less its @ and the spaces around
-- it, exactly once, and no other.
pub normalize_mentions-set :
    (ms : List String)
    → Fresh [] (normalize_mentions ms)
      × ((role : String)
          → contains role (normalize_mentions ms) ≡ contains role (map clean_role ms))
unfolding normalize_mentions
normalize_mentions-set ms = (normalize_from-Fresh ms [], λ role. contains-normalize_from ms [] role)

abbrev pub Known : List String → String → Type 0
Known roles role = contains role roles ≡ true

abbrev pub unknown_at : ℕ → Result (Unit {0})
unknown_at position = err (mention "UNKNOWN_MENTION" ("mentions[" ⧺ decimal position ⧺ "]"))

-- the mentions before the first that is not known, that one, and those after it
abbrev pub FirstUnknown : List String → ℕ → List String → Result (Unit {0}) → Type 0
FirstUnknown roles index ms answer =
    (before after : List String) × (role : String) × (ms ≡ before ++ role ∷ after)
    × All (Known roles) before
    × (contains role roles ≡ false)
    × (answer ≡ unknown_at (index + length before))

here : (index : ℕ) → index ≡ index + 0
here index = omega arith

later : (index n : ℕ) → index + 1 + n ≡ index + suc n
later index n = omega arith

check_roles-unknown_or_ok :
    (roles ms : List String) (index : ℕ)
    → ((check_roles roles index ms ≡ ok tt) × All (Known roles) ms)
      ⊎ FirstUnknown roles index ms (check_roles roles index ms)
unfolding check_roles
check_roles-unknown_or_ok roles [] index = inl (refl, tt)
check_roles-unknown_or_ok roles (m ∷ ms) index = elim (Bool-cases (contains m roles)) [
  | inl known ↦ elim (check_roles-unknown_or_ok roles ms (index + 1)) [
    | inl (fine, all) ↦ inl (rw known fine, (known, all))
    | inr (before, after, role, split, all, unknown, refused) ↦ inr (
      m ∷ before,
      after,
      role,
      ap (λ l. m ∷ l) split,
      (known, all),
      unknown,
      rw known refused ∙ ap (λ n. unknown_at n) (later index (length before)),
    )
  ]
  | inr unknown ↦
      inr ([], ms, m, refl, tt, unknown, rw unknown (ap (λ n. unknown_at n) (here index)))
]

module _ {Seen : Type 0} (found : Option (Result Task)) (shown : Option (Result Fields))
    (read : String → Result Profile) (s : Service Seen) (p : Principal) (id : String) where
  check_mentions-roles :
      (ms : List String) (v : ConfigView) (team : ConfigTeam)
      → (task_config found shown read s p id).1 ≡ ok v
      → v.team ≡ some team
      → (check_mentions found shown read s p id ms).1 ≡ check_roles (map role_of team.members) 0 ms
  unfolding check_mentions check_view check_roles
  check_mentions-roles [] v team h k = refl
  check_mentions-roles (m ∷ ms) v team h k = rw (h, k) refl

  -- The mentions of a message to a task whose configuration has a team are accepted exactly if each
  -- is the role of a member; otherwise the answer names the position of the first that is none.
  pub check_mentions-first :
      (ms : List String) (v : ConfigView) (team : ConfigTeam)
      → (task_config found shown read s p id).1 ≡ ok v
      → v.team ≡ some team
      → (((check_mentions found shown read s p id ms).1 ≡ ok tt)
          × All (Known (map role_of team.members)) ms)
        ⊎ FirstUnknown (map role_of team.members) 0 ms (check_mentions found shown read s p id ms).1
  check_mentions-first ms v team h k =
      let roles = map role_of team.members in
      subst (λ answer. ((answer ≡ ok tt) × All (Known roles) ms) ⊎ FirstUnknown roles 0 ms answer)
        (sym (check_mentions-roles ms v team h k)) (check_roles-unknown_or_ok roles ms 0)
