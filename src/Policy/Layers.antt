-- ===== src/Policy/Layers.antt =====
-- The layers of a policy only ever tighten each other.
use orbit_control.Prelude.{
  ◌≡◌, refl, Option, none, some, arith, ◌↔◌, ◌≢◌, String, List, [], ◌∷◌, All, eq_iff,
}
use orbit_control.Prelude.Int.{ℤ, pos, ◌≤ℤ◌}
use orbit_control.Outcome.{ok}
use orbit_control.Text.{trim_space}
use orbit_control.Policy.{Policy, or_none, check_names, validate, smallest}

-- `n` is within an optional cap; a missing cap limits nothing.
abbrev pub Within : ℤ → Option ℤ → Type 0
Within n none = Unit
Within n (some cap) = n ≤ℤ cap

-- What the combined cap of two layers allows is exactly what both layers allow.
pub smallest_iff : (a b : Option ℤ) (n : ℤ) → Within n (smallest a b) ↔ (Within n a × Within n b)
unfolding smallest
smallest_iff none none n = ground arith
smallest_iff none (some b) n = ground arith
smallest_iff (some a) none n = ground arith
smallest_iff (some a) (some b) n = ground arith

-- `n` is between the two bounds, or not set.
abbrev pub InRange : ℤ → ℤ → Option ℤ → Type 0
InRange lo hi none = Unit
InRange lo hi (some n) = (lo ≤ℤ n) × (n ≤ℤ hi)

abbrev pub NotNegative : Option ℤ → Type 0
NotNegative none = Unit
NotNegative (some n) = pos 0 ≤ℤ n

abbrev pub IsNamed : String → Type 0
IsNamed name = trim_space name ≢ ""

pub record IsValid (p : Policy) : Type 0 where
  pub names : All IsNamed (or_none p.denied_tools)
  pub exploration : NotNegative p.exploration_max_tool_calls
  pub concurrency : InRange (pos 1) (pos 64) p.max_concurrency
  pub review : InRange (pos 0) (pos 20) p.max_review_rounds

check_names_iff : (names : List String) → (check_names names ≡ ok tt) ↔ All IsNamed names
unfolding check_names
check_names_iff [] = (λ h. tt, λ h. refl)
check_names_iff (name ∷ names) =
    let ih = check_names_iff names in let e = eq_iff (trim_space name) "" in ground (arith, ih, e)

-- A policy passes validation exactly when no tool name is blank and every cap is in its range.
pub validate_iff : (p : Policy) → (validate p ≡ ok tt) ↔ IsValid p
unfolding validate
validate_iff p = let ih = check_names_iff (or_none p.denied_tools) in ground (arith, ih)
