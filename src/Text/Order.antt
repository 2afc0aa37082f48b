-- ===== src/Text/Order.antt =====
-- Go's `<` on texts and `strings.Contains`, `strings.ReplaceAll(s, "\x00", "")` and the first runes of
-- a text. The order of the bytes of UTF-8 is the order of the code points.
use Prim.Native.Char.{code}
use orbit_control.Prelude.{
  ℕ, zero, suc, String, Bool, true, false, ◌≡◌, refl, ◌||◌, ◌≤◌, ltb, ◌==◌, if◌then◌else◌, arith,
}

pub less_text : String → String → Bool
less_text s String.[] = false
less_text String.[] (String.◌∷◌ d t) = true
less_text (String.◌∷◌ c s) (String.◌∷◌ d t) =
    let rest = less_text s t in if code c == code d then rest else ltb (code c) (code d)

starts_with : String → String → Bool
starts_with s String.[] = true
starts_with String.[] (String.◌∷◌ d t) = false
starts_with (String.◌∷◌ c s) (String.◌∷◌ d t) =
    let rest = starts_with s t in if code c == code d then rest else false

-- strings.Contains
unfoldable pub contains_text : String → String → Bool
unfolding starts_with
contains_text String.[] t = starts_with String.[] t
contains_text (String.◌∷◌ c s) t = starts_with (String.◌∷◌ c s) t || contains_text s t

unfoldable pub without_nul : String → String
without_nul String.[] = String.[]
without_nul (String.◌∷◌ c s) =
    let rest = without_nul s in if code c == 0 then rest else String.◌∷◌ c rest

-- The first `n` runes.
pub take_runes : ℕ → String → String
take_runes zero s = String.[]
take_runes (suc n) String.[] = String.[]
take_runes (suc n) (String.◌∷◌ c s) = String.◌∷◌ c (take_runes n s)

unfoldable pub rune_count : String → ℕ
rune_count String.[] = 0
rune_count (String.◌∷◌ c s) = suc (rune_count s)

pub less_text_asym : (s t : String) → less_text s t ≡ true → less_text t s ≡ false
unfolding less_text
less_text_asym s String.[] h = ground arith
less_text_asym String.[] (String.◌∷◌ d t) h = refl
less_text_asym (String.◌∷◌ c s) (String.◌∷◌ d t) h = ground (arith, less_text_asym s t)

-- "Not less" is transitive: where `t` is not below `s` and `u` not below `t`, `u` is not below `s`.
pub less_text_trans :
    (s t u : String) → less_text t s ≡ false → less_text u t ≡ false → less_text u s ≡ false
unfolding less_text
less_text_trans String.[] t u h k = ground arith
less_text_trans (String.◌∷◌ c s) String.[] u h k = ground arith
less_text_trans (String.◌∷◌ c s) (String.◌∷◌ d t) String.[] h k = ground arith
less_text_trans (String.◌∷◌ c s) (String.◌∷◌ d t) (String.◌∷◌ e u) h k =
    ground (arith, less_text_trans s t u)

-- What is kept of a text has at most that many runes.
pub rune_count-take : (n : ℕ) (s : String) → rune_count (take_runes n s) ≤ n
unfolding rune_count take_runes
rune_count-take zero s = omega arith
rune_count-take (suc n) String.[] = omega arith
rune_count-take (suc n) (String.◌∷◌ c s) = omega (arith, rune_count-take n s)
