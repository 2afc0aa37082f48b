-- ===== src/Text.antt =====
-- What the source uses of Go's `strings` package, over texts that are valid UTF-8.
pub mod Order
pub mod Join
use Prim.Native.Nat.{ℕ, zero, suc, ◌+◌, ◌/◌, ◌%◌}
use Prim.Native.Char.{Char, code}
use Prim.Native.String
use orbit_control.Prelude.{
  String, Bool, true, false, ◌≡◌, refl, ◌&&◌, ◌||◌, leb, ltb, ◌==◌, if◌then◌else◌, str_eq, eq_iff,
  arith,
}

-- unicode.IsSpace
pub is_space : ℕ → Bool
is_space c =
    leb 9 c && leb c 13
    || c == 32
    || c == 0x85
    || c == 0xA0
    || c == 0x1680
    || leb 0x2000 c && leb c 0x200A
    || c == 0x2028
    || c == 0x2029
    || c == 0x202F
    || c == 0x205F
    || c == 0x3000

-- strings.TrimLeftFunc with `unicode.IsSpace`
pub trim_left : String → String
unfolding is_space
trim_left String.[] = String.[]
trim_left (String.◌∷◌ c s) =
    let rest = trim_left s in if is_space (code c) then rest else String.◌∷◌ c s

-- A character in front of a text whose right end is trimmed already.
cons_trimmed : Char → String → String
unfolding is_space
cons_trimmed c String.[] = if is_space (code c) then String.[] else String.◌∷◌ c String.[]
cons_trimmed c (String.◌∷◌ d s) = String.◌∷◌ c (String.◌∷◌ d s)

pub trim_right : String → String
unfolding cons_trimmed
trim_right String.[] = String.[]
trim_right (String.◌∷◌ c s) = cons_trimmed c (trim_right s)

-- strings.TrimSpace
unfoldable pub trim_space : String → String
unfolding trim_left trim_right
trim_space s = trim_right (trim_left s)

-- strings.TrimPrefix(s, "@")
unfoldable pub trim_at : String → String
trim_at String.[] = String.[]
trim_at (String.◌∷◌ c s) = if code c == b'@' then s else String.◌∷◌ c s

infixl 65 ◌⧺◌
abbrev pub ◌⧺◌ : String → String → String
s ⧺ t = String.◌++◌ s t

digit : ℕ → String
digit d =
    if d == 0
    then "0"
    else if d == 1
    then "1"
    else if d == 2
    then "2"
    else if d == 3
    then "3"
    else if d == 4
    then "4"
    else if d == 5
    then "5"
    else if d == 6
    then "6"
    else if d == 7
    then "7"
    else if d == 8
    then "8"
    else "9"

-- The digits of `n` in front of `out`; each round divides by ten, so `n + 1` rounds are enough.
digits : ℕ → ℕ → String → String
unfolding digit
digits zero n out = out
digits (suc fuel) n out =
    let rest = digits fuel (n / 10) (digit (n % 10) ⧺ out) in
    if ltb n 10 then digit n ⧺ out else rest

-- `%d` and fmt.Sprint of a number that is not negative
unfoldable pub decimal : ℕ → String
unfolding digits
decimal n = digits (n + 1) n ""
