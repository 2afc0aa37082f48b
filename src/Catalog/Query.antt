-- ===== src/Catalog/Query.antt =====
-- internal/store/repository.go: what a catalog query may ask for, and the page that answers it.
pub mod Pages
pub mod Order
use Prim.Native.Char.{Char, code}
use Prim.Native.String
use orbit_control.Prelude.{
  ℕ, zero, suc, ◌+◌, ◌-◌, ◌*◌, ◌≤◌, ◌<◌, String, Bool, true, false, ◌≡◌, refl, not, ◌&&◌, ◌||◌,
  Option, none, some, List, [], ◌∷◌, ◌++◌, ltb, leb, ◌==◌, str_eq, if◌then◌else◌, length, take,
  drop, arith, eq_iff,
}
use orbit_control.Prelude.Int.{ℤ, pos, ltb_ℤ, eqb_ℤ, pos_part}
use orbit_control.Text.{trim_space, ◌⧺◌}
use orbit_control.Text.Order.{without_nul, take_runes, rune_count}

pub clip_text : String → ℕ → String
clip_text s n =
    let s = trim_space (without_nul s) in if ltb n (rune_count s) then take_runes n s else s

-- a-z, A-Z, 0-9, '.', '_' and '-'
token_rune : ℕ → Bool
token_rune r =
    leb b'a' r && leb r b'z'
    || leb b'A' r && leb r b'Z'
    || leb b'0' r && leb r b'9'
    || r == b'.'
    || r == b'_'
    || r == b'-'

pub all_token : String → Bool
unfolding token_rune
all_token String.[] = true
all_token (String.◌∷◌ c s) = token_rune (code c) && all_token s

pub clip_token : String → ℕ → String
clip_token s n = let s = clip_text s n in if all_token s then s else ""

clip_body : String → String → ℕ → String
clip_body at s n = let body = clip_token s n in if str_eq body "" then "" else at ⧺ body

unfoldable pub clip_handle : String → ℕ → String
unfolding clip_body
clip_handle String.[] n = clip_body "" "" n
clip_handle (String.◌∷◌ c s) n =
    if code c == b'@' then clip_body "@" s n else clip_body "" (String.◌∷◌ c s) n

unfoldable pub skill_path_id : String → String → Option String
skill_path_id handle slug =
    let handle = clip_handle handle 100 in
    let slug = clip_token slug 200 in
    if str_eq handle "" || str_eq slug "" then none else some (handle ⧺ "/" ⧺ slug)

module _ (lower : String → String) where
  unfoldable pub bool_word : String → String
  bool_word v =
      let word = trim_space (lower v) in
      if str_eq word "true" || str_eq word "false" then word else ""

abbrev pub source_word : String → String
source_word s = if str_eq s "common" || str_eq s "nexa" then s else ""

-- The two tests on a page number or size, one after the other.
abbrev pub clamp : ℤ → ℤ → ℤ → ℤ
clamp default most v =
    let v = if ltb_ℤ v (pos 1) then default else v in if ltb_ℤ most v then most else v

-- The part of the matches that a page shows. `page` is at least 1 and `page_size` not negative after
-- the query is normalized, and both are small, so that the numbers here do not overflow.
pub page_items : {A : Type 0} → ℤ → ℤ → List A → List A
page_items page page_size matched =
    let total = length matched in
    let from = (pos_part page - 1) * pos_part page_size in
    let start = if ltb total from then total else from in
    let to = start + pos_part page_size in
    let end = if ltb total to then total else to in take (end - start) (drop start matched)

-- The comparisons of the catalogs' sorts: the larger number, or the later time, is first, and the ids
-- decide where the two are equal.
abbrev pub descending : ℤ → ℤ → Bool → Bool
descending a b by_id = if not (eqb_ℤ a b) then ltb_ℤ b a else by_id

abbrev pub later : ℕ → ℕ → Bool → Bool
later a b by_id = if not (a == b) then ltb b a else by_id
