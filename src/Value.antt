-- ===== src/Value.antt =====
-- Go's `any` as far as internal/task meets it: what encoding/json decodes into, with the type
-- assertions `v.(string)`, `v.(float64)`, … as functions into `Option`. A number is an integer: the
-- amounts, versions and counts in payloads are whole numbers that float64 holds exactly.
-- `map[string]any` is `Fields`; a nil map reads as an empty one.
pub mod Same
use orbit_control.Prelude.{
  String, Bool, ◌≡◌, refl, Option, none, some, List, [], ◌∷◌, str_eq, eq_iff, arith, if◌then◌else◌,
}
use orbit_control.Prelude.Int.{ℤ}

mutual
  pub data Value : Type 0 where
    null : Value
    bool : Bool → Value
    number : ℤ → Value
    text : String → Value
    list : Values → Value
    object : Fields → Value

  pub data Values : Type 0 where
    nil : Values
    cons : Value → Values → Values

  pub data Fields : Type 0 where
    end : Fields
    field : String → Value → Fields → Fields

-- fields[key]
unfoldable pub get : String → Fields → Option Value
get k end = none
get k (field j v fs) = let rest = get k fs in if str_eq j k then some v else rest

-- fields[key] = value
unfoldable pub put : String → Value → Fields → Fields
put k v end = field k v end
put k v (field j w fs) =
    let rest = put k v fs in if str_eq j k then field k v fs else field j w rest

-- delete(fields, key)
unfoldable pub without : String → Fields → Fields
without k end = end
without k (field j w fs) = let rest = without k fs in if str_eq j k then rest else field j w rest

pub get-put :
    (k j : String) (v : Value) (fs : Fields)
    → get j (put k v fs) ≡ (if str_eq k j then some v else get j fs)
unfolding get put
get-put k j v end = refl
get-put k j v (field i w fs) = ground (arith, eq_iff k j, eq_iff i k, eq_iff i j, get-put k j v fs)

pub get-without :
    (k j : String) (fs : Fields) → get j (without k fs) ≡ (if str_eq k j then none else get j fs)
unfolding get without
get-without k j end = ground arith
get-without k j (field i w fs) =
    ground (arith, eq_iff k j, eq_iff i k, eq_iff i j, get-without k j fs)

abbrev pub as_text : Option Value → Option String
as_text (some (text s)) = some s
as_text _ = none

abbrev pub as_number : Option Value → Option ℤ
as_number (some (number n)) = some n
as_number _ = none

abbrev pub as_bool : Option Value → Option Bool
as_bool (some (bool b)) = some b
as_bool _ = none

abbrev pub as_object : Option Value → Option Fields
as_object (some (object fs)) = some fs
as_object _ = none

abbrev pub as_list : Option Value → Option Values
as_list (some (list vs)) = some vs
as_list _ = none

-- `s, _ := v.(string)`: the empty text if the value is no text
abbrev pub text_or_empty : Option Value → String
text_or_empty (some (text s)) = s
text_or_empty _ = ""

abbrev pub items : Values → List Value
items nil = []
items (cons v vs) = v ∷ items vs
