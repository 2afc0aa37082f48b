-- ===== src/Value/Same.antt =====
-- `jsonEqual` of internal/task/projection_apply.go: two maps are equal if they encode to the same
-- JSON. encoding/json writes the entries in the order of their keys, so the order in which a map
-- holds them does not matter; of two fields with one key, a map has the first.
use orbit_control.Prelude.{
  String, Bool, true, false, ◌&&◌, ◌||◌, not, ◌≡◌, refl, none, some, List, [], ◌∷◌, arith, eq_iff,
  str_eq, contains, eq_refl, Bool-cases, inl, inr, sym,
}
use orbit_control.Prelude.Int.{eqb_ℤ, eqb_ℤ-refl}
use orbit_control.Value.{
  Value, null, bool, number, text, list, object, Values, nil, cons, Fields, end, field, get,
}

abbrev same_bool : Bool → Bool → Bool
same_bool true b = b
same_bool false b = not b

pub has : String → Fields → Bool
has k fs = elim (get k fs) [ none ↦ false | some _ ↦ true ]

-- every key of the first map is one of the second
pub keys_in : Fields → Fields → Bool
unfolding has
keys_in end gs = true
keys_in (field k v fs) gs = let rest = keys_in fs gs in has k gs && rest

unfoldable mutual
  pub same : Value → Value → Bool
  same null w = elim w [ null ↦ true | _ ↦ false ]
  same (bool a) w = elim w [ bool b ↦ same_bool a b | _ ↦ false ]
  same (number m) w = elim w [ number n ↦ eqb_ℤ m n | _ ↦ false ]
  same (text s) w = elim w [ text t ↦ str_eq s t | _ ↦ false ]
  same (list us) w = elim w [ list vs ↦ same_items us vs | _ ↦ false ]
  same (object fs) w = elim w [ object gs ↦ fields_in [] fs gs && keys_in gs fs | _ ↦ false ]

  pub same_items : Values → Values → Bool
  same_items nil vs = elim vs [ nil ↦ true | _ ↦ false ]
  same_items (cons u us) vs = elim vs [ nil ↦ false | cons v vs' ↦ same u v && same_items us vs' ]

  -- every field but those of the keys `seen` is in the second map, with the same value
  pub fields_in : List String → Fields → Fields → Bool
  fields_in seen end gs = true
  fields_in seen (field k v fs) gs =
      (contains k seen || (elim (get k gs) [ none ↦ false | some w ↦ same v w ]))
      && fields_in (k ∷ seen) fs gs

unfoldable pub json_equal : Fields → Fields → Bool
unfolding keys_in
json_equal a b = fields_in [] a b && keys_in b a

same_bool_refl : (b : Bool) → same_bool b b ≡ true
same_bool_refl true = refl
same_bool_refl false = refl

-- a whole map agrees with one of its tails on the keys that stand nowhere before it
abbrev Agrees : List String → Fields → Fields → Type 0
Agrees seen fs whole = (k : String) → contains k seen ≡ false → get k fs ≡ get k whole

Agrees-field :
    (seen : List String) (k : String) (v : Value) (fs whole : Fields)
    → Agrees seen (field k v fs) whole
    → Agrees (k ∷ seen) fs whole
unfolding get
Agrees-field seen k v fs whole h j out = ground (arith, eq_iff k j, h j)

keys_in-tail :
    (fs whole : Fields)
    → ((k : String) → has k fs ≡ true → has k whole ≡ true)
    → keys_in fs whole ≡ true
unfolding keys_in get
keys_in-tail end whole h = refl
keys_in-tail (field k v fs) whole h =
    rw (h k (ground (arith, eq_refl k)))
      (keys_in-tail fs whole (λ j p. h j (ground (arith, eq_iff k j))))

keys_in_refl : (fs : Fields) → keys_in fs fs ≡ true
keys_in_refl fs = keys_in-tail fs fs (λ k p. p)

get-first : (k : String) (v : Value) (fs : Fields) → get k (field k v fs) ≡ some v
unfolding get
get-first k v fs = ground (arith, eq_refl k)

mutual
  unfolding same

  same_refl : (v : Value) → same v v ≡ true
  same_refl null = refl
  same_refl (bool b) = same_bool_refl b
  same_refl (number n) = eqb_ℤ-refl n
  same_refl (text s) = eq_refl s
  same_refl (list vs) = same_items_refl vs
  same_refl (object fs) = rw (fields_in_refl [] fs fs (λ k out. refl)) (keys_in_refl fs)

  same_items_refl : (vs : Values) → same_items vs vs ≡ true
  same_items_refl nil = refl
  same_items_refl (cons v vs) = rw (same_refl v) (same_items_refl vs)

  fields_in_refl :
      (seen : List String) (fs whole : Fields)
      → Agrees seen fs whole
      → fields_in seen fs whole ≡ true
  fields_in_refl seen end whole h = refl
  fields_in_refl seen (field k v fs) whole h = elim (Bool-cases (contains k seen)) [
    | inl out ↦ rw out (fields_in_refl (k ∷ seen) fs whole (Agrees-field seen k v fs whole h))
    | inr new ↦
        rw (new, sym (h k new), get-first k v fs, same_refl v)
          (fields_in_refl (k ∷ seen) fs whole (Agrees-field seen k v fs whole h))
  ]

-- A map is equal to itself.
pub json_equal_refl : (fs : Fields) → json_equal fs fs ≡ true
unfolding json_equal
json_equal_refl fs = rw (fields_in_refl [] fs fs (λ k out. refl)) (keys_in_refl fs)
