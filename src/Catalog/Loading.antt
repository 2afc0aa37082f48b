-- ===== src/Catalog/Loading.antt =====
-- internal/store/memstore: the loop that writes rows into a map, which every Replace operation has.
-- `entry` says where a row goes, `none` for a row that is passed over.
use orbit_control.Prelude.{
  String, ◌≡◌, refl, Option, none, some, List, [], ◌∷◌, Assoc, lookup, insert, str_eq,
  if◌then◌else◌, arith, eq_iff, lookup-insert, false, Bool-cases, inl, inr, ◌⊎◌, ◌≢◌, All, ◌++◌, ap,
  sym, ◌∙◌, eq_of_str_eq, ne_of_str_eq, str_eq_of_ne,
}

-- the newer of two values, if there is one
abbrev pub or_before {ℓ} : {V : Type ℓ} → Option V → Option V → Option V
or_before none before = before
or_before (some v) before = some v

module _ {V : Type 0} where
  abbrev pub put_one : Option (String × V) → Assoc V → Assoc V
  put_one none m = m
  put_one (some (key, v)) m = insert key v m

  abbrev pub hit : String → Option (String × V) → Option V
  hit key none = none
  hit key (some (j, v)) = if str_eq j key then some v else none

  lookup-put_one :
      (key : String) (e : Option (String × V)) (m : Assoc V)
      → lookup key (put_one e m) ≡ or_before (hit key e) (lookup key m)
  lookup-put_one key none m = refl
  lookup-put_one key (some (j, v)) m = ground (arith, eq_iff j key, lookup-insert j key v m)

or_before_assoc :
    {V : Type 0} (a b c : Option V) → or_before a (or_before b c) ≡ or_before (or_before a b) c
or_before_assoc none b c = refl
or_before_assoc (some a) b c = refl

pub or_before-none : {V : Type 0} (a : Option V) → or_before a none ≡ a
or_before-none none = refl
or_before-none (some v) = refl

module _ {A V : Type 0} (entry : A → Option (String × V)) where
  unfoldable pub put_all : List A → Assoc V → Assoc V
  put_all [] m = m
  put_all (row ∷ rows) m = put_all rows (put_one (entry row) m)

  -- What the last of the rows for a key puts there.
  abbrev pub last_put : String → List A → Option V
  last_put key [] = none
  last_put key (row ∷ rows) = or_before (last_put key rows) (hit key (entry row))

  -- After the loop a key holds what the last row for it wrote, and what it held before where no row
  -- was for it.
  pub lookup-put_all :
      (key : String) (rows : List A) (m : Assoc V)
      → lookup key (put_all rows m) ≡ or_before (last_put key rows) (lookup key m)
  unfolding put_all
  lookup-put_all key [] m = refl
  lookup-put_all key (row ∷ rows) m =
      rw (lookup-put_all key rows (put_one (entry row) m), lookup-put_one key (entry row) m)
        (or_before_assoc (last_put key rows) (hit key (entry row)) (lookup key m))

-- the last of the rows with a key
abbrev pub LastOf : {A : Type 0} → (A → String) → String → A → List A → Type 0
LastOf {A} key id x xs =
    (before after : List A) × (xs ≡ before ++ x ∷ after)
    × (key x ≡ id)
    × All (λ y. key y ≢ id) after

module _ {A : Type 0} (key : A → String) (val : A → A) where
  abbrev entry_of : A → Option (String × A)
  entry_of row = if str_eq (key row) "" then none else some (key row, val row)

  pub last_put-LastOf :
      (rows : List A) (id : String)
      → id ≢ ""
      → ((row : A) × LastOf key id row rows × (last_put entry_of id rows ≡ some (val row)))
        ⊎ (All (λ y. key y ≢ id) rows × (last_put entry_of id rows ≡ none))
  last_put-LastOf [] id h = inr (tt, refl)
  last_put-LastOf (row ∷ rows) id h = elim (last_put-LastOf rows id h) [
    | inl (r, (before, after, split, k, others), e) ↦
        inl (r, (row ∷ before, after, ap (λ l. row ∷ l) split, k, others), rw e refl)
    | inr (others, e) ↦ elim (Bool-cases (str_eq (key row) id)) [
      | inl same ↦
          let k = eq_of_str_eq (key row) id same in
          inl (
            row,
            ([], rows, refl, k, others),
            rw (e, str_eq_of_ne (key row) "" (λ z. h (sym k ∙ z)), same) refl,
          )
      | inr other ↦
          let n = ne_of_str_eq (key row) id other in inr ((n, others), rw e (passed row id other))
    ]
  ]
    where
      passed : (row : A) (id : String) → str_eq (key row) id ≡ false → hit id (entry_of row) ≡ none
      passed row id other = elim (Bool-cases (str_eq (key row) "")) [
        | inl z ↦ rw z refl
        | inr z ↦ rw (z, other) refl
      ]

  pub last_put-unkeyed : (rows : List A) → last_put entry_of "" rows ≡ none
  last_put-unkeyed [] = refl
  last_put-unkeyed (row ∷ rows) = elim (Bool-cases (str_eq (key row) "")) [
    | inl z ↦ rw (last_put-unkeyed rows, z) refl
    | inr z ↦ rw (last_put-unkeyed rows, z, z) refl
  ]
