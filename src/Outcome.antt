-- ===== src/Outcome.antt =====
-- The errors of internal/task and internal/store as values, and results that hold one or a value.
use orbit_control.Prelude.{String, ◌≡◌, refl, arith}

-- A named constructor for each sentinel error; `invalid` is an error made with `errors.New` or
-- `fmt.Errorf`, whose text no caller inspects; `refusal` is the orchestrator client's `Refusal`, a type
-- and a message, and `field_error` the application's `FieldError`, a code and the path of a field.
pub data Error : Type 0 where
  not_found closed malformed_event bad_cursor idempotency_conflict : Error
  reconcile_unavailable command_in_progress config_conflict storage : Error
  needs_store encoding : Error
  invalid : String → Error
  mention : String → String → Error
  external : String → Error
  refusal : String → String → Error
  field_error : String → String → Error

pub data Result {ℓ} (A : Type ℓ) : Type ℓ where
  ok : A → Result A
  err : Error → Result A

infixl 5 ◌>>=◌ ◌>>◌
abbrev pub ◌>>=◌ {ℓ₁ ℓ₂} : {A : Type ℓ₁} {B : Type ℓ₂} → Result A → (A → Result B) → Result B
err failure >>= step = err failure
ok value >>= step = step value

abbrev pub ◌>>◌ {ℓ} : {A : Type ℓ} → Result (Unit {0}) → Result A → Result A
check >> then_ = check >>= λ done. then_

-- A chain that answers with a value ran each of its steps.
pub then-ok :
    {C : Type 0} (check : Result (Unit {0})) (rest : Result C) {found : C}
    → (check >> rest) ≡ ok found
    → (check ≡ ok tt) × (rest ≡ ok found)
then-ok (err failure) rest given = ground arith
then-ok (ok tt) rest given = (refl, given)

pub bind-ok :
    {C D : Type 0} (first : Result C) (rest : C → Result D) {found : D}
    → (first >>= rest) ≡ ok found
    → (value : C) × (first ≡ ok value) × (rest value ≡ ok found)
bind-ok (err failure) rest given = ground arith
bind-ok (ok value) rest given = (value, refl, given)

pub ok_inj : {A : Type 0} (a b : A) → ok a ≡ ok b → a ≡ b
ok_inj a b h = ground arith
