-- ===== src/Sop/Valid.antt =====
-- What a procedure satisfies that `ValidateSOP` lets through.
use orbit_control.Prelude.{
  ℕ, ◌≤◌, String, Bool, true, false, ◌≡◌, ◌≢◌, refl, ap, suc, ◌+◌, ◌⊎◌, inl, List, [], ◌∷◌, map,
  arith, ltb, ◌==◌, eq_iff, contains, length, All,
}
use orbit_control.Outcome.{then-ok, bind-ok, ok}
use orbit_control.Sop.Cycle.{has_cycle}
use orbit_control.Sop.{
  SopStep, Sop, refuse_if, normalize_from, normalize_sop_steps, check_written, check_defaults,
  collect_ids, validate_sop_step, or_empty, check_dependencies, check_steps, node_of, sop_name,
  validate_sop,
}

-- Each id is new: neither among `seen` nor among the ids before it.
abbrev pub Unique : List String → List SopStep → Type 0
Unique seen [] = Unit
Unique seen (step ∷ steps) = (contains step.id seen ≡ false) × Unique (step.id ∷ seen) steps

abbrev pub id_of : SopStep → String
id_of step = step.id

-- Every dependency of the step is another step of the list, and the step is within its own limits.
abbrev pub IsSound : List String → SopStep → Type 0
IsSound ids step =
    (validate_sop_step step ≡ ok tt)
    × All (λ d. (d ≢ step.id) × (contains d ids ≡ true)) (or_empty step.depends_on)

collect_ids-Unique :
    (seen : List String) (steps : List SopStep) (ids : List String)
    → collect_ids seen steps ≡ ok ids
    → Unique seen steps
unfolding collect_ids
collect_ids-Unique seen [] ids h = tt
collect_ids-Unique seen (step ∷ steps) ids h =
    ground (arith, collect_ids-Unique (step.id ∷ seen) steps ids)

-- An id that was collected stood there before, or is a step's.
collect_ids-known :
    (d : String) (seen : List String) (steps : List SopStep) (ids : List String)
    → collect_ids seen steps ≡ ok ids
    → contains d ids ≡ true
    → (contains d seen ≡ true) ⊎ (contains d (map id_of steps) ≡ true)
unfolding collect_ids
collect_ids-known d seen [] ids h k = inl (cc (h, k))
collect_ids-known d seen (step ∷ steps) ids h k =
    ground (arith, eq_iff step.id d, collect_ids-known d (step.id ∷ seen) steps ids)

check_dependencies-known :
    (ids : List String) (id : String) (ds : List String)
    → check_dependencies ids id ds ≡ ok tt
    → All (λ d. (d ≢ id) × (contains d ids ≡ true)) ds
unfolding check_dependencies
check_dependencies-known ids id [] h = tt
check_dependencies-known ids id (d ∷ ds) h =
    ground (arith, eq_iff d id, check_dependencies-known ids id ds)

-- What a check and the rest of the checks after it come to when the whole succeeds.
refuse_if-ok : (b : Bool) (message : String) → refuse_if b message ≡ ok tt → b ≡ false
unfolding refuse_if
refuse_if-ok true message h = ground arith
refuse_if-ok false message h = refl

check_steps-IsSound :
    (ids : List String) (steps : List SopStep)
    → check_steps ids steps ≡ ok tt
    → All (IsSound ids) steps
unfolding check_steps
check_steps-IsSound ids [] h = tt
check_steps-IsSound ids (step ∷ steps) h =
    let (valid, more) = then-ok (validate_sop_step step) _ h in
    let (known, rest) =
      then-ok (check_dependencies ids step.id (or_empty step.depends_on)) _ more in
    (
      (valid, check_dependencies-known ids step.id (or_empty step.depends_on) known),
      check_steps-IsSound ids steps rest,
    )

length-normalize_from :
    (index : ℕ) (previous : String) (steps : List SopStep)
    → length (normalize_from index previous steps) ≡ length steps
unfolding normalize_from
length-normalize_from index previous [] = refl
length-normalize_from index previous (step ∷ steps) =
    ap suc (length-normalize_from (index + 1) step.id steps)

All-weaken :
    {A : Type 0} (P Q : A → Type 0) (xs : List A) → ((x : A) → P x → Q x) → All P xs → All Q xs
All-weaken P Q [] f h = tt
All-weaken P Q (x ∷ xs) f (p, h) = (f x p, All-weaken P Q xs f h)

known_steps :
    (steps : List SopStep) (ids : List String) (d : String)
    → collect_ids [] steps ≡ ok ids
    → contains d ids ≡ true
    → contains d (map id_of steps) ≡ true
known_steps steps ids d h k = ground (arith, collect_ids-known d [] steps ids)

IsSound-steps :
    (steps : List SopStep) (ids : List String)
    → collect_ids [] steps ≡ ok ids
    → All (IsSound ids) steps
    → All (IsSound (map id_of steps)) steps
IsSound-steps steps ids h =
    All-weaken (IsSound ids) (IsSound (map id_of steps)) steps (λ step (v, k). (
      v,
      All-weaken (λ d. (d ≢ step.id) × (contains d ids ≡ true))
          (λ d. (d ≢ step.id) × (contains d (map id_of steps) ≡ true)) (or_empty step.depends_on)
          (λ d (n, c). (n, known_steps steps ids d h c)) k,
    ))

ok-steps : (a b : Sop) → ok a ≡ ok b → b.steps ≡ a.steps
ok-steps a b h = ground arith

-- A procedure that passes has at least one and at most 50 steps, which are the given ones with their
-- defaults filled in; their ids are all different; each step is within its own limits and depends on
-- other steps of the procedure only; and no cycle is found among them.
pub validate_sop-ok :
    (sop valid : Sop)
    → validate_sop sop ≡ ok valid
    → (valid.steps ≡ normalize_sop_steps sop.steps)
      × (1 ≤ length valid.steps)
      × (length valid.steps ≤ 50)
      × Unique [] valid.steps
      × All (IsSound (map id_of valid.steps)) valid.steps
      × (has_cycle (map node_of valid.steps) ≡ false)
unfolding validate_sop normalize_sop_steps
validate_sop-ok sop valid h =
    let steps = normalize_sop_steps sop.steps in
    let (some_steps, h₁) = then-ok (refuse_if (length sop.steps == 0) _) _ h in
    let (few, h₂) = then-ok (refuse_if (ltb 50 (length sop.steps)) _) _ h₁ in
    let (_, h₃) = then-ok (refuse_if _ _) _ h₂ in
    let (written, _, h₄) = bind-ok (check_written [] sop.steps) _ h₃ in
    let (_, h₅) = then-ok (check_defaults written 0 sop.steps) _ h₄ in
    let (ids, collected, h₆) = bind-ok (collect_ids [] steps) _ h₅ in
    let (sound, h₇) = then-ok (check_steps ids steps) _ h₆ in
    let (acyclic, h₈) = then-ok (refuse_if (has_cycle (map node_of steps)) _) _ h₇ in
    let same = length-normalize_from 0 "" sop.steps in
    let not_empty = refuse_if-ok (length sop.steps == 0) _ some_steps in
    let at_most = refuse_if-ok (ltb 50 (length sop.steps)) _ few in
    rw (ok-steps (record sop { name = sop_name sop; steps = steps }) valid h₈) (
      refl,
      rw same (ground (arith, not_empty)),
      rw same (ground (arith, at_most)),
      collect_ids-Unique [] steps ids collected,
      IsSound-steps steps ids collected (check_steps-IsSound ids steps sound),
      refuse_if-ok (has_cycle (map node_of steps)) _ acyclic,
    )
