-- ===== src/Service/Reconcile/Repaired.antt =====
-- A repaired task agrees with its workflow.
use orbit_control.Prelude.{
  ℕ, String, Bool, true, false, ◌≡◌, refl, ap, ◌∙◌, inl, inr, none, some, List, [], ◌∷◌, Bool-cases,
  lookup, lookup-insert_at, str_eq, arith, eq_iff, eq_refl,
}
use orbit_control.Prelude.Int.{eqb_ℤ-refl}
use orbit_control.Outcome.{ok}
use orbit_control.Value.{Fields, end, field, get, without, get-without, as_number}
use orbit_control.Value.Same.{json_equal_refl}
use orbit_control.Service.{Principal, Task, Service}
use orbit_control.Service.Tasks
use orbit_control.Service.Tasks.{owned_by, clone_task}
use orbit_control.Service.Reconcile.{
  TaskView, TaskReconcileReport, is_null, normalize_budget, is_zero, drop_zero, normalize_usage,
  all_in, approval_set_equal, differ, differences_of, is_empty, repaired_task, reconcile, projected,
  compared, report_of, repair_task,
}

abbrev NoNull : Fields → Type 0
NoNull end = Unit
NoNull (field k v fs) = (is_null v ≡ false) × NoNull fs

normalize_budget-NoNull : (fs : Fields) → NoNull (normalize_budget fs)
unfolding normalize_budget
normalize_budget-NoNull end = tt
normalize_budget-NoNull (field k v fs) = elim (Bool-cases (is_null v)) [
  | inl n ↦ rw n (normalize_budget-NoNull fs)
  | inr n ↦ rw n (n, normalize_budget-NoNull fs)
]

normalize_budget-fixed : (fs : Fields) → NoNull fs → normalize_budget fs ≡ fs
unfolding normalize_budget
normalize_budget-fixed end h = refl
normalize_budget-fixed (field k v fs) (n, h) = rw (n, normalize_budget-fixed fs h) refl

without-NoNull : (k : String) (fs : Fields) → NoNull fs → NoNull (without k fs)
unfolding without
without-NoNull k end h = tt
without-NoNull k (field j v fs) (n, h) = elim (Bool-cases (str_eq j k)) [
  | inl e ↦ rw e (without-NoNull k fs h)
  | inr e ↦ rw e (n, without-NoNull k fs h)
]

drop_zero-NoNull : (k : String) (fs : Fields) → NoNull fs → NoNull (drop_zero k fs)
unfolding drop_zero
drop_zero-NoNull k fs h = elim (Bool-cases (is_zero (as_number (get k fs)))) [
  | inl z ↦ rw z (without-NoNull k fs h)
  | inr z ↦ rw z h
]

-- the counter is not a zero
abbrev Counts : String → Fields → Type 0
Counts k fs = is_zero (as_number (get k fs)) ≡ false

is_zero-without : (k j : String) (fs : Fields) → Counts k fs → Counts k (without j fs)
unfolding is_zero
is_zero-without k j fs h = elim (Bool-cases (str_eq j k)) [
  | inl e ↦ rw (get-without j k fs, e) refl
  | inr e ↦ rw (get-without j k fs, e) h
]

drop_zero-Counts : (k j : String) (fs : Fields) → Counts k fs → Counts k (drop_zero j fs)
unfolding drop_zero
drop_zero-Counts k j fs h = elim (Bool-cases (is_zero (as_number (get j fs)))) [
  | inl z ↦ rw z (is_zero-without k j fs h)
  | inr z ↦ rw z h
]

drop_zero-counted : (k : String) (fs : Fields) → Counts k (drop_zero k fs)
unfolding drop_zero is_zero
drop_zero-counted k fs = elim (Bool-cases (is_zero (as_number (get k fs)))) [
  | inl z ↦ rw (z, get-without k k fs, eq_refl k) refl
  | inr z ↦ rw z z
]

drop_zero-fixed : (k : String) (fs : Fields) → Counts k fs → drop_zero k fs ≡ fs
unfolding drop_zero
drop_zero-fixed k fs h = rw h refl

pub normalize_budget_idem :
    (fs : Fields) → normalize_budget (normalize_budget fs) ≡ normalize_budget fs
normalize_budget_idem fs = normalize_budget-fixed _ (normalize_budget-NoNull fs)

-- Normalizing what was normalized changes nothing.
pub normalize_usage_idem : (fs : Fields) → normalize_usage (normalize_usage fs) ≡ normalize_usage fs
unfolding normalize_usage
normalize_usage_idem fs =
    let f₀ = normalize_budget fs in
    let f₁ = drop_zero "tokens_in" f₀ in
    let f₂ = drop_zero "tokens_out" f₁ in
    let f₃ = drop_zero "tool_calls" f₂ in
    let f₄ = drop_zero "wall_s" f₃ in
    let full = drop_zero-NoNull "wall_s" f₃ (
      drop_zero-NoNull "tool_calls" f₂ (
        drop_zero-NoNull "tokens_out" f₁
          (drop_zero-NoNull "tokens_in" f₀ (normalize_budget-NoNull fs)))) in
    let in_ = drop_zero-Counts "tokens_in" "wall_s" f₃ (
      drop_zero-Counts "tokens_in" "tool_calls" f₂
        (drop_zero-Counts "tokens_in" "tokens_out" f₁ (drop_zero-counted "tokens_in" f₀))) in
    let out =
      drop_zero-Counts "tokens_out" "wall_s" f₃
        (drop_zero-Counts "tokens_out" "tool_calls" f₂ (drop_zero-counted "tokens_out" f₁)) in
    let calls = drop_zero-Counts "tool_calls" "wall_s" f₃ (drop_zero-counted "tool_calls" f₂) in
    let wall = drop_zero-counted "wall_s" f₃ in
    ap
      (λ x.
        drop_zero "wall_s"
          (drop_zero "tool_calls" (drop_zero "tokens_out" (drop_zero "tokens_in" x))))
      (normalize_budget-fixed f₄ full)
    ∙ ap (λ x. drop_zero "wall_s" (drop_zero "tool_calls" (drop_zero "tokens_out" x)))
        (drop_zero-fixed "tokens_in" f₄ in_)
    ∙ ap (λ x. drop_zero "wall_s" (drop_zero "tool_calls" x)) (drop_zero-fixed "tokens_out" f₄ out)
    ∙ ap (λ x. drop_zero "wall_s" x) (drop_zero-fixed "tool_calls" f₄ calls)
    ∙ drop_zero-fixed "wall_s" f₄ wall

all_in-more : (b a : List String) (x : String) → all_in b a ≡ true → all_in b (x ∷ a) ≡ true
unfolding all_in
all_in-more [] a x h = refl
all_in-more (y ∷ b) a x h = ground (arith, all_in-more b a x, eq_iff x y)

all_in_self : (a : List String) → all_in a a ≡ true
unfolding all_in
all_in_self [] = refl
all_in_self (x ∷ a) = ground (arith, eq_refl x, all_in-more a a x (all_in_self a))

approval_set_equal_refl : (a : List String) → approval_set_equal a a ≡ true
unfolding approval_set_equal
approval_set_equal_refl a = rw (all_in_self a) (ground arith)

differences_of-repaired :
    (t : Task) (v : TaskView) (now : ℕ) → differences_of (repaired_task t v now) v ≡ []
unfolding differences_of differ repaired_task
differences_of-repaired t v now =
    rw
      (
        eq_refl v.status,
        eqb_ℤ-refl v.plan_version,
        normalize_budget_idem v.budgets,
        json_equal_refl (normalize_budget v.budgets),
        normalize_usage_idem v.usage,
        json_equal_refl (normalize_usage v.usage),
        approval_set_equal_refl v.pending_approvals,
      )
      refl

is_empty-nil : {A : Type 0} (xs : List A) → is_empty xs ≡ true → xs ≡ []
is_empty-nil [] h = refl
is_empty-nil (x ∷ xs) h = ground arith

abbrev pub healthy : String → TaskReconcileReport
healthy id = record { task_id = id; healthy = true; repaired = false; differences = [] }

module _ {Seen : Type 0} where
  reconcile-healthy :
      (s : Service Seen) (p : Principal) (id : String) (t : Task) (v : TaskView) (repair : Bool)
      (now : ℕ)
      → lookup id s.tasks ≡ some t
      → owned_by p t ≡ true
      → differences_of (clone_task t) v ≡ []
      → reconcile (some (ok v)) none none s p id repair now ≡ (s, ok (healthy id))
  unfolding reconcile projected compared report_of Tasks.get Tasks.get_local
  reconcile-healthy s p id t v true now found owned same = rw (found, owned, same) refl
  reconcile-healthy s p id t v false now found owned same = rw (found, owned, same) refl

  reconcile-writes :
      (s : Service Seen) (p : Principal) (id : String) (t : Task) (v : TaskView) (now : ℕ)
      → lookup id s.tasks ≡ some t
      → owned_by p t ≡ true
      → is_empty (differences_of (clone_task t) v) ≡ false
      → (reconcile (some (ok v)) none none s p id true now).0
        ≡ Tasks.cache_task s (repaired_task (clone_task t) v now)
  unfolding reconcile projected compared report_of repair_task Tasks.get Tasks.get_local
  reconcile-writes s p id t v now found owned differs = rw (found, owned, differs) refl

  -- Where there is no store: after a reconciliation with repair of a task by its owner, comparing the
  -- task with the same view of the workflow finds it healthy.
  pub reconcile-repaired :
      (s : Service Seen) (p : Principal) (id : String) (t : Task) (v : TaskView) (now later : ℕ)
      → lookup id s.tasks ≡ some t
      → owned_by p t ≡ true
      → t.id ≡ id
      → (reconcile
          (some (ok v))
          none
          none
          (reconcile (some (ok v)) none none s p id true now).0
          p
          id
          false
          later).1
        ≡ ok (healthy id)
  unfolding Tasks.cache_task clone_task owned_by repaired_task
  reconcile-repaired s p id t v now later found owned keyed =
      elim (Bool-cases (is_empty (differences_of (clone_task t) v))) [
        | inl same ↦
            let agreed = is_empty-nil (differences_of (clone_task t) v) same in
            rw (reconcile-healthy s p id t v true now found owned agreed)
              (ap (λ r. r.1) (reconcile-healthy s p id t v false later found owned agreed))
        | inr differs ↦
            let u = repaired_task (clone_task t) v now in
            rw (reconcile-writes s p id t v now found owned differs) (
              ap (λ r. r.1)
                (reconcile-healthy (Tasks.cache_task s u) p id (clone_task u) v false later
                  (lookup-insert_at t.id id (clone_task u) s.tasks keyed) owned
                  (differences_of-repaired (clone_task t) v now)))
      ]
