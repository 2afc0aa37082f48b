-- ===== src/Service/Reconcile.antt =====
-- internal/task/reconcile.go: comparing the task that is kept here with what its workflow answers,
-- and writing the workflow's view back. What the orchestrator and the store answer are arguments,
-- `none` where the service has none.
pub mod Repaired
use orbit_control.Prelude.{
  ℕ, String, Bool, true, false, not, ◌&&◌, ◌||◌, Option, none, some, List, [], ◌∷◌, ◌++◌, str_eq,
  if◌then◌else◌, contains, length, ◌==◌,
}
use orbit_control.Prelude.Int.{ℤ, pos, eqb_ℤ}
use orbit_control.Outcome.{Error, reconcile_unavailable, Result, ok, err}
use orbit_control.Value.{
  Value, null, bool, number, text, list, object, Fields, end, field, get, without, as_number,
}
use orbit_control.Value.Same.{json_equal}
use orbit_control.Config.{text_values}
use orbit_control.Service.{Principal, Task, Service}
use orbit_control.Service.Tasks

-- What the query of the workflow answers, as far as it is compared.
pub record TaskView : Type 0 where
  pub status : String
  pub plan_version : ℤ
  pub budgets : Fields
  pub usage : Fields
  pub pending_approvals : List String

pub record TaskReconcileDifference : Type 0 where
  pub field : String
  pub expected : Value
  pub actual : Value

pub record TaskReconcileReport : Type 0 where
  pub task_id : String
  pub healthy : Bool
  pub repaired : Bool
  pub differences : List TaskReconcileDifference

pub is_null : Value → Bool
is_null null = true
is_null _ = false

pub normalize_budget : Fields → Fields
unfolding is_null
normalize_budget end = end
normalize_budget (field key value fs) =
    let rest = normalize_budget fs in if is_null value then rest else field key value rest

pub is_zero : Option ℤ → Bool
is_zero none = false
is_zero (some n) = eqb_ℤ n (pos 0)

-- `if n, ok := out[key].(float64); ok && n == 0`
pub drop_zero : String → Fields → Fields
unfolding is_zero
drop_zero key out = if is_zero (as_number (get key out)) then without key out else out

pub normalize_usage : Fields → Fields
unfolding drop_zero
normalize_usage usage = drop_zero "wall_s" (
    drop_zero "tool_calls"
      (drop_zero "tokens_out" (drop_zero "tokens_in" (normalize_budget usage))))

all_in : List String → List String → Bool
all_in [] a = true
all_in (item ∷ b) a = let rest = all_in b a in if contains item a then rest else false

unfoldable pub approval_set_equal : List String → List String → Bool
unfolding all_in
approval_set_equal a b = if not (length a == length b) then false else all_in b a

differ : Bool → String → Value → Value → List TaskReconcileDifference
differ true name expected actual = []
differ false name expected actual =
    record { field = name; expected = expected; actual = actual } ∷ []

-- The differences in the order in which they are added.
pub differences_of : Task → TaskView → List TaskReconcileDifference
unfolding differ
differences_of t v =
    differ (str_eq t.status v.status) "status" (text v.status) (text t.status)
    ++ (differ (eqb_ℤ t.plan_version v.plan_version) "plan_version" (number v.plan_version)
          (number t.plan_version)
        ++ (differ (json_equal (normalize_budget t.budgets) (normalize_budget v.budgets)) "budgets"
              (object (normalize_budget v.budgets)) (object t.budgets)
            ++ (differ (json_equal (normalize_usage t.usage) (normalize_usage v.usage)) "usage"
                  (object (normalize_usage v.usage)) (object t.usage)
                ++ differ (approval_set_equal t.pending_approvals v.pending_approvals)
                    "pending_approvals" (list (text_values v.pending_approvals))
                    (list (text_values t.pending_approvals)))))

abbrev pub is_empty {ℓ} : {A : Type ℓ} → List A → Bool
is_empty [] = true
is_empty (x ∷ xs) = false

report_of : String → List TaskReconcileDifference → TaskReconcileReport
report_of id found = record {
  task_id = id;
  healthy = is_empty found;
  repaired = false;
  differences = found;
}

pub repaired_task : Task → TaskView → ℕ → Task
repaired_task t v now = record t {
  status = v.status;
  plan_version = v.plan_version;
  budgets = normalize_budget v.budgets;
  usage = normalize_usage v.usage;
  pending_approvals = v.pending_approvals;
  updated_at = now;
}

module _ {Seen : Type 0} where
  -- `stored` is what the store answers to the write of the repaired task.
  repair_task :
      Option (Result (Unit {0}))
      → Service Seen
      → Task
      → TaskReconcileReport
      → Service Seen × Result TaskReconcileReport
  repair_task (some (err x)) s t report = (s, err x)
  repair_task _ s t report = (Tasks.cache_task s t, ok (record report { repaired = true }))

  compared :
      Option (Result (Unit {0}))
      → Service Seen
      → String
      → Task
      → Result TaskView
      → Bool
      → ℕ
      → Service Seen × Result TaskReconcileReport
  unfolding report_of repair_task repaired_task
  compared stored s id t (err x) repair now = (s, err x)
  compared stored s id t (ok v) repair now =
      let report = report_of id (differences_of t v) in
      if not repair || report.healthy
      then (s, ok report)
      else repair_task stored s (repaired_task t v now) report

  projected :
      Option (Result (Unit {0}))
      → Service Seen × Result Task
      → String
      → Result TaskView
      → Bool
      → ℕ
      → Service Seen × Result TaskReconcileReport
  unfolding compared
  projected stored (s, err x) id view repair now = (s, err x)
  projected stored (s, ok t) id view repair now = compared stored s id t view repair now

  -- Reconcile
  pub reconcile :
      Option (Result TaskView)
      → Option (Result Task)
      → Option (Result (Unit {0}))
      → Service Seen
      → Principal
      → String
      → Bool
      → ℕ
      → Service Seen × Result TaskReconcileReport
  unfolding projected
  reconcile none found stored s p id repair now = (s, err reconcile_unavailable)
  reconcile (some view) found stored s p id repair now =
      projected stored (Tasks.get found s p id) id view repair now
