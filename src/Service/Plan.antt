-- ===== src/Service/Plan.antt =====
-- internal/task/reconcile.go: Plan and withNodeStructure, with the types of persistence.go and
-- orch/client.go. What the projection and the orchestrator answer are arguments, `none` where the
-- service has none, or where its projection keeps no structure.
use orbit_control.Prelude.{
  String, Bool, true, false, ap, ◌∙◌, ◌≡◌, refl, Option, none, some, List, [], ◌∷◌, map, Assoc,
  lookup, str_eq, eq_iff, if◌then◌else◌, arith,
}
use orbit_control.Prelude.Int.{ℤ, pos}
use orbit_control.Outcome.{Result, ok, err}
use orbit_control.Value.{Value, null, text, object, Fields, get, put, text_or_empty, get-put}
use orbit_control.Service.{Principal, Task, Service}
use orbit_control.Service.Tasks

-- Where a node sits in a compiled procedure; the raw JSON of a step is the object that it decodes to,
-- `none` where it is nil.
pub record NodeStructure : Type 0 where
  pub parent_node_id : String
  pub sop_step : Option Fields

pub record TaskPlan : Type 0 where
  pub plan_version : ℤ
  pub hash : String
  pub nodes : List Fields
  pub edges : List Fields

abbrev no_plan : TaskPlan
no_plan = record { plan_version = pos 0; hash = ""; nodes = []; edges = [] }

-- `node[key] == nil`
pub is_missing : Option Value → Bool
is_missing none = true
is_missing (some null) = true
is_missing (some _) = false

-- `given` is what the projection kept for the field, if anything.
put_missing : String → Option Value → Fields → Fields
unfolding is_missing
put_missing key none node = node
put_missing key (some value) node = if is_missing (get key node) then put key value node else node

parent_of : NodeStructure → Option Value
parent_of kept = if str_eq kept.parent_node_id "" then none else some (text kept.parent_node_id)

step_of : Option Fields → Option Value
step_of none = none
step_of (some step) = some (object step)

-- One node of the loop, with what the projection kept of it.
pub placed : Option NodeStructure → Fields → Fields
unfolding put_missing parent_of step_of
placed none node = node
placed (some kept) node =
    put_missing "sop_step" (step_of kept.sop_step)
      (put_missing "parent_node_id" (parent_of kept) node)

pub place_node : Assoc NodeStructure → Fields → Fields
place_node structure node = placed (lookup (text_or_empty (get "node_id" node)) structure) node

-- withNodeStructure
unfoldable pub with_node_structure :
    Option (Result (Assoc NodeStructure)) → TaskPlan → Result TaskPlan
unfolding place_node
with_node_structure none plan = ok plan
with_node_structure (some answer) plan = elim plan.nodes [
  | [] ↦ ok plan
  | node ∷ nodes ↦ elim answer [
    | err x ↦ err x
    | ok structure ↦ ok (record plan { nodes = map (place_node structure) plan.nodes })
  ]
]

plan_shown : Option (Result TaskPlan) → Option (Result (Assoc NodeStructure)) → Result TaskPlan
plan_shown none structure = ok no_plan
plan_shown (some (err x)) structure = err x
plan_shown (some (ok plan)) structure = with_node_structure structure plan

module _ {Seen : Type 0} where
  plan_found :
      Option (Result TaskPlan)
      → Option (Result (Assoc NodeStructure))
      → Service Seen × Result Task
      → Service Seen × Result TaskPlan
  unfolding plan_shown
  plan_found shown structure (s, err x) = (s, err x)
  plan_found shown structure (s, ok t) = (s, plan_shown shown structure)

  -- the method `Plan`
  unfoldable pub plan :
      Option (Result Task)
      → Option (Result TaskPlan)
      → Option (Result (Assoc NodeStructure))
      → Service Seen
      → Principal
      → String
      → Service Seen × Result TaskPlan
  unfolding plan_found
  plan found shown structure s p id = plan_found shown structure (Tasks.get found s p id)

get-put_missing :
    (key : String) (given : Option Value) (node : Fields) (other : String)
    → is_missing (get other node) ≡ false
    → get other (put_missing key given node) ≡ get other node
unfolding put_missing
get-put_missing key none node other h = refl
get-put_missing key (some value) node other h =
    ground (arith, eq_iff key other, get-put key other value node)

get-placed :
    (kept : Option NodeStructure) (node : Fields) (key : String)
    → is_missing (get key node) ≡ false
    → get key (placed kept node) ≡ get key node
unfolding placed
get-placed none node key h = refl
get-placed (some kept) node key h =
    let first = get-put_missing "parent_node_id" (parent_of kept) node key h in
    get-put_missing "sop_step" (step_of kept.sop_step)
      (put_missing "parent_node_id" (parent_of kept) node) key (ap is_missing first ∙ h)
    ∙ first

-- What the workflow says of a node stays: a field is filled in with what the projection kept only where
-- it is missing or null.
pub get-place_node :
    (structure : Assoc NodeStructure) (node : Fields) (key : String)
    → is_missing (get key node) ≡ false
    → get key (place_node structure node) ≡ get key node
unfolding place_node
get-place_node structure node key h =
    get-placed (lookup (text_or_empty (get "node_id" node)) structure) node key h
