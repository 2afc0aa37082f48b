-- ===== src/Witnesses/Tasks.antt =====
-- Runs of the operations on tasks.
use orbit_control.Prelude.{
  arith, String, true, ◌≡◌, ◌≢◌, ◌↔◌, ◌⊎◌, refl, Option, none, some, lookup, All,
}
use orbit_control.Prelude.Int.{ℤ, pos}
use orbit_control.Outcome.{storage, not_found, Result, ok, err}
use orbit_control.Value.{end}
use orbit_control.Policy.{Policy, validate}
use orbit_control.Policy.Layers.{Within, IsValid}
use orbit_control.Service.{Task, ArtifactManifest, Event}
use orbit_control.Service.Tasks.{clone_task, owned_by, get, delete}
use orbit_control.Service.Tasks.Owned.{OwnedBy, get-owned}
use orbit_control.Service.Tasks.Removal.{delete-gone}
use orbit_control.Service.Tasks.Create.{CreateInput, TaskWorkflowInput, Answers, prepare, create}
use orbit_control.Service.Tasks.Create.Started.{create-tightens}
use orbit_control.Witnesses.Samples.{seen, no_time, alice, bob, own_limits, task, service}
open seen use {Cache}

abbrev tenant_limits : Policy
tenant_limits = record own_limits {
  max_concurrency = some (pos 4);
  max_review_rounds = some (pos 2);
}

get-owned_example :
    ((t : Task) × (lookup "t1" service.tasks ≡ some t)
      × OwnedBy bob t
      × ((get none service bob "t1").1 ≡ ok (clone_task t)))
    ⊎ (((t : Task) → lookup "t1" service.tasks ≡ some t → ¬ OwnedBy bob t)
        × ((get none service bob "t1").1 ≡ err not_found))
get-owned_example = get-owned service bob "t1"

deleted : (delete true (some (ok task)) (some (ok tt)) service alice "t1").1.answer ≡ ok tt
unfolding delete get lookup owned_by
deleted = refl

own_row : (t : Task) → ◌≡◌ {A = Option (Result Task)} (some (ok task)) (some (ok t)) → t.id ≡ "t1"
own_row t h = ground arith

delete-gone_example :
    let s' = (delete true (some (ok task)) (some (ok tt)) service alice "t1").0 in
    (lookup "t1" s'.tasks ≡ none)
    × (lookup "t1" s'.events ≡ none)
    × (lookup "t1" s'.next_seq ≡ none)
    × (lookup "t1" s'.entity_version ≡ none)
    × (lookup "t1" s'.configs ≡ none)
    × (lookup "t1" s'.subs ≡ none)
    × All (λ (m : String × ArtifactManifest). m.1.task_id ≢ "t1") s'.manifests
    × ((j : String)
        → ◌≢◌ {A = String} "t1" j
        → (lookup j s'.tasks ≡ lookup j service.tasks)
          × (lookup j s'.events ≡ lookup j service.events)
          × (lookup j s'.next_seq ≡ lookup j service.next_seq))
delete-gone_example =
    delete-gone true (some (ok task)) service alice "t1" (some (ok tt)) own_row deleted

store_refuses : (delete true none (some (err storage)) service alice "t1").1.answer ≡ err storage
unfolding delete get lookup owned_by
store_refuses = refl

abbrev given : CreateInput
given = record {
  title = "T";
  goal = "G";
  mode = "single";
  profile = "";
  sop = "";
  budgets = end;
  policy = own_limits;
  config = none;
}

abbrev accept : Event → Result Event
accept e = ok e

abbrev answers : Answers
answers = record {
  tenant = some (ok tenant_limits);
  created = some (ok tt);
  append = some accept;
  started = some (ok tt);
}

-- the workflow's input in an answer that has one
abbrev start_of : Option TaskWorkflowInput → TaskWorkflowInput → TaskWorkflowInput
start_of none w = w
start_of (some w) _ = w

abbrev nothing_started : TaskWorkflowInput
nothing_started = record {
  task_id = "";
  tenant_id = "";
  created_by = "";
  title = "";
  goal = "";
  mode = "";
  profile = "";
  sop = "";
  node_type_registry_version = 0;
  budgets = end;
  policy = own_limits;
  config = end;
}

abbrev start : TaskWorkflowInput
start = start_of (create seen no_time answers service alice given "t2" 5).2 nothing_started

started_there : (create seen no_time answers service alice given "t2" 5).2 ≡ some start
unfolding create prepare validate
started_there = refl

create-tightens_example :
    IsValid given.policy
    × ((n : ℤ)
        → Within n start.policy.max_concurrency
          ↔ (Within n given.policy.max_concurrency × Within n tenant_limits.max_concurrency))
    × ((n : ℤ)
        → Within n start.policy.max_review_rounds
          ↔ (Within n given.policy.max_review_rounds × Within n tenant_limits.max_review_rounds))
create-tightens_example =
    create-tightens seen no_time answers service alice given "t2" 5 {w = start}
      {tenant = tenant_limits} refl started_there

abbrev store_is_down : Answers
store_is_down = record answers { created = some (err storage) }

not_created : (create seen no_time store_is_down service alice given "t2" 5).1 ≡ err storage
unfolding create prepare validate
not_created = refl
