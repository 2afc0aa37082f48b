-- ===== src/Service/Tasks.antt =====
-- internal/task/tasks.go: reading, listing and deleting tasks. What the projection store answers is
-- an argument, `none` where the service has no store.
pub mod Create
pub mod Owned
pub mod Removal
use orbit_control.Prelude.{
  String, Bool, true, false, not, ◌&&◌, ◌||◌, Option, none, some, List, [], ◌∷◌, str_eq,
  if◌then◌else◌, Assoc, lookup, insert, remove, filter_by,
}
use orbit_control.Outcome.{Error, not_found, Result, ok, err}
use orbit_control.Policy
use orbit_control.Service.{Principal, Task, Subscriber, ArtifactManifest, Service, or_empty}

-- cloneTask: the copies of the maps are JSON round trips of JSON values, and the copy of the denied
-- tools is never nil.
unfoldable pub clone_task : Task → Task
clone_task t = record t {
  policy = record t.policy { denied_tools = some (Policy.or_none t.policy.denied_tools) };
}

unfoldable pub owned_by : Principal → Task → Bool
owned_by p t = str_eq t.tenant_id p.tenant_id && str_eq t.created_by p.user_id

unfoldable pub get_local : Principal → Option Task → Result Task
get_local p none = err not_found
get_local p (some t) = if owned_by p t then ok (clone_task t) else err not_found

-- The loop of `List` over the map of tasks; Go visits the entries in no fixed order.
pub owned : Principal → Assoc Task → List Task
owned p [] = []
owned p ((id, t) ∷ ts) = let rest = owned p ts in if owned_by p t then clone_task t ∷ rest else rest

-- The loop of `Delete` over the manifests.
pub without_task : String → Assoc ArtifactManifest → Assoc ArtifactManifest
without_task id [] = []
without_task id ((k, m) ∷ ms) =
    let rest = without_task id ms in if str_eq m.task_id id then rest else (k, m) ∷ rest

-- What a deletion does beside the state: whether the workflow is asked to cancel (in the
-- background, its answer ignored), and the subscribers whose channels are closed.
pub record Deleted : Type 0 where
  pub cancels : Bool
  pub closes : List Subscriber
  pub answer : Result (Unit {0})

close_subscribers : List Subscriber → List Subscriber
close_subscribers [] = []
close_subscribers (sub ∷ subs) = record sub { closed = true } ∷ close_subscribers subs

module _ {Seen : Type 0} where
  unfoldable pub cache_task : Service Seen → Task → Service Seen
  cache_task s t = record s {
    tasks = insert t.id (clone_task t) s.tasks;
    seen_message = elim (lookup t.id s.seen_message) [
      | none ↦ insert t.id [] s.seen_message
      | some _ ↦ s.seen_message
    ];
    entity_version = elim (lookup t.id s.entity_version) [
      | none ↦ insert t.id [] s.entity_version
      | some _ ↦ s.entity_version
    ];
  }

  unfoldable pub get :
      Option (Result Task) → Service Seen → Principal → String → Service Seen × Result Task
  unfolding get_local
  get none s p id = (s, get_local p (lookup id s.tasks))
  get (some (err x)) s p id = (s, err x)
  get (some (ok t)) s p id = (cache_task s t, ok (clone_task t))

  pub cache_all : Service Seen → List Task → Service Seen
  cache_all s [] = s
  cache_all s (t ∷ ts) = cache_all (cache_task s t) ts

  pub list :
      Option (Result (List Task)) → Service Seen → Principal → Service Seen × Result (List Task)
  unfolding cache_all
  list none s p = (s, ok (owned p s.tasks))
  list (some (err x)) s p = (s, err x)
  list (some (ok ts)) s p = (cache_all s ts, ok ts)

  pub forget_task : Service Seen → String → Service Seen
  forget_task s id = record s {
    tasks = remove id s.tasks;
    events = remove id s.events;
    seen_message = remove id s.seen_message;
    next_seq = remove id s.next_seq;
    entity_version = remove id s.entity_version;
    configs = remove id s.configs;
    manifests = without_task id s.manifests;
    subs = remove id s.subs;
  }

  delete_stored : Bool → Option (Result (Unit {0})) → Service Seen → String → Service Seen × Deleted
  unfolding close_subscribers forget_task
  delete_stored orch (some (err x)) s id =
      (s, record { cancels = orch; closes = []; answer = err x })
  delete_stored orch _ s id = (
    forget_task s id,
    record {
      cancels = orch;
      closes = close_subscribers (or_empty (lookup id s.subs));
      answer = ok tt;
    },
  )

  delete_found :
      Bool
      → Option (Result (Unit {0}))
      → Service Seen × Result Task
      → String
      → Service Seen × Deleted
  unfolding delete_stored
  delete_found orch stored (s, err x) id =
      (s, record { cancels = false; closes = []; answer = err x })
  delete_found orch stored (s, ok t) id = delete_stored orch stored s id

  -- `orch` says whether there is an orchestrator.
  unfoldable pub delete :
      Bool
      → Option (Result Task)
      → Option (Result (Unit {0}))
      → Service Seen
      → Principal
      → String
      → Service Seen × Deleted
  unfolding delete_found
  delete orch found stored s p id = delete_found orch stored (get found s p id) id
