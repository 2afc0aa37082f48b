-- ===== src/Service/Tasks/Removal.antt =====
-- What deleting a task removes, and what it leaves.
use orbit_control.Prelude.{
  String, Bool, ◌≡◌, ◌≢◌, refl, sym, ◌∙◌, Option, none, some, [], ◌∷◌, arith, eq_iff, lookup, Assoc,
  lookup-remove_self, lookup-insert_ne, lookup-remove_ne, All,
}
use orbit_control.Outcome.{Error, Result, ok, err}
use orbit_control.Service.{Principal, Task, ArtifactManifest, Service}
use orbit_control.Service.Tasks.{
  get, cache_task, without_task, forget_task, delete_stored, delete_found, delete,
}

without_task-All :
    (id : String) (ms : Assoc ArtifactManifest)
    → All (λ (m : String × ArtifactManifest). m.1.task_id ≢ id) (without_task id ms)
unfolding without_task
without_task-All id [] = tt
without_task-All id ((k, m) ∷ ms) = ground (arith, without_task-All id ms, eq_iff m.task_id id)

module _ {Seen : Type 0} where
  delete_stored-forget_task :
      (orch : Bool) (stored : Option (Result (Unit {0}))) (s : Service Seen) (id : String)
      → (delete_stored orch stored s id).1.answer ≡ ok tt
      → (delete_stored orch stored s id).0 ≡ forget_task s id
  unfolding delete_stored
  delete_stored-forget_task orch none s id h = refl
  delete_stored-forget_task orch (some (ok done)) s id h = refl
  delete_stored-forget_task orch (some (err x)) s id h = ground arith

  delete_found-forget_task :
      (orch : Bool) (stored : Option (Result (Unit {0}))) (got : Service Seen × Result Task)
      (id : String)
      → (delete_found orch stored got id).1.answer ≡ ok tt
      → (delete_found orch stored got id).0 ≡ forget_task got.0 id
  unfolding delete_found
  delete_found-forget_task orch stored (s, err x) id h = ground arith
  delete_found-forget_task orch stored (s, ok t) id h = delete_stored-forget_task orch stored s id h

  -- what the service holds of another task is what it held before the read
  abbrev SameOf : String → Service Seen → Service Seen → Type 0
  SameOf j s' s =
      (lookup j s'.tasks ≡ lookup j s.tasks)
      × (lookup j s'.events ≡ lookup j s.events)
      × (lookup j s'.next_seq ≡ lookup j s.next_seq)

  get-SameOf :
      (found : Option (Result Task)) (s : Service Seen) (p : Principal) (id j : String)
      → ((t : Task) → found ≡ some (ok t) → t.id ≡ id)
      → id ≢ j
      → SameOf j (get found s p id).0 s
  unfolding get cache_task
  get-SameOf none s p id j own n = (refl, refl, refl)
  get-SameOf (some (err x)) s p id j own n = (refl, refl, refl)
  get-SameOf (some (ok t)) s p id j own n =
      (lookup-insert_ne t.id j _ s.tasks (λ e. n (sym (own t refl) ∙ e)), refl, refl)

  -- A deletion that succeeds, with a store or without, leaves nothing of the task in the service: no
  -- row, events, numbers, versions, configuration, subscribers or manifests. Every other task keeps
  -- its row, its events and its last number. A store that is asked for the task answers with the row
  -- of that id.
  pub delete-gone :
      (orch : Bool) (found : Option (Result Task)) (s : Service Seen) (p : Principal) (id : String)
      (stored : Option (Result (Unit {0})))
      → ((t : Task) → found ≡ some (ok t) → t.id ≡ id)
      → (delete orch found stored s p id).1.answer ≡ ok tt
      → let s' = (delete orch found stored s p id).0 in
        (lookup id s'.tasks ≡ none)
        × (lookup id s'.events ≡ none)
        × (lookup id s'.next_seq ≡ none)
        × (lookup id s'.entity_version ≡ none)
        × (lookup id s'.configs ≡ none)
        × (lookup id s'.subs ≡ none)
        × All (λ (m : String × ArtifactManifest). m.1.task_id ≢ id) s'.manifests
        × ((j : String)
            → id ≢ j
            → (lookup j s'.tasks ≡ lookup j s.tasks)
              × (lookup j s'.events ≡ lookup j s.events)
              × (lookup j s'.next_seq ≡ lookup j s.next_seq))
  unfolding delete forget_task
  delete-gone orch found s p id stored own h =
      let got = (get found s p id).0 in
      rw (delete_found-forget_task orch stored (get found s p id) id h) (
        lookup-remove_self got.tasks id,
        lookup-remove_self got.events id,
        lookup-remove_self got.next_seq id,
        lookup-remove_self got.entity_version id,
        lookup-remove_self got.configs id,
        lookup-remove_self got.subs id,
        without_task-All id got.manifests,
        λ j n.
            let (tasks, events, seqs) = get-SameOf found s p id j own n in
            (
              lookup-remove_ne got.tasks id j n ∙ tasks,
              lookup-remove_ne got.events id j n ∙ events,
              lookup-remove_ne got.next_seq id j n ∙ seqs,
            ),
      )

  -- A deletion that the store or the ownership check refuses changes nothing in the service.
  pub delete-refused :
      (orch : Bool) (s : Service Seen) (p : Principal) (id : String)
      (stored : Option (Result (Unit {0}))) {x : Error}
      → (delete orch none stored s p id).1.answer ≡ err x
      → ((delete orch none stored s p id).0 ≡ s) × ((delete orch none stored s p id).1.closes ≡ [])
  unfolding delete get
  delete-refused orch s p id stored h = ground arith
