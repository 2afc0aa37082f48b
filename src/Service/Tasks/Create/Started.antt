-- ===== src/Service/Tasks/Create/Started.antt =====
-- What a created task's workflow is started with, and what a refusal leaves.
use orbit_control.Prelude.{ℕ, String, ◌≡◌, ◌↔◌, refl, Option, none, some, arith}
use orbit_control.Prelude.Int.{ℤ}
use orbit_control.Outcome.{Error, Result, ok, err}
use orbit_control.Lru.{Lru}
use orbit_control.Value.{Value}
use orbit_control.Policy.{Policy, validate, normalized, smallest}
use orbit_control.Policy.Layers.{Within, smallest_iff, IsValid, validate_iff}
use orbit_control.Service.{Principal, Service}
use orbit_control.Service.Tasks.Create.{
  CreateInput, TaskWorkflowInput, Prepared, prepare, Answers, create_prepared, create,
}

prepare_tenant :
    (tenant : Policy) (p : Principal) (given : CreateInput) (id : String) (now : ℕ) {r : Prepared}
    → prepare (some (ok tenant)) p given id now ≡ ok r
    → (validate given.policy ≡ ok tt)
      × (r.start.policy.max_concurrency
          ≡ smallest given.policy.max_concurrency tenant.max_concurrency)
      × (r.start.policy.max_review_rounds
          ≡ smallest given.policy.max_review_rounds tenant.max_review_rounds)
unfolding prepare normalized
prepare_tenant tenant p given id now h = ground arith

module _ (L : Lru (Unit {0})) (time_of : Value → Option ℕ) where
  open L use {Cache}

  created_prepared :
      (a : Answers) (s : Service Cache) (q : Result Prepared) (now : ℕ) {w : TaskWorkflowInput}
      → (create_prepared L time_of a s q now).2 ≡ some w
      → (r : Prepared) × (q ≡ ok r) × (r.start ≡ w)
  unfolding create_prepared
  created_prepared a s (ok r) now h = (r, refl, ground arith)
  created_prepared a s (err x) now h = cc

  created_refused :
      (a : Answers) (s : Service Cache) (q : Result Prepared) (now : ℕ) {x : Error}
      → (create_prepared L time_of a s q now).1 ≡ err x
      → ((create_prepared L time_of a s q now).0 ≡ s)
        × ((create_prepared L time_of a s q now).2 ≡ none)
  unfolding create_prepared
  created_refused a s (ok r) now h = ground arith
  created_refused a s (err x) now h = (refl, refl)

  create_lem :
      (a : Answers) (s : Service Cache) (p : Principal) (given : CreateInput) (id : String)
      (now : ℕ)
      → create L time_of a s p given id now
        ≡ create_prepared L time_of a s (prepare a.tenant p given id now) now
  unfolding create
  create_lem a s p given id now = refl

  -- Where the store answers with the tenant's policy and a workflow is started, the task's own
  -- policy is valid, and the workflow's concurrency limit and review limit allow exactly what both
  -- the task's and the tenant's own limits allow.
  pub create-tightens :
      (a : Answers) (s : Service Cache) (p : Principal) (given : CreateInput) (id : String)
      (now : ℕ) {w : TaskWorkflowInput} {tenant : Policy}
      → a.tenant ≡ some (ok tenant)
      → (create L time_of a s p given id now).2 ≡ some w
      → IsValid given.policy
        × ((n : ℤ)
            → Within n w.policy.max_concurrency
              ↔ (Within n given.policy.max_concurrency × Within n tenant.max_concurrency))
        × ((n : ℤ)
            → Within n w.policy.max_review_rounds
              ↔ (Within n given.policy.max_review_rounds × Within n tenant.max_review_rounds))
  create-tightens a s p given id now {w} {tenant} e h =
      let (r, q, same) =
        created_prepared a s (prepare a.tenant p given id now) now
          (rw (create_lem a s p given id now) at h) in
      let (v, c, m) = prepare_tenant tenant p given id now {r = r} (rw e at q) in
      (
        (validate_iff given.policy).0 v,
        λ n.
            rw (← same) (rw c (smallest_iff given.policy.max_concurrency tenant.max_concurrency n)),
        λ n.
            rw (← same)
              (rw m (smallest_iff given.policy.max_review_rounds tenant.max_review_rounds n)),
      )

  -- A creation that fails starts no workflow and leaves the service as it was.
  pub create-refused :
      (a : Answers) (s : Service Cache) (p : Principal) (given : CreateInput) (id : String)
      (now : ℕ) {x : Error}
      → (create L time_of a s p given id now).1 ≡ err x
      → ((create L time_of a s p given id now).0 ≡ s)
        × ((create L time_of a s p given id now).2 ≡ none)
  create-refused a s p given id now h = rw (create_lem a s p given id now) (
      created_refused a s (prepare a.tenant p given id now) now
        (rw (create_lem a s p given id now) at h))
