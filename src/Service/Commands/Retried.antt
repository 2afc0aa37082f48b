-- ===== src/Service/Commands/Retried.antt =====
-- What a client gets that sends a command again.
use mathlib.Core.Path.{subst}
use orbit_control.Prelude.{
  ◌⊎◌, List, ◌++◌, ℕ, String, true, false, ◌≡◌, refl, sym, Option, none, some, arith, Bool-cases,
  inl, inr,
}
use orbit_control.Outcome.{Result, ok, err}
use orbit_control.Lru.{Lru}
use orbit_control.Value.{Value, Fields}
use orbit_control.Ledger.{command_lease}
use orbit_control.Ledger.Interface.{CommandLedger, after_calls}
use orbit_control.Ledger.Traces.{Call}
use orbit_control.Service.{Principal, Task, Service}
use orbit_control.Service.Tasks
use orbit_control.Service.Configs.{ConfigUpdateResult}
use orbit_control.Service.Commands.{
  Answers, Done, Server, command_key, is_refused, run_update, after_run, after_claim, completed,
  update_checked, after_get, with_check, checked_run,
}

pub is_refused_same :
    (u t : Task) (name : String) → u ≡ t → is_refused t name ≡ false → is_refused u name ≡ false
is_refused_same u t name e = subst (λ v. is_refused v name ≡ false) (sym e)

module _ (L : Lru (Unit {0})) (time_of : Value → Option ℕ) (decode : String → Option Fields)
    (encode : ConfigUpdateResult → String) (G : CommandLedger)
    (request_hash : String → Value → String) where
  open L use {Cache}
  open G use {State, claim_command, complete_command, Dropped, completed-replay}

  abbrev pub send :
      Answers
      → Server L time_of decode encode G request_hash
      → Principal
      → String
      → String
      → String
      → Value
      → Server L time_of decode encode G request_hash × Done
  send = update_checked L time_of decode encode G request_hash

  completed-ok :
      (s : Service Cache) (done : State × Result (Unit {0})) (key owner written raw : String)
      → let r = completed L time_of decode encode G request_hash s done key owner written in
        r.1.answer ≡ ok raw → (written ≡ raw) × (done.1 ≡ ok tt) × (r.0.1 ≡ done.0)
  unfolding completed
  completed-ok s (g, err x) key owner written raw h = ground arith
  completed-ok s (g, ok tt) key owner written raw h = (ground arith, refl, refl)

  after_run-ok :
      (a : Answers) (ran : Service Cache × Result String) (g : State) (key raw : String)
      → let r = after_run L time_of decode encode G request_hash a ran g key in
        r.1.answer ≡ ok raw
        → ((complete_command g key a.owner raw a.completed_at).1 ≡ ok tt)
          × (r.0.1 ≡ (complete_command g key a.owner raw a.completed_at).0)
  unfolding after_run
  after_run-ok a (s, err x) g key raw h = ground arith
  after_run-ok a (s, ok written) g key raw h =
      let (same, done, left) =
        completed-ok s (complete_command g key a.owner written a.completed_at) key a.owner written
          raw h in
      subst
        (λ w.
          ((complete_command g key a.owner w a.completed_at).1 ≡ ok tt)
          × ((after_run L time_of decode encode G request_hash a (s, ok written) g key).0.1
              ≡ (complete_command g key a.owner w a.completed_at).0))
        same (done, left)

  checked_run-ok :
      (check : Option (Result (Unit {0}))) (a : Answers) (s : Service Cache)
      (ran : Service Cache × Result String) (g : State) (key raw : String)
      → let r = checked_run L time_of decode encode G request_hash check a s ran g key in
        r.1.answer ≡ ok raw
        → ((complete_command g key a.owner raw a.completed_at).1 ≡ ok tt)
          × (r.0.1 ≡ (complete_command g key a.owner raw a.completed_at).0)
  unfolding checked_run with_check
  checked_run-ok none a s ran g key raw h = after_run-ok a ran g key raw h
  checked_run-ok (some (err x)) a s ran g key raw h = ground arith
  checked_run-ok (some (ok tt)) a s ran g key raw h = after_run-ok a ran g key raw h

  after_claim-ran :
      (a : Answers) (s : Service Cache) (claim : State × Result (Option String))
      (key id name raw : String) (payload : Value)
      → let r = after_claim L time_of decode encode G request_hash a s claim key id name payload in
        r.1.answer ≡ ok raw
        → r.1.ran ≡ true
        → (claim.1 ≡ ok none)
          × ((complete_command claim.0 key a.owner raw a.completed_at).1 ≡ ok tt)
          × (r.0.1 ≡ (complete_command claim.0 key a.owner raw a.completed_at).0)
  unfolding after_claim
  after_claim-ran a s (g, err x) key id name raw payload h k = ground arith
  after_claim-ran a s (g, ok (some stored)) key id name raw payload h k = ground arith
  after_claim-ran a s (g, ok none) key id name raw payload h k =
      let ran = run_update L time_of decode encode a s id name payload in
      let (done, left) = checked_run-ok a.check a s ran g key raw h in (refl, done, left)

  -- the claim that a command makes
  abbrev pub claim_of :
      Answers
      → State
      → Principal
      → String
      → String
      → String
      → Value
      → State × Result (Option String)
  claim_of a g p id name command_id payload =
      claim_command g (command_key p id command_id) (request_hash name payload) a.owner
        command_lease a.claimed_at

  -- What stands after a command that ran and was answered with `raw`: the claim was its own, and the
  -- ledger is as completing it left it.
  abbrev Completed :
      Answers
      → State
      → String
      → State × Result (Option String)
      → String
      → Server L time_of decode encode G request_hash × Done
      → Type 0
  Completed a g key claim raw r =
      r.1.answer ≡ ok raw
      → r.1.ran ≡ true
      → (claim.1 ≡ ok none)
        × ((complete_command claim.0 key a.owner raw a.completed_at).1 ≡ ok tt)
        × (r.0.1 ≡ (complete_command claim.0 key a.owner raw a.completed_at).0)

  after_get-Completed :
      (a : Answers) (got : Service Cache × Result Task) (g : State) (p : Principal)
      (id name command_id raw : String) (payload : Value)
      → Completed a g
          (command_key p id command_id)
          (claim_of a g p id name command_id payload)
          raw
          (after_get L time_of decode encode G request_hash a got g p id name command_id payload)
  unfolding after_get
  after_get-Completed a (s, err x) g p id name command_id raw payload = λ h k. ground arith
  after_get-Completed a (s, ok t) g p id name command_id raw payload =
      let key = command_key p id command_id in
      let claim = claim_of a g p id name command_id payload in
      elim (Bool-cases (is_refused t name)) [
        | inl closed_ ↦ rw closed_ (λ h k. ground arith)
        | inr open_ ↦ rw open_ (after_claim-ran a s claim key id name raw payload)
      ]

  after_claim-stored :
      (b : Answers) (s : Service Cache) (claim : State × Result (Option String))
      (key id name raw : String) (payload : Value)
      → claim.1 ≡ ok (some raw)
      → (after_claim L time_of decode encode G request_hash b s claim key id name payload).1
        ≡ record { answer = ok raw; checked = false; ran = false }
  unfolding after_claim
  after_claim-stored b s (g, err x) key id name raw payload h = ground arith
  after_claim-stored b s (g, ok none) key id name raw payload h = ground arith
  after_claim-stored b s (g, ok (some stored)) key id name raw payload h = ground arith

  after_get-stored :
      (b : Answers) (got : Service Cache × Result Task) (g : State) (p : Principal)
      (id name command_id raw : String) (payload : Value) (t : Task)
      → got.1 ≡ ok t
      → is_refused t name ≡ false
      → (claim_of b g p id name command_id payload).1 ≡ ok (some raw)
      → (after_get L time_of decode encode G request_hash b got g p id name command_id payload).1
        ≡ record { answer = ok raw; checked = false; ran = false }
  unfolding after_get
  after_get-stored b (s, err x) g p id name command_id raw payload t found open_ stored =
      ground arith
  after_get-stored b (s, ok u) g p id name command_id raw payload t found open_ stored =
      let e = is_refused_same u t name (ground arith) open_ in
      rw e (
        after_claim-stored b s (claim_of b g p id name command_id payload)
          (command_key p id command_id) id name raw payload stored)

  -- After a command ran and was answered with a response, every request that sends the same command is
  -- answered with it again, and neither its check nor the command is run. Whatever other requests have
  -- the ledger do in between, and whatever the service has become, as long as the task is found and is
  -- not closed to the command; the one way out is that the ledger dropped the command on the way.
  pub update_checked-replayed :
      (a b : Answers) (s s' : Service Cache) (g : State) (p : Principal)
      (id name command_id raw : String) (payload : Value) (t : Task) (xs : List Call)
      → let first = send a (s, g) p id name command_id payload in
        first.1.answer ≡ ok raw
        → first.1.ran ≡ true
        → (Tasks.get b.found s' p id).1 ≡ ok t
        → is_refused t name ≡ false
        → ((send b (s', after_calls G first.0.1 xs) p id name command_id payload).1
            ≡ record { answer = ok raw; checked = false; ran = false })
          ⊎ ((ys zs : List Call) × (xs ≡ ys ++ zs)
              × Dropped (after_calls G first.0.1 ys) (command_key p id command_id))
  unfolding update_checked
  update_checked-replayed a b s s' g p id name command_id raw payload t xs h k found open_ =
      let first = send a (s, g) p id name command_id payload in
      let key = command_key p id command_id in
      let hash = request_hash name payload in
      let (granted, done, left) =
        after_get-Completed a (Tasks.get a.found s p id) g p id name command_id raw payload h k in
      elim (completed-replay g key hash a.owner b.owner raw command_lease a.claimed_at
        a.completed_at b.claimed_at xs granted done) [
          | inl stored ↦ inl (
              after_get-stored b (Tasks.get b.found s' p id) (after_calls G first.0.1 xs) p id name
                command_id raw payload t found open_
                (subst
                  (λ g'.
                    (claim_of b (after_calls G g' xs) p id name command_id payload).1
                    ≡ ok (some raw))
                  (sym left) stored))
          | inr (ys, zs, split, lost) ↦
              inr (ys, zs, split, subst (λ g'. Dropped (after_calls G g' ys) key) (sym left) lost)
        ]
