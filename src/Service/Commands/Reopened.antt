-- ===== src/Service/Commands/Reopened.antt =====
-- A command that failed can be sent again.
use mathlib.Core.Path.{subst}
use orbit_control.Prelude.{ℕ, String, true, false, ◌≡◌, ◌≢◌, refl, sym, Option, none, some, arith}
use orbit_control.Outcome.{Error, Result, ok, err}
use orbit_control.Lru.{Lru}
use orbit_control.Value.{Value, Fields}
use orbit_control.Ledger.{command_lease}
use orbit_control.Ledger.Interface.{CommandLedger}
use orbit_control.Service.{Principal, Task, Service}
use orbit_control.Service.Tasks
use orbit_control.Service.Configs.{ConfigUpdateResult}
use orbit_control.Service.Commands.Retried.{send, claim_of, is_refused_same}
use orbit_control.Service.Commands.{
  Answers, command_key, is_refused, run_update, after_run, after_claim, completed, update_checked,
  after_get, with_check, checked_run,
}

module _ (L : Lru (Unit {0})) (time_of : Value → Option ℕ) (decode : String → Option Fields)
    (encode : ConfigUpdateResult → String) (G : CommandLedger)
    (request_hash : String → Value → String) where
  open L use {Cache}
  open G use {State, claim_command, complete_command, release_command, released-claim}

  completed-stored :
      (s : Service Cache) (done : State × Result (Unit {0})) (key owner raw : String) (x : Error)
      → done.1 ≡ ok tt
      → (completed L time_of decode encode G request_hash s done key owner raw).1.answer ≢ err x
  unfolding completed
  completed-stored s (g, err y) key owner raw x h = ground arith
  completed-stored s (g, ok tt) key owner raw x h = ground arith

  checked_run-err :
      (check : Option (Result (Unit {0}))) (a : Answers) (s : Service Cache)
      (ran : Service Cache × Result String) (g : State) (key : String) (x : Error)
      → ((raw : String) → (complete_command g key a.owner raw a.completed_at).1 ≡ ok tt)
      → let r = checked_run L time_of decode encode G request_hash check a s ran g key in
        r.1.answer ≡ err x → r.0.1 ≡ release_command g key a.owner
  unfolding checked_run with_check after_run
  checked_run-err none a s (s', err y) g key x stores h = refl
  checked_run-err none a s (s', ok raw) g key x stores h = absurd (
      completed-stored s' (complete_command g key a.owner raw a.completed_at) key a.owner raw x
        (stores raw) h)
  checked_run-err (some (err y)) a s ran g key x stores h = refl
  checked_run-err (some (ok tt)) a s (s', err y) g key x stores h = refl
  checked_run-err (some (ok tt)) a s (s', ok raw) g key x stores h = absurd (
      completed-stored s' (complete_command g key a.owner raw a.completed_at) key a.owner raw x
        (stores raw) h)

  after_claim-err :
      (a : Answers) (s : Service Cache) (claim : State × Result (Option String))
      (key id name : String) (payload : Value) (x : Error)
      → claim.1 ≡ ok none
      → ((raw : String) → (complete_command claim.0 key a.owner raw a.completed_at).1 ≡ ok tt)
      → let r = after_claim L time_of decode encode G request_hash a s claim key id name payload in
        r.1.answer ≡ err x → r.0.1 ≡ release_command claim.0 key a.owner
  unfolding after_claim
  after_claim-err a s (g, err y) key id name payload x h stores k = ground arith
  after_claim-err a s (g, ok (some raw)) key id name payload x h stores k = ground arith
  after_claim-err a s (g, ok none) key id name payload x h stores k =
      checked_run-err a.check a s (run_update L time_of decode encode a s id name payload) g key x
        stores k

  after_run-ran :
      (b : Answers) (ran : Service Cache × Result String) (g : State) (key : String)
      → (after_run L time_of decode encode G request_hash b ran g key).1.ran ≡ true
  unfolding after_run completed
  after_run-ran b (s, err x) g key = refl
  after_run-ran b (s, ok raw) g key = ground arith

  checked_run-ran :
      (check : Option (Result (Unit {0}))) (b : Answers) (s : Service Cache)
      (ran : Service Cache × Result String) (g : State) (key : String)
      → ((y : Error) → check ≢ some (err y))
      → (checked_run L time_of decode encode G request_hash check b s ran g key).1.ran ≡ true
  unfolding checked_run with_check
  checked_run-ran none b s ran g key passes = after_run-ran b ran g key
  checked_run-ran (some (err x)) b s ran g key passes = absurd (passes x refl)
  checked_run-ran (some (ok tt)) b s ran g key passes = after_run-ran b ran g key

  after_claim-granted :
      (b : Answers) (s : Service Cache) (claim : State × Result (Option String))
      (key id name : String) (payload : Value)
      → claim.1 ≡ ok none
      → ((y : Error) → b.check ≢ some (err y))
      → (after_claim L time_of decode encode G request_hash b s claim key id name payload).1.ran
        ≡ true
  unfolding after_claim
  after_claim-granted b s (g, err x) key id name payload h passes = ground arith
  after_claim-granted b s (g, ok (some raw)) key id name payload h passes = ground arith
  after_claim-granted b s (g, ok none) key id name payload h passes =
      checked_run-ran b.check b s (run_update L time_of decode encode b s id name payload) g key
        passes

  -- a task that is found and takes the command
  abbrev pub Takes : Service Cache × Result Task → String → Type 0
  Takes got name = (t : Task) × (got.1 ≡ ok t) × (is_refused t name ≡ false)

  after_get-claim :
      (a : Answers) (got : Service Cache × Result Task) (g : State) (p : Principal)
      (id name command_id : String) (payload : Value)
      → Takes got name
      → after_get L time_of decode encode G request_hash a got g p id name command_id payload
        ≡ after_claim L time_of decode encode G request_hash a got.0
            (claim_of L time_of decode encode G request_hash a g p id name command_id payload)
            (command_key p id command_id)
            id
            name
            payload
  unfolding after_get
  after_get-claim a (s, err x) g p id name command_id payload (t, found, open_) = ground arith
  after_get-claim a (s, ok u) g p id name command_id payload (t, found, open_) =
      rw (is_refused_same u t name (ground arith) open_) refl

  -- A command that was claimed and then ended in an error, be it that its check refused it or that
  -- the workflow did, runs when it is sent again: at any time, for any request that sends it, whose
  -- check passes. The task is found both times and is not closed to the command, and the ledger does
  -- not fail to store a response.
  pub update_checked-retried :
      (a b : Answers) (s : Service Cache) (g : State) (p : Principal) (id name command_id : String)
      (payload : Value) (x : Error)
      → let first =
          send L time_of decode encode G request_hash a (s, g) p id name command_id payload in
        let claim =
          claim_of L time_of decode encode G request_hash a g p id name command_id payload in
        Takes (Tasks.get a.found s p id) name
        → claim.1 ≡ ok none
        → ((raw : String)
            → (complete_command claim.0 (command_key p id command_id) a.owner raw a.completed_at).1
              ≡ ok tt)
        → first.1.answer ≡ err x
        → Takes (Tasks.get b.found first.0.0 p id) name
        → ((y : Error) → b.check ≢ some (err y))
        → (send L time_of decode encode G request_hash b first.0 p id name command_id payload).1.ran
          ≡ true
  unfolding update_checked
  update_checked-retried a b s g p id name command_id payload x takes granted stores failed again
        passes =
      let key = command_key p id command_id in
      let hash = request_hash name payload in
      let claim =
        claim_of L time_of decode encode G request_hash a g p id name command_id payload in
      let got = Tasks.get a.found s p id in
      let first =
        send L time_of decode encode G request_hash a (s, g) p id name command_id payload in
      let left =
        subst (λ r. r.1.answer ≡ err x → r.0.1 ≡ release_command claim.0 key a.owner)
          (sym (after_get-claim a got g p id name command_id payload takes))
          (after_claim-err a got.0 claim key id name payload x granted stores) failed in
      let reopened =
        subst
          (λ g'.
            (claim_of L time_of decode encode G request_hash b g' p id name command_id payload).1
            ≡ ok none)
          (sym left)
          (released-claim g key hash a.owner b.owner command_lease a.claimed_at b.claimed_at
            granted) in
      subst (λ r. r.1.ran ≡ true)
        (sym (
          after_get-claim b (Tasks.get b.found first.0.0 p id) first.0.1 p id name command_id
            payload again))
        (after_claim-granted b _ _ key id name payload reopened passes)
