-- ===== src/Witnesses/Requests.antt =====
-- Runs of commands sent to a task.
use orbit_control.Prelude.{
  ℕ, String, true, false, ◌≡◌, refl, none, some, Option, List, [], ◌∷◌, ◌⊎◌, ◌++◌, lookup, arith,
}
use orbit_control.Outcome.{storage, ok, err}
use orbit_control.Lru.{Lru, newest_first}
use orbit_control.Value.{Value, object, field, text, end, Fields}
use orbit_control.Ledger.{MemoryEntry, started, claim_command}
use orbit_control.Ledger.Interface.{CommandLedger, memory_ledger, after_calls}
use orbit_control.Ledger.Traces.{Call, claim, complete, calls}
use orbit_control.Ledger.Spec.{Runs, slot_of, answers_of, answers_of-Runs}
use orbit_control.Service.{is_closed}
use orbit_control.Service.Tasks
use orbit_control.Service.Configs.{ConfigUpdateResult}
use orbit_control.Service.Commands.{
  Answers, Done, Server, command_key, update_checked, is_refused, run_update,
}
use orbit_control.Service.Commands.Retried.{claim_of, send, update_checked-replayed}
use orbit_control.Service.Commands.Reopened.{update_checked-retried}
use orbit_control.Witnesses.Samples.{seen, no_time, alice, task, service}

abbrev ledger : Lru MemoryEntry
ledger = newest_first 7

open ledger use {Cache, peek}

abbrev entry : MemoryEntry
entry = record { hash = "h1"; status = started; owner = "a"; seen = 9; result = "" }

abbrev two_calls : List Call
two_calls = complete "t1/c1" "a" "done" 10 ∷ claim "t1/c1" "h1" "b" 30 11 ∷ []

answers_of-Runs_example :
    Runs "t1/c1"
      (slot_of (peek (("t1/c1", entry) ∷ []) "t1/c1"))
      two_calls
      (answers_of ledger (("t1/c1", entry) ∷ []) "t1/c1" two_calls)
      (slot_of (peek (calls ledger (("t1/c1", entry) ∷ []) two_calls) "t1/c1"))
answers_of-Runs_example = answers_of-Runs ledger two_calls (("t1/c1", entry) ∷ []) "t1/c1"

abbrev decode : String → Option Fields
decode raw = none

abbrev encode : ConfigUpdateResult → String
encode r = r.effective

abbrev request_hash : String → Value → String
request_hash name payload = name

abbrev answers : Answers
answers = record {
  found = none;
  owner = "s1";
  claimed_at = 5;
  check = none;
  updated = some (ok "{}");
  append = none;
  applied_at = 6;
  completed_at = 7;
}

abbrev again : Answers
again = record answers { owner = "s2"; claimed_at = 20 }

abbrev failing : Answers
failing = record answers { updated = some (err storage) }

abbrev pausing : Value
pausing = object (field "action" (text "pause") end)

abbrev server : CommandLedger
server = memory_ledger ledger

no_commands : server.State
unfolding memory_ledger
no_commands = []

abbrev sent : Answers → Server seen no_time decode encode server request_hash × Done
sent a =
    send seen no_time decode encode server request_hash a (service, no_commands) alice "t1"
      "control" "c1" pausing

answered : (sent answers).1.answer ≡ ok "{}"
unfolding update_checked memory_ledger no_commands Tasks.get lookup Tasks.owned_by is_closed
    Tasks.clone_task claim_command run_update
answered = refl

ran : (sent answers).1.ran ≡ true
unfolding update_checked memory_ledger no_commands Tasks.get lookup Tasks.owned_by is_closed
    Tasks.clone_task claim_command run_update
ran = refl

open_ : is_refused (Tasks.clone_task task) "control" ≡ false
unfolding is_refused is_closed Tasks.clone_task
open_ = refl

found_first : (Tasks.get none service alice "t1").1 ≡ ok (Tasks.clone_task task)
unfolding Tasks.get lookup Tasks.owned_by Tasks.clone_task
found_first = refl

abbrev meanwhile : List Call
meanwhile = claim "a/t1/c1" "control" "s3" 30 8 ∷ claim "a/t1/c2" "control" "s3" 30 9 ∷ []

update_checked-replayed_example :
    ((send seen no_time decode encode server request_hash again
        (service, after_calls server (sent answers).0.1 meanwhile)
        alice
        "t1"
        "control"
        "c1"
        pausing).1
      ≡ record { answer = ok "{}"; checked = false; ran = false })
    ⊎ ((ys zs : List Call) × (meanwhile ≡ ys ++ zs)
        × server.Dropped (after_calls server (sent answers).0.1 ys) (command_key alice "t1" "c1"))
update_checked-replayed_example =
    update_checked-replayed seen no_time decode encode server request_hash answers again service
      service no_commands alice "t1" "control" "c1" "{}" pausing (Tasks.clone_task task) meanwhile
      answered ran found_first open_

refused_update : (sent failing).1.answer ≡ err storage
unfolding update_checked memory_ledger no_commands Tasks.get lookup Tasks.owned_by is_closed
    Tasks.clone_task claim_command run_update
refused_update = refl

claimed_once :
    (claim_of seen no_time decode encode server request_hash failing no_commands alice "t1"
      "control" "c1" pausing).1
    ≡ ok none
unfolding memory_ledger no_commands claim_command lookup
claimed_once = refl

found_later : (Tasks.get none (sent failing).0.0 alice "t1").1 ≡ ok (Tasks.clone_task task)
unfolding update_checked memory_ledger no_commands Tasks.get lookup Tasks.owned_by is_closed
    Tasks.clone_task claim_command run_update
found_later = refl

stores :
    (g : server.State) (key owner raw : String) (now : ℕ)
    → (server.complete_command g key owner raw now).1 ≡ ok tt
unfolding memory_ledger
stores g key owner raw now = refl

update_checked-retried_example :
    (send seen no_time decode encode server request_hash again
      (sent failing).0
      alice
      "t1"
      "control"
      "c1"
      pausing).1.ran
    ≡ true
update_checked-retried_example =
    update_checked-retried seen no_time decode encode server request_hash failing again service
      no_commands alice "t1" "control" "c1" pausing storage
      (Tasks.clone_task task, found_first, open_) claimed_once (λ raw. stores _ _ _ raw _)
      refused_update (Tasks.clone_task task, found_later, open_) (λ y h. ground arith)
