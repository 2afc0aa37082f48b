-- ===== src/Witnesses/Commands.antt =====
-- Runs of the command ledger.
use orbit_control.Prelude.{
  ◌≡◌, ne_of_str_eq, refl, ◌⊎◌, none, some, List, [], ◌∷◌, ◌++◌, lookup, arith,
}
use orbit_control.Lru.{Lru, newest_first}
use orbit_control.Ledger.{
  MemoryEntry, succeeded, claimed, in_progress, command_lease, claim_command, complete_command,
  release_command,
}
use orbit_control.Ledger.Claims.{taken_over}
use orbit_control.Ledger.Exclusive.{claim_exclusive}
use orbit_control.Ledger.Traces.{Call, claim, complete, release, calls, response_stands}

abbrev ledger : Lru MemoryEntry
ledger = newest_first 7

open ledger use {Cache, peek}

abbrev entry : MemoryEntry
entry = record { hash = "h1"; status = succeeded; owner = "a"; seen = 9; result = "done" }

abbrev filled : Cache
filled = ("t1/c1", entry) ∷ []

first_claim : (claim_command ledger [] "t1/c1" "h1" "a" command_lease 5).1 ≡ claimed
unfolding claim_command lookup
first_claim = refl

abbrev rivals : List Call
rivals = claim "t1/c1" "h1" "b" command_lease 50 ∷ release "t1/c1" "b" ∷ []

claim_exclusive_example :
    let held = (claim_command ledger [] "t1/c1" "h1" "a" command_lease 5).0 in
    ((claim_command ledger (calls ledger held rivals) "t1/c1" "h1" "b" command_lease 100).1
      ≡ in_progress)
    ⊎ ((ys zs : List Call) × (rivals ≡ ys ++ zs) × (peek (calls ledger held ys) "t1/c1" ≡ none))
claim_exclusive_example =
    claim_exclusive ledger [] "t1/c1" "h1" "a" "b" command_lease 5 100 rivals first_claim
      (ne_of_str_eq "a" "" refl) (λ e. omega arith, (λ e. ne_of_str_eq "b" "a" refl, tt))
      (omega arith)

taken_over_example :
    let mine = (claim_command ledger [] "t1/c1" "h1" "a" command_lease 5).0 in
    let theirs = claim_command ledger mine "t1/c1" "h1" "b" command_lease 30000000005 in
    (theirs.1 ≡ claimed)
    × (peek (complete_command ledger theirs.0 "t1/c1" "a" "late" 30000000009) "t1/c1"
        ≡ peek theirs.0 "t1/c1")
    × (peek (release_command ledger theirs.0 "t1/c1" "a") "t1/c1" ≡ peek theirs.0 "t1/c1")
taken_over_example =
    taken_over ledger [] "t1/c1" "h1" "a" "b" "late" command_lease 5 30000000005 30000000009
      first_claim (ne_of_str_eq "a" "b" refl) (omega arith)

there : peek filled "t1/c1" ≡ some entry
unfolding lookup
there = refl

abbrev later_calls : List Call
later_calls =
    claim "t1/c2" "h3" "b" command_lease 10
    ∷ complete "t1/c1" "b" "other" 11
    ∷ release "t1/c1" "a"
    ∷ []

response_stands_example :
    (peek (calls ledger filled later_calls) "t1/c1" ≡ some entry)
    ⊎ ((ys zs : List Call) × (later_calls ≡ ys ++ zs)
        × (peek (calls ledger filled ys) "t1/c1" ≡ none))
response_stands_example = response_stands ledger later_calls filled "t1/c1" entry there refl
