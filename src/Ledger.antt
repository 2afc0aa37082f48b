-- ===== src/Ledger.antt =====
-- internal/task/command_ledger.go: the idempotency record of API commands kept in memory.
-- The cache is a parameter; each method runs under the ledger's mutex, so it is one step, and
-- `now` is what the ledger's clock answers.
pub mod Claims
pub mod Exclusive
pub mod Traces
pub mod Spec
pub mod Interface
use orbit_control.Prelude.{
  ℕ, ◌+◌, ◌*◌, ◌^◌, String, Bool, true, false, not, ◌&&◌, ◌||◌, Option, none, some, ltb, str_eq,
  if◌then◌else◌,
}
use orbit_control.Outcome.{Error, not_found}
use orbit_control.Lru.{Lru}

pub data Status : Type 0 where
  started succeeded : Status

abbrev pub is_started : Status → Bool
is_started started = true
is_started succeeded = false

pub record MemoryEntry : Type 0 where
  pub hash : String
  pub status : Status
  pub owner : String
  pub seen : ℕ
  pub result : String

-- commandLease, in nanoseconds
abbrev pub command_lease : ℕ
command_lease = 30000000000

abbrev pub command_ledger_limit : ℕ
command_ledger_limit = 4096

-- What `ClaimCommand` answers: the caller runs the command, the stored response, or an error.
pub data Claim : Type 0 where
  claimed conflict in_progress : Claim
  replay : String → Claim

module _ (L : Lru MemoryEntry) where
  open L use {Cache, peek, touch, add}

  -- `status` and `owner` decide for an entry with the same hash.
  claim_entry : MemoryEntry → Status → Cache → String → String → ℕ → ℕ → Cache × Claim
  claim_entry e succeeded c key owner lease now = (c, replay e.result)
  claim_entry e started c key owner lease now =
      if not (str_eq e.owner "") && ltb now (e.seen + lease)
      then (c, in_progress)
      else (add c key (record e { owner = owner; seen = now }), claimed)

  claim_found : Option MemoryEntry → Cache → String → String → String → ℕ → ℕ → Cache × Claim
  unfolding claim_entry
  claim_found none c key hash owner lease now = (
    add c key (record { hash = hash; status = started; owner = owner; seen = now; result = "" }),
    claimed,
  )
  claim_found (some e) c key hash owner lease now =
      if not (str_eq e.hash hash)
      then (c, conflict)
      else claim_entry e e.status c key owner lease now

  unfoldable pub claim_command : Cache → String → String → String → ℕ → ℕ → Cache × Claim
  unfolding claim_found
  claim_command c key hash owner lease now =
      claim_found (peek c key) (touch c key) key hash owner lease now

  held_by : MemoryEntry → String → Bool
  held_by e owner = is_started e.status && str_eq e.owner owner

  complete_found : Option MemoryEntry → Cache → String → String → String → ℕ → Cache
  unfolding held_by
  complete_found none c key owner result now = c
  complete_found (some e) c key owner result now =
      if held_by e owner
      then add c key (record e { status = succeeded; seen = now; result = result })
      else c

  pub complete_command : Cache → String → String → String → ℕ → Cache
  unfolding complete_found
  complete_command c key owner result now =
      complete_found (peek c key) (touch c key) key owner result now

  release_found : Option MemoryEntry → Cache → String → String → Cache
  unfolding held_by
  release_found none c key owner = c
  release_found (some e) c key owner =
      if held_by e owner then add c key (record e { owner = "" }) else c

  pub release_command : Cache → String → String → Cache
  unfolding release_found
  release_command c key owner = release_found (peek c key) (touch c key) key owner
