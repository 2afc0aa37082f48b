-- ===== src/Ledger/Spec.antt =====
-- The state machine of one command that the comments of `CommandLedger` describe, and the ledger in
-- memory as an implementation of it.
use orbit_control.Prelude.{
  ℕ, ◌+◌, String, ◌≡◌, refl, sym, ◌≢◌, ne_of_str_eq, ◌⊎◌, inl, inr, List, [], ◌∷◌, Option, none,
  some, arith, eq_iff, Option-cases, ltb, str_eq, if◌then◌else◌, ◌&&◌, not, false,
}
use mathlib.Core.Path.{subst}
use orbit_control.Lru.{Lru}
use orbit_control.Ledger.{
  started, succeeded, is_started, MemoryEntry, Claim, claimed, conflict, in_progress, replay,
  claim_command, complete_command, release_command,
}
use orbit_control.Ledger.Traces.{Call, claim, complete, release, call, calls}

-- What callers can tell about a command: never seen, held by an owner since a time, given up, or
-- answered. Both keep the hash of the request.
pub data Slot : Type 0 where
  absent : Slot
  running : (hash owner : String) (since : ℕ) → Slot
  answered : (hash response : String) → Slot

-- A claim with an empty owner name is one that was given up.
claim_running : String → String → ℕ → String → String → ℕ → ℕ → Slot × Claim
claim_running h o t hash owner lease now =
    if not (str_eq h hash)
    then (running h o t, conflict)
    else (if not (str_eq o "") && ltb now (t + lease)
        then (running h o t, in_progress)
        else (running h owner now, claimed))

claim_answered : String → String → String → Slot × Claim
claim_answered h r hash = (answered h r, if str_eq h hash then replay r else conflict)

claim_slot : Slot → String → String → ℕ → ℕ → Slot × Claim
unfolding claim_running claim_answered
claim_slot absent hash owner lease now = (running hash owner now, claimed)
claim_slot (running h o t) hash owner lease now = claim_running h o t hash owner lease now
claim_slot (answered h r) hash owner lease now = claim_answered h r hash

complete_slot : Slot → String → String → Slot
complete_slot absent owner response = absent
complete_slot (running h o t) owner response =
    if str_eq o owner then answered h response else running h o t
complete_slot (answered h r) owner response = answered h r

release_slot : Slot → String → Slot
release_slot absent owner = absent
release_slot (running h o t) owner = if str_eq o owner then running h "" t else running h o t
release_slot (answered h r) owner = answered h r

-- The command `k` after a call; a call on another key leaves it.
pub next : String → Slot → Call → Slot
unfolding claim_slot complete_slot release_slot
next k s (claim key hash owner lease now) =
    if str_eq key k then (claim_slot s hash owner lease now).0 else s
next k s (complete key owner response now) =
    if str_eq key k then complete_slot s owner response else s
next k s (release key owner) = if str_eq key k then release_slot s owner else s

-- What the call answers about the command `k`, when it is a claim of it.
pub said : String → Slot → Call → Option Claim
unfolding claim_slot
said k s (claim key hash owner lease now) =
    if str_eq key k then some (claim_slot s hash owner lease now).1 else none
said k s (complete key owner response now) = none
said k s (release key owner) = none

-- the command that a call is about
pub key_of : Call → String
key_of (claim key hash owner lease now) = key
key_of (complete key owner response now) = key
key_of (release key owner) = key

-- The runs of the state machine of `k` under calls, with the answers it gives. A bounded store may
-- forget the command in a call about another one, and in no other.
pub data Runs : String → Slot → List Call → List (Option Claim) → Slot → Type 0 where
  stop : {k : String} {s : Slot} → Runs k s [] [] s
  step :
      {k : String} {s t : Slot} {x : Call} {xs : List Call} {answers : List (Option Claim)}
      → Runs k (next k s x) xs answers t
      → Runs k s (x ∷ xs) (said k s x ∷ answers) t
  forget :
      {k : String} {s t : Slot} {x : Call} {xs : List Call} {answers : List (Option Claim)}
      → key_of x ≢ k
      → Runs k absent xs answers t
      → Runs k s (x ∷ xs) (said k s x ∷ answers) t

pub slot_of : Option MemoryEntry → Slot
slot_of none = absent
slot_of (some e) =
    if is_started e.status then running e.hash e.owner e.seen else answered e.hash e.result

module _ (L : Lru MemoryEntry) where
  open L use {Cache, peek, touch, add, peek-touch, peek-add_self, peek-add_ne}

  pub told : Cache → String → Call → Option Claim
  told c k (claim key hash owner lease now) =
      if str_eq key k then some (claim_command L c key hash owner lease now).1 else none
  told c k (complete key owner response now) = none
  told c k (release key owner) = none

  pub answers_of : Cache → String → List Call → List (Option Claim)
  unfolding told
  answers_of c k [] = []
  answers_of c k (x ∷ xs) = told c k x ∷ answers_of (call L c x) k xs

  -- a call on `k` does what the state machine does; one on another key does, or has `k` dropped
  abbrev Simulates : Cache → Cache → String → Call → Type 0
  Simulates c c' k x =
      (slot_of (peek c' k) ≡ next k (slot_of (peek c k)) x)
      ⊎ ((slot_of (peek c' k) ≡ absent) × (str_eq (key_of x) k ≡ false))

  told-said : (c : Cache) (k : String) (x : Call) → told c k x ≡ said k (slot_of (peek c k)) x
  unfolding told said claim_command slot_of claim_slot
  told-said c k (claim key hash owner lease now) = elim (Option-cases (peek c key)) [
    | inl e ↦ ground (arith, eq_iff key k)
    | inr (e, p) ↦ ground (arith, eq_iff key k, eq_iff e.hash hash, eq_iff e.owner "")
  ]
  told-said c k (complete key owner response now) = refl
  told-said c k (release key owner) = refl

  -- an entry of another key survives a call on `key`, or the cache drops it
  next-call : (c : Cache) (k : String) (x : Call) → Simulates c (call L c x) k x
  unfolding next claim_command complete_command release_command slot_of claim_slot complete_slot
      release_slot call key_of
  next-call c k (claim key hash owner lease now) = elim (Option-cases (peek c key)) [
    | inl p ↦ ground (
      arith,
      eq_iff key k,
      peek-touch c key k,
      peek-add_self (touch c key) key
          (record { hash = hash; status = started; owner = owner; seen = now; result = "" }),
      peek-add_ne (touch c key) key k
          (record { hash = hash; status = started; owner = owner; seen = now; result = "" }),
    )
    | inr (e, p) ↦ ground (
      arith,
      eq_iff key k,
      eq_iff e.hash hash,
      peek-touch c key k,
      peek-add_self (touch c key) key (record e { owner = owner; seen = now }),
      peek-add_ne (touch c key) key k (record e { owner = owner; seen = now }),
    )
  ]
  next-call c k (complete key owner response now) = elim (Option-cases (peek c key)) [
    | inl p ↦ ground (arith, eq_iff key k, peek-touch c key k)
    | inr (e, p) ↦ ground (
      arith,
      eq_iff key k,
      eq_iff e.owner owner,
      peek-touch c key k,
      peek-add_self (touch c key) key
          (record e { status = succeeded; seen = now; result = response }),
      peek-add_ne (touch c key) key k
          (record e { status = succeeded; seen = now; result = response }),
    )
  ]
  next-call c k (release key owner) = elim (Option-cases (peek c key)) [
    | inl p ↦ ground (arith, eq_iff key k, peek-touch c key k)
    | inr (e, p) ↦ ground (
      arith,
      eq_iff key k,
      eq_iff e.owner owner,
      peek-touch c key k,
      peek-add_self (touch c key) key (record e { owner = "" }),
      peek-add_ne (touch c key) key k (record e { owner = "" }),
    )
  ]

  -- Under any calls, the ledger in memory answers about every command as the state machine of that
  -- command does in a run from what its entry shows to what its entry shows afterwards; only in a call
  -- about another command may the run forget it, as the cache drops entries to make room.
  pub answers_of-Runs :
      (xs : List Call) (c : Cache) (k : String)
      → Runs k (slot_of (peek c k)) xs (answers_of c k xs) (slot_of (peek (calls L c xs) k))
  unfolding answers_of calls
  answers_of-Runs [] c k = stop
  answers_of-Runs (x ∷ xs) c k =
      let rest = answers_of-Runs xs (call L c x) k in
      let after = λ (s : Slot).
        Runs k s xs (answers_of (call L c x) k xs) (slot_of (peek (calls L (call L c x) xs) k)) in
      subst
        (λ a.
          Runs k (slot_of (peek c k)) (x ∷ xs) (a ∷ answers_of (call L c x) k xs)
            (slot_of (peek (calls L (call L c x) xs) k)))
        (sym (told-said c k x))
        (elim (next-call c k x) [
          | inl same ↦ step (subst after same rest)
          | inr (lost, other) ↦ forget (ne_of_str_eq (key_of x) k other) (subst after lost rest)
        ])
