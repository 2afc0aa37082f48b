-- ===== src/Ledger/Interface.antt =====
-- internal/task/command_ledger.go: the interface `CommandLedger`, that the ledger in memory and the
-- durable store implement, with what its comments promise as laws.
use orbit_control.Prelude.{
  ℕ, String, ◌≡◌, refl, ap, ◌∙◌, ◌⊎◌, inl, inr, Option, none, some, List, [], ◌∷◌, ◌++◌, arith,
}
use orbit_control.Outcome.{idempotency_conflict, command_in_progress, Result, ok, err}
use orbit_control.Lru.{Lru}
use orbit_control.Ledger
use orbit_control.Ledger.{MemoryEntry, Claim, claimed, conflict, in_progress, replay}
use orbit_control.Ledger.Claims.{
  claim_command-peek, claim_of_succeeded, complete_of_owner, release_reopens,
}
use orbit_control.Ledger.Traces.{Call, claim, complete, release, call, calls, response_stands}

-- What any calls make of a ledger's state, whoever makes them.
module _ {State : Type 0} (claims : State → String → String → String → ℕ → ℕ → State)
    (completes : State → String → String → String → ℕ → State)
    (releases : State → String → String → State) where
  pub act : State → Call → State
  act s (claim key hash owner lease now) = claims s key hash owner lease now
  act s (complete key owner response now) = completes s key owner response now
  act s (release key owner) = releases s key owner

  pub acts : State → List Call → State
  unfolding act
  acts s [] = s
  acts s (x ∷ xs) = acts (act s x) xs

-- `claim_command` answers `none` where the caller must run the command. The time of a call is what
-- the implementation's clock reads in it. The error of a release is ignored by its one caller.
-- `Dropped` says that the ledger keeps nothing of a command: a bounded one may drop it, the durable
-- one does not.
pub record CommandLedger : Type 1 where
  pub State : Type 0
  pub claim_command :
      State → (key hash owner : String) → (lease now : ℕ) → State × Result (Option String)
  pub complete_command :
      State → (key owner response : String) → (now : ℕ) → State × Result (Unit {0})
  pub release_command : State → (key owner : String) → State
  pub Dropped : State → String → Type 0
  pub completed-replay :
      (s : State) (key hash owner other response : String) (lease now done later : ℕ)
      (xs : List Call)
      → (claim_command s key hash owner lease now).1 ≡ ok none
      → (complete_command (claim_command s key hash owner lease now).0 key owner response done).1
        ≡ ok tt
      → let kept =
          (complete_command
            (claim_command s key hash owner lease now).0
            key
            owner
            response
            done).0 in
        let after = λ (zs : List Call).
          acts
            (λ g k h o l n. (claim_command g k h o l n).0)
            (λ g k o r n. (complete_command g k o r n).0)
            release_command
            kept
            zs in
        ((claim_command (after xs) key hash other lease later).1 ≡ ok (some response))
        ⊎ ((ys zs : List Call) × (xs ≡ ys ++ zs) × Dropped (after ys) key)
  pub released-claim :
      (s : State) (key hash owner other : String) (lease now later : ℕ)
      → (claim_command s key hash owner lease now).1 ≡ ok none
      → (claim_command
          (release_command (claim_command s key hash owner lease now).0 key owner)
          key
          hash
          other
          lease
          later).1
        ≡ ok none

pub answer_of : Claim → Result (Option String)
answer_of claimed = ok none
answer_of conflict = err idempotency_conflict
answer_of in_progress = err command_in_progress
answer_of (replay response) = ok (some response)

pub claimed_of : (a : Claim) → answer_of a ≡ ok none → a ≡ claimed
unfolding answer_of
claimed_of claimed h = refl
claimed_of conflict h = ground arith
claimed_of in_progress h = ground arith
claimed_of (replay r) h = ground arith

-- A ledger's state after any calls of its interface, be they made by requests that run at the same
-- time or later, by this process or another.
module _ (G : CommandLedger) where
  open G use {State, claim_command, complete_command, release_command}

  abbrev pub after_calls : State → List Call → State
  after_calls =
      acts (λ g k h o l n. (claim_command g k h o l n).0)
        (λ g k o r n. (complete_command g k o r n).0) release_command

module _ (L : Lru MemoryEntry) where
  open L use {Cache, peek}

  pub acts_calls :
      (xs : List Call) (c : Cache)
      → acts
          (λ g k h o l n. (Ledger.claim_command L g k h o l n).0)
          (Ledger.complete_command L)
          (Ledger.release_command L)
          c
          xs
        ≡ calls L c xs
  unfolding acts act calls call
  acts_calls [] c = refl
  acts_calls (claim key hash owner lease now ∷ xs) c = acts_calls xs _
  acts_calls (complete key owner response now ∷ xs) c = acts_calls xs _
  acts_calls (release key owner ∷ xs) c = acts_calls xs _

  -- A response that was stored answers every claim for the same request after any calls, unless the
  -- cache dropped it on the way.
  pub replay_stands :
      (c : Cache) (key hash owner other response : String) (lease now done later : ℕ)
      (xs : List Call)
      → (Ledger.claim_command L c key hash owner lease now).1 ≡ claimed
      → let kept =
          Ledger.complete_command L
            (Ledger.claim_command L c key hash owner lease now).0
            key
            owner
            response
            done in
        ((Ledger.claim_command L (calls L kept xs) key hash other lease later).1 ≡ replay response)
        ⊎ ((ys zs : List Call) × (xs ≡ ys ++ zs) × (peek (calls L kept ys) key ≡ none))
  replay_stands c key hash owner other response lease now done later xs h =
      let (r, p) = claim_command-peek L c key hash owner lease now h in
      let q = complete_of_owner L _ key owner response done p refl refl in
      elim (response_stands L xs _ key _ q refl) [
        | inl e ↦ inl (claim_of_succeeded L _ key hash other lease later e refl refl)
        | inr lost ↦ inr lost
      ]

-- newMemoryLedger
unfoldable pub memory_ledger : Lru MemoryEntry → CommandLedger
unfolding answer_of
memory_ledger L = record {
  State = L.Cache;
  claim_command = λ c key hash owner lease now.
      let (c', a) = Ledger.claim_command L c key hash owner lease now in (c', answer_of a);
  complete_command =
      λ c key owner response now. (Ledger.complete_command L c key owner response now, ok tt);
  release_command = Ledger.release_command L;
  Dropped = λ c key. L.peek c key ≡ none;
  completed-replay = λ c key hash owner other response lease now done later xs h done_ok.
      elim (replay_stands L c key hash owner other response lease now done later xs
        (claimed_of _ h)) [
          | inl e ↦ inl (
              ap answer_of (
                ap (λ g. (Ledger.claim_command L g key hash other lease later).1)
                  (acts_calls L xs _)
                ∙ e))
          | inr (ys, zs, split, lost) ↦
              inr (ys, zs, split, ap (λ g. L.peek g key) (acts_calls L ys _) ∙ lost)
        ];
  released-claim = λ c key hash owner other lease now later h.
      rw (release_reopens L c key hash owner other lease now later (claimed_of _ h)) refl;
}
