-- ===== src/Ledger/Traces.antt =====
-- What a stored response goes through under any sequence of calls.
use orbit_control.Prelude.{
  ℕ, String, ◌≡◌, refl, ◌⊎◌, inl, inr, List, [], ◌∷◌, ◌++◌, none, some, arith, eq_iff, Option-cases,
  ap,
}
use orbit_control.Lru.{Lru}
use orbit_control.Ledger.{
  started, succeeded, MemoryEntry, claim_command, complete_command, release_command,
}

-- One call of the ledger's interface, with its arguments and the time at which it runs.
pub data Call : Type 0 where
  claim : (key hash owner : String) (lease now : ℕ) → Call
  complete : (key owner response : String) (now : ℕ) → Call
  release : (key owner : String) → Call

module _ (L : Lru MemoryEntry) where
  open L use {Cache, peek, touch, add, peek-touch, peek-add_self, peek-add_ne}

  unfoldable pub call : Cache → Call → Cache
  call c (claim key hash owner lease now) = (claim_command L c key hash owner lease now).0
  call c (complete key owner response now) = complete_command L c key owner response now
  call c (release key owner) = release_command L c key owner

  unfoldable pub calls : Cache → List Call → Cache
  calls c [] = c
  calls c (x ∷ xs) = calls (call c x) xs

  -- the entry stands, or the cache has dropped it
  abbrev Kept : Cache → String → MemoryEntry → Type 0
  Kept c k e = (peek c k ≡ some e) ⊎ (peek c k ≡ none)

  claim-Kept :
      (c : Cache) (k : String) (e : MemoryEntry) (key hash owner : String) (lease now : ℕ)
      → peek c k ≡ some e
      → e.status ≡ succeeded
      → Kept (claim_command L c key hash owner lease now).0 k e
  unfolding claim_command
  claim-Kept c k e key hash owner lease now p s = elim (Option-cases (peek c key)) [
    | inl q ↦ ground (
      arith,
      eq_iff key k,
      peek-add_ne (touch c key) key k
          (record { hash = hash; status = started; owner = owner; seen = now; result = "" }),
      peek-touch c key k,
    )
    | inr (f, q) ↦ ground (
      arith,
      eq_iff key k,
      peek-touch c key k,
      peek-add_ne (touch c key) key k (record f { owner = owner; seen = now }),
    )
  ]

  complete-Kept :
      (c : Cache) (k : String) (e : MemoryEntry) (key owner response : String) (now : ℕ)
      → peek c k ≡ some e
      → e.status ≡ succeeded
      → Kept (complete_command L c key owner response now) k e
  unfolding complete_command
  complete-Kept c k e key owner response now p s = elim (Option-cases (peek c key)) [
    | inl q ↦ ground (arith, peek-touch c key k)
    | inr (f, q) ↦ ground (
      arith,
      eq_iff key k,
      peek-touch c key k,
      peek-add_ne (touch c key) key k
          (record f { status = succeeded; seen = now; result = response }),
    )
  ]

  release-Kept :
      (c : Cache) (k : String) (e : MemoryEntry) (key owner : String)
      → peek c k ≡ some e
      → e.status ≡ succeeded
      → Kept (release_command L c key owner) k e
  unfolding release_command
  release-Kept c k e key owner p s = elim (Option-cases (peek c key)) [
    | inl q ↦ ground (arith, peek-touch c key k)
    | inr (f, q) ↦ ground (
      arith,
      eq_iff key k,
      peek-touch c key k,
      peek-add_ne (touch c key) key k (record f { owner = "" }),
    )
  ]

  call-Kept :
      (c : Cache) (k : String) (e : MemoryEntry) (x : Call)
      → peek c k ≡ some e
      → e.status ≡ succeeded
      → Kept (call c x) k e
  unfolding call
  call-Kept c k e (claim key hash owner lease now) p s =
      claim-Kept c k e key hash owner lease now p s
  call-Kept c k e (complete key owner response now) p s =
      complete-Kept c k e key owner response now p s
  call-Kept c k e (release key owner) p s = release-Kept c k e key owner p s

  -- A stored response, with its hash, stands after any calls of any owners on any keys, unless the
  -- cache dropped its entry on the way.
  pub response_stands :
      (xs : List Call) (c : Cache) (k : String) (e : MemoryEntry)
      → peek c k ≡ some e
      → e.status ≡ succeeded
      → (peek (calls c xs) k ≡ some e)
        ⊎ ((ys zs : List Call) × (xs ≡ ys ++ zs) × (peek (calls c ys) k ≡ none))
  unfolding calls
  response_stands [] c k e p s = inl p
  response_stands (x ∷ xs) c k e p s = elim (call-Kept c k e x p s) [
    | inl q ↦ elim (response_stands xs (call c x) k e q s) [
      | inl r ↦ inl r
      | inr (ys, zs, split, lost) ↦ inr (x ∷ ys, zs, ap (λ l. x ∷ l) split, lost)
    ]
    | inr q ↦ inr (x ∷ [], xs, refl, q)
  ]
