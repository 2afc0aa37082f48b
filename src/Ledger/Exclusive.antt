-- ===== src/Ledger/Exclusive.antt =====
-- What a granted claim is worth while its lease runs.
use orbit_control.Prelude.{
  ℕ, ◌+◌, ◌<◌, String, ◌≡◌, refl, ap, ◌≢◌, ◌⊎◌, inl, inr, List, [], ◌∷◌, ◌++◌, All, none, some,
  arith, eq_iff, Option-cases,
}
use orbit_control.Lru.{Lru}
use orbit_control.Ledger.{
  started, succeeded, MemoryEntry, claimed, in_progress, claim_command, complete_command,
  release_command,
}
use orbit_control.Ledger.Claims.{claim_command-peek, claim_of_live}
use orbit_control.Ledger.Traces.{Call, claim, complete, release, call, calls}

-- A call that can come between: a claim of the command, by whomever, is made before its lease has
-- passed since the claim that was granted, and others than the owner complete or release it. Calls on
-- other commands are free.
abbrev pub Rival : String → String → ℕ → Call → Type 0
Rival k owner since (claim key hash other lease now) = key ≡ k → now < since + lease
Rival k owner since (complete key other response now) = key ≡ k → other ≢ owner
Rival k owner since (release key other) = key ≡ k → other ≢ owner

module _ (L : Lru MemoryEntry) where
  open L use {Cache, peek, touch, add, peek-touch, peek-add_self, peek-add_ne}

  abbrev Held : Cache → String → MemoryEntry → Type 0
  Held c k e = (peek c k ≡ some e) ⊎ (peek c k ≡ none)

  call-Held :
      (x : Call) (c : Cache) (k : String) (e : MemoryEntry)
      → peek c k ≡ some e
      → e.status ≡ started
      → e.owner ≢ ""
      → Rival k e.owner e.seen x
      → Held (call L c x) k e
  unfolding call claim_command complete_command release_command
  call-Held (claim key hash other lease now) c k e p s o r = elim (Option-cases (peek c key)) [
    | inl q ↦ ground (
      arith,
      eq_iff key k,
      peek-add_ne (touch c key) key k
          (record { hash = hash; status = started; owner = other; seen = now; result = "" }),
      peek-touch c key k,
    )
    | inr (f, q) ↦ ground (
      arith,
      eq_iff key k,
      eq_iff e.owner "",
      peek-touch c key k,
      peek-add_ne (touch c key) key k (record f { owner = other; seen = now }),
    )
  ]
  call-Held (complete key other response now) c k e p s o r = elim (Option-cases (peek c key)) [
    | inl q ↦ ground (arith, peek-touch c key k)
    | inr (f, q) ↦ ground (
      arith,
      eq_iff key k,
      eq_iff f.owner other,
      peek-touch c key k,
      peek-add_ne (touch c key) key k
          (record f { status = succeeded; seen = now; result = response }),
    )
  ]
  call-Held (release key other) c k e p s o r = elim (Option-cases (peek c key)) [
    | inl q ↦ ground (arith, peek-touch c key k)
    | inr (f, q) ↦ ground (
      arith,
      eq_iff key k,
      eq_iff f.owner other,
      peek-touch c key k,
      peek-add_ne (touch c key) key k (record f { owner = "" }),
    )
  ]

  held_through :
      (xs : List Call) (c : Cache) (k : String) (e : MemoryEntry)
      → peek c k ≡ some e
      → e.status ≡ started
      → e.owner ≢ ""
      → All (Rival k e.owner e.seen) xs
      → (peek (calls L c xs) k ≡ some e)
        ⊎ ((ys zs : List Call) × (xs ≡ ys ++ zs) × (peek (calls L c ys) k ≡ none))
  unfolding calls
  held_through [] c k e p s o r = inl p
  held_through (x ∷ xs) c k e p s o (r, rs) = elim (call-Held x c k e p s o r) [
    | inl q ↦ elim (held_through xs (call L c x) k e q s o rs) [
      | inl h ↦ inl h
      | inr (ys, zs, split, lost) ↦ inr (x ∷ ys, zs, ap (λ l. x ∷ l) split, lost)
    ]
    | inr q ↦ inr (x ∷ [], xs, refl, q)
  ]

  -- After a claim is granted to an owner with a name, claims of the command for the same request, by
  -- whatever owners, are answered that it is in progress until the lease has passed, however many
  -- calls come between: other claims of it before that time, calls of others to complete or release
  -- it, and any calls on other commands. The one way out is that the cache dropped the entry.
  pub claim_exclusive :
      (c : Cache) (key hash owner other : String) (lease now later : ℕ) (xs : List Call)
      → (claim_command L c key hash owner lease now).1 ≡ claimed
      → owner ≢ ""
      → All (Rival key owner now) xs
      → later < now + lease
      → let held = (claim_command L c key hash owner lease now).0 in
        ((claim_command L (calls L held xs) key hash other lease later).1 ≡ in_progress)
        ⊎ ((ys zs : List Call) × (xs ≡ ys ++ zs) × (peek (calls L held ys) key ≡ none))
  claim_exclusive c key hash owner other lease now later xs h o rivals t =
      let (r, p) = claim_command-peek L c key hash owner lease now h in
      elim (held_through xs _ key _ p refl o rivals) [
        | inl q ↦ inl (claim_of_live L _ key hash other lease later q refl refl o t)
        | inr lost ↦ inr lost
      ]
