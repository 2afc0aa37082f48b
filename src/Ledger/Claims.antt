-- ===== src/Ledger/Claims.antt =====
-- What the ledger promises the callers of `UpdateChecked`.
use orbit_control.Prelude.{
  ℕ, ◌+◌, ◌≤◌, ◌<◌, String, ◌≡◌, refl, sym, ◌≢◌, ◌⊎◌, inl, inr, some, arith, eq_iff, Option-cases,
  str_eq_of_ne,
}
use orbit_control.Lru.{Lru}
use orbit_control.Ledger.{
  started, succeeded, MemoryEntry, claimed, conflict, in_progress, replay, claim_found,
  claim_command, complete_command, release_command,
}

module _ (L : Lru MemoryEntry) where
  open L use {Cache, peek, touch, add, peek-touch, peek-add_self, peek-add_ne}

  -- Whatever the cache held, a claim that lets its caller run leaves an entry that the caller owns.
  pub claim_command-peek :
      (c : Cache) (key hash owner : String) (lease now : ℕ)
      → (claim_command L c key hash owner lease now).1 ≡ claimed
      → (r : String) × (peek (claim_command L c key hash owner lease now).0 key
          ≡ some (record { hash = hash; status = started; owner = owner; seen = now; result = r }))
  unfolding claim_command
  claim_command-peek c key hash owner lease now h = elim (Option-cases (peek c key)) [
    | inl e ↦ ("", rw (e, claim_found) (peek-add_self (touch c key) key _))
    | inr (e, p) ↦ (
      e.result,
      ground (
        arith,
        eq_iff e.hash hash,
        peek-add_self (touch c key) key (record e { owner = owner; seen = now }),
      ),
    )
  ]

  module _ (c : Cache) (key hash owner : String) (lease now : ℕ) {e : MemoryEntry}
      (p : peek c key ≡ some e) where
    pub claim_of_live :
        e.hash ≡ hash
        → e.status ≡ started
        → e.owner ≢ ""
        → now < e.seen + lease
        → (claim_command L c key hash owner lease now).1 ≡ in_progress
    unfolding claim_command
    claim_of_live h s o t = ground (arith, eq_iff e.hash hash, eq_iff e.owner "")

    claim_of_stale :
        e.hash ≡ hash
        → e.status ≡ started
        → (e.owner ≡ "") ⊎ (e.seen + lease ≤ now)
        → (claim_command L c key hash owner lease now).1 ≡ claimed
    unfolding claim_command
    claim_of_stale h s o = ground (arith, eq_iff e.hash hash, eq_iff e.owner "")

    pub claim_of_succeeded :
        e.hash ≡ hash
        → e.status ≡ succeeded
        → (claim_command L c key hash owner lease now).1 ≡ replay e.result
    unfolding claim_command
    claim_of_succeeded h s = ground (arith, eq_iff e.hash hash)

  module _ (c : Cache) (key owner : String) where
    pub complete_of_owner :
        (response : String) (now : ℕ) {e : MemoryEntry}
        → peek c key ≡ some e
        → e.status ≡ started
        → e.owner ≡ owner
        → peek (complete_command L c key owner response now) key
          ≡ some (record e { status = succeeded; seen = now; result = response })
    unfolding complete_command
    complete_of_owner response now {e} p s o = ground (
      arith,
      eq_iff e.owner owner,
      peek-add_self (touch c key) key
          (record e { status = succeeded; seen = now; result = response }),
    )

    complete_of_other :
        (response : String) (now : ℕ) {e : MemoryEntry}
        → peek c key ≡ some e
        → e.owner ≢ owner
        → peek (complete_command L c key owner response now) key ≡ peek c key
    unfolding complete_command
    complete_of_other response now {e} p o =
        ground (arith, eq_iff e.owner owner, peek-touch c key key)

    release_of_owner :
        {e : MemoryEntry}
        → peek c key ≡ some e
        → e.status ≡ started
        → e.owner ≡ owner
        → peek (release_command L c key owner) key ≡ some (record e { owner = "" })
    unfolding release_command
    release_of_owner {e} p s o =
        ground
          (arith, eq_iff e.owner owner, peek-add_self (touch c key) key (record e { owner = "" }))

    release_of_other :
        {e : MemoryEntry}
        → peek c key ≡ some e
        → e.owner ≢ owner
        → peek (release_command L c key owner) key ≡ peek c key
    unfolding release_command
    release_of_other {e} p o = ground (arith, eq_iff e.owner owner, peek-touch c key key)

  -- After a claim is granted and its owner completes the command with a response, every later claim
  -- of it for the same request is answered with that response.
  pub complete_replays :
      (c : Cache) (key hash owner other response : String) (lease now done later : ℕ)
      → (claim_command L c key hash owner lease now).1 ≡ claimed
      → (claim_command L
          (complete_command L
            (claim_command L c key hash owner lease now).0
            key
            owner
            response
            done)
          key
          hash
          other
          lease
          later).1
        ≡ replay response
  complete_replays c key hash owner other response lease now done later h =
      let (r, p) = claim_command-peek c key hash owner lease now h in
      let q =
        complete_of_owner (claim_command L c key hash owner lease now).0 key owner response done p
          refl refl in
      claim_of_succeeded _ key hash other lease later q refl refl

  -- After a claim is granted and its owner releases the command, a claim of it for the same request
  -- is granted at once, to anyone, at any time.
  pub release_reopens :
      (c : Cache) (key hash owner other : String) (lease now later : ℕ)
      → (claim_command L c key hash owner lease now).1 ≡ claimed
      → (claim_command L
          (release_command L (claim_command L c key hash owner lease now).0 key owner)
          key
          hash
          other
          lease
          later).1
        ≡ claimed
  release_reopens c key hash owner other lease now later h =
      let (r, p) = claim_command-peek c key hash owner lease now h in
      let q =
        release_of_owner (claim_command L c key hash owner lease now).0 key owner p refl refl in
      claim_of_stale _ key hash other lease later q refl refl (inl refl)

  -- After the lease of a granted claim has passed, a claim of another owner for the same request is
  -- granted, and then the first owner can neither complete nor release the command.
  pub taken_over :
      (c : Cache) (key hash owner other response : String) (lease now later done : ℕ)
      → (claim_command L c key hash owner lease now).1 ≡ claimed
      → owner ≢ other
      → now + lease ≤ later
      → let mine = (claim_command L c key hash owner lease now).0 in
        let theirs = claim_command L mine key hash other lease later in
        (theirs.1 ≡ claimed)
        × (peek (complete_command L theirs.0 key owner response done) key ≡ peek theirs.0 key)
        × (peek (release_command L theirs.0 key owner) key ≡ peek theirs.0 key)
  taken_over c key hash owner other response lease now later done h o t =
      let (r, p) = claim_command-peek c key hash owner lease now h in
      let again =
        claim_of_stale (claim_command L c key hash owner lease now).0 key hash other lease later p
          refl refl (inr t) in
      let (r', p') = claim_command-peek _ key hash other lease later again in
      (
        again,
        complete_of_other _ key owner response done p' (λ e. o (sym e)),
        release_of_other _ key owner p' (λ e. o (sym e)),
      )

  -- A key that was used with another request hash is a conflict, and no entry changes.
  pub claim_conflict :
      (c : Cache) (key hash owner : String) (lease now : ℕ) {e : MemoryEntry}
      → peek c key ≡ some e
      → e.hash ≢ hash
      → ((claim_command L c key hash owner lease now).1 ≡ conflict)
        × ((k : String) → peek (claim_command L c key hash owner lease now).0 k ≡ peek c k)
  unfolding claim_command
  claim_conflict c key hash owner lease now {e} p h =
      rw (p, claim_found) (rw (str_eq_of_ne e.hash hash h) (refl, λ k. peek-touch c key k))
