-- ===== src/Ring/Choice.antt =====
-- The point that a hash is routed to, described without the order of the points.
use orbit_control.Prelude.{
  ℕ, ◌≤◌, ◌<◌, ◌≡◌, refl, sym, ◌⊎◌, inl, inr, false, List, [], ◌∷◌, arith, ltb, leb, All, Occurs,
  Bool-cases,
}
use mathlib.Core.Path.{subst}
use orbit_control.Prelude.Sort.{Ordered}
use orbit_control.Ring.{choose}

-- The smallest point from the hash on, or, if every point is below the hash, the smallest of all.
abbrev pub Chosen : ℕ → List ℕ → ℕ → Type 0
Chosen hash ps c =
    (Occurs c ps × (hash ≤ c) × All (λ q. hash ≤ q → c ≤ q) ps)
    ⊎ (Occurs c ps × All (λ q. q < hash) ps × All (λ q. c ≤ q) ps)

pub All-Occurs : {A : Type 0} (P : A → Type 0) (xs : List A) {a : A} → All P xs → Occurs a xs → P a
All-Occurs P [] h o = elim o [ ]
All-Occurs P (x ∷ xs) (p, h) (inl e) = rw e p
All-Occurs P (x ∷ xs) (p, h) (inr o) = All-Occurs P xs h o

-- A hash is routed to one point only.
pub Chosen-unique : (hash : ℕ) (ps : List ℕ) (c d : ℕ) → Chosen hash ps c → Chosen hash ps d → c ≡ d
Chosen-unique hash ps c d (inl (o, h, m)) (inl (o', h', m')) = omega (
  arith,
  All-Occurs (λ q. hash ≤ q → c ≤ q) ps m o' h',
  All-Occurs (λ q. hash ≤ q → d ≤ q) ps m' o h,
)
Chosen-unique hash ps c d (inl (o, h, m)) (inr (o', below, m')) =
    absurd (omega (arith, All-Occurs (λ q. q < hash) ps below o))
Chosen-unique hash ps c d (inr (o, below, m)) (inl (o', h', m')) =
    absurd (omega (arith, All-Occurs (λ q. q < hash) ps below o'))
Chosen-unique hash ps c d (inr (o, below, m)) (inr (o', below', m')) =
    omega (arith, All-Occurs (λ q. c ≤ q) ps m o', All-Occurs (λ q. d ≤ q) ps m' o)

not_before : (p : ℕ) (ps : List ℕ) → All (λ q. ltb q p ≡ false) ps → All (λ q. p ≤ q) ps
not_before p [] h = tt
not_before p (q ∷ ps) (h, hs) = (ground arith, not_before p ps hs)

weaken : (hash p : ℕ) (ps : List ℕ) → All (λ q. p ≤ q) ps → All (λ q. hash ≤ q → p ≤ q) ps
weaken hash p [] h = tt
weaken hash p (q ∷ ps) (h, hs) = ((λ _. h), weaken hash p ps hs)

-- How the search ended: at a point, or past the last one.
abbrev Found : ℕ → ℕ → List ℕ → ℕ → Type 0
Found hash first ps c =
    (Occurs c ps × (hash ≤ c) × All (λ q. hash ≤ q → c ≤ q) ps)
    ⊎ ((c ≡ first) × All (λ q. q < hash) ps)

Found-later :
    (hash first p : ℕ) (ps : List ℕ) (c : ℕ)
    → p < hash
    → Found hash first ps c
    → Found hash first (p ∷ ps) c
Found-later hash first p ps c lt (inl (o, h, m)) = inl (inr o, h, ((λ le. absurd (omega arith)), m))
Found-later hash first p ps c lt (inr (e, below)) = inr (e, (lt, below))

choose-Found :
    (hash first : ℕ) (ps : List ℕ)
    → Ordered ltb ps
    → (c : ℕ) × (choose hash first ps ≡ c) × Found hash first ps c
unfolding choose
choose-Found hash first [] h = (first, refl, inr (refl, tt))
choose-Found hash first (p ∷ ps) (h, hs) = elim (Bool-cases (leb hash p)) [
  | inl le ↦ (
    p,
    rw le,
    inl (inl refl, ground arith, ((λ _. omega arith), weaken hash p ps (not_before p ps h))),
  )
  | inr gt ↦
      let (c, e, f) = choose-Found hash first ps hs in
      (c, rw gt e, Found-later hash first p ps c (ground arith) f)
]

Chosen-of_Found :
    (hash p : ℕ) (ps : List ℕ) (c : ℕ)
    → All (λ q. p ≤ q) ps
    → Found hash p (p ∷ ps) c
    → Chosen hash (p ∷ ps) c
Chosen-of_Found hash p ps c least (inl f) = inl f
Chosen-of_Found hash p ps c least (inr (e, below)) =
    inr (inl e, below, subst (λ d. All (λ q. d ≤ q) (p ∷ ps)) (sym e) (omega arith, least))

-- The search in the sorted points finds the chosen point.
pub choose-Chosen :
    (hash p : ℕ) (ps : List ℕ)
    → Ordered ltb (p ∷ ps)
    → Chosen hash (p ∷ ps) (choose hash p (p ∷ ps))
choose-Chosen hash p ps h =
    let (c, e, f) = choose-Found hash p (p ∷ ps) h in
    subst (Chosen hash (p ∷ ps)) (sym e) (Chosen-of_Found hash p ps c (not_before p ps h.0) f)
