-- ===== src/Sop/Cycle.antt =====
-- internal/task/sop.go: `sopHasCycle`, Kahn's algorithm over the steps' dependencies. Counts are Go
-- ints. The loop runs on fuel, and `none` means that the fuel ran out, which it never does.
use orbit_control.Prelude.{
  ℕ, zero, suc, ◌+◌, ◌*◌, ◌≤◌, ◌<◌, String, Bool, true, not, ◌≡◌, ◌≢◌, Option, none, some, List, [],
  ◌∷◌, ◌++◌, arith, ◌==◌, if◌then◌else◌, Assoc, lookup, insert, length, length-append, Option-cases,
  inl, inr,
}
use orbit_control.Prelude.Int.{ℤ, pos, negsuc, ltb_ℤ, eqb_ℤ, ◌+ℤ◌}

pub record Node : Type 0 where
  pub id : String
  pub depends_on : List String

abbrev or_nil : Option (List String) → List String
or_nil none = []
or_nil (some xs) = xs

abbrev count_of : Option ℤ → ℤ
count_of none = pos 0
count_of (some n) = n

-- `waiting[step.ID] = len(step.DependsOn)` for each step
waiting_of : Assoc ℤ → List Node → Assoc ℤ
waiting_of waiting [] = waiting
waiting_of waiting (n ∷ ns) = waiting_of (insert n.id (pos (length n.depends_on)) waiting) ns

add_dependent : String → List String → Assoc (List String) → Assoc (List String)
add_dependent id [] dependents = dependents
add_dependent id (d ∷ ds) dependents =
    add_dependent id ds (insert d (or_nil (lookup d dependents) ++ id ∷ []) dependents)

dependents_of : Assoc (List String) → List Node → Assoc (List String)
unfolding add_dependent
dependents_of dependents [] = dependents
dependents_of dependents (n ∷ ns) = dependents_of (add_dependent n.id n.depends_on dependents) ns

initial : Assoc ℤ → List Node → List String
initial waiting [] = []
initial waiting (n ∷ ns) =
    let rest = initial waiting ns in
    if eqb_ℤ (count_of (lookup n.id waiting)) (pos 0) then n.id ∷ rest else rest

-- A count of dependencies goes down by one; at zero its step is ready.
release_one : String → Assoc ℤ × List String → Assoc ℤ × List String
release_one next (waiting, ready) =
    let left = count_of (lookup next waiting) +ℤ negsuc 0 in
    (insert next left waiting, if eqb_ℤ left (pos 0) then ready ++ next ∷ [] else ready)

release : List String → Assoc ℤ × List String → Assoc ℤ × List String
unfolding release_one
release [] state = state
release (next ∷ rest) state = release rest (release_one next state)

-- The number of steps that become ready.
run : ℕ → Assoc (List String) → Assoc ℤ → List String → ℕ → Option ℕ
unfolding release
run zero dependents waiting ready done = none
run (suc fuel) dependents waiting [] done = some done
run (suc fuel) dependents waiting (id ∷ ready) done =
    let (waiting', ready') = release (or_nil (lookup id dependents)) (waiting, ready) in
    run fuel dependents waiting' ready' (done + 1)

-- The whole loop, with two rounds of fuel for each step and one more.
pub ordered_count : List Node → Option ℕ
unfolding waiting_of dependents_of initial run
ordered_count nodes =
    let waiting = waiting_of [] nodes in
    run (suc (2 * length nodes)) (dependents_of [] nodes) waiting (initial waiting nodes) 0

unfoldable pub has_cycle : List Node → Bool
unfolding ordered_count
has_cycle nodes = elim (ordered_count nodes) [
  | none ↦ true
  | some done ↦ not (done == length nodes)
]

-- How many entries still wait for something.
positives : Assoc ℤ → ℕ
positives [] = 0
positives ((k, n) ∷ m) = let rest = positives m in if ltb_ℤ (pos 0) n then suc rest else rest

is_positive : ℤ → ℕ
is_positive n = if ltb_ℤ (pos 0) n then 1 else 0

positives-insert :
    (k : String) (w : ℤ) (m : Assoc ℤ)
    → positives (insert k w m) + is_positive (count_of (lookup k m)) ≡ positives m + is_positive w
unfolding positives insert lookup is_positive
positives-insert k w [] = ground arith
positives-insert k w ((j, v) ∷ m) = ground (arith, positives-insert k w m)

abbrev measure : Assoc ℤ × List String → ℕ
measure (waiting, ready) = positives waiting + length ready

-- A step that becomes ready stops waiting, so the two together do not grow.
measure-release_one :
    (next : String) (state : Assoc ℤ × List String)
    → measure (release_one next state) ≤ measure state
unfolding release_one is_positive ◌+ℤ◌
measure-release_one next (waiting, ready) = ground (
  arith,
  positives-insert next (count_of (lookup next waiting) +ℤ negsuc 0) waiting,
  length-append ready (next ∷ []),
)

measure-release :
    (nexts : List String) (state : Assoc ℤ × List String)
    → measure (release nexts state) ≤ measure state
unfolding release
measure-release [] state = omega arith
measure-release (next ∷ nexts) state =
    omega (arith, measure-release nexts (release_one next state), measure-release_one next state)

run-total :
    (fuel : ℕ) (dependents : Assoc (List String)) (waiting : Assoc ℤ) (ready : List String)
    (done : ℕ)
    → measure (waiting, ready) < fuel
    → run fuel dependents waiting ready done ≢ none
unfolding run
run-total zero dependents waiting ready done h = absurd (omega arith)
run-total (suc fuel) dependents waiting [] done h = λ e. cc
run-total (suc fuel) dependents waiting (id ∷ ready) done h =
    let next = release (or_nil (lookup id dependents)) (waiting, ready) in
    run-total fuel dependents next.0 next.1 (done + 1)
      (omega (arith, measure-release (or_nil (lookup id dependents)) (waiting, ready)))

positives-waiting_of :
    (waiting : Assoc ℤ) (nodes : List Node)
    → positives (waiting_of waiting nodes) ≤ positives waiting + length nodes
unfolding waiting_of is_positive
positives-waiting_of waiting [] = omega arith
positives-waiting_of waiting (n ∷ ns) = ground (
  arith,
  positives-insert n.id (pos (length n.depends_on)) waiting,
  positives-waiting_of (insert n.id (pos (length n.depends_on)) waiting) ns,
)

length-initial :
    (waiting : Assoc ℤ) (nodes : List Node) → length (initial waiting nodes) ≤ length nodes
unfolding initial
length-initial waiting [] = omega arith
length-initial waiting (n ∷ ns) = ground (arith, length-initial waiting ns)

-- The loop of the cycle check ends within its fuel, whatever the steps and their dependencies.
pub ordered_count-total : (nodes : List Node) → (done : ℕ) × (ordered_count nodes ≡ some done)
unfolding ordered_count positives
ordered_count-total nodes =
    let waiting = waiting_of [] nodes in
    elim (Option-cases
      (run (suc (2 * length nodes)) (dependents_of [] nodes) waiting (initial waiting nodes) 0)) [
        | inl e ↦ absurd (
            run-total (suc (2 * length nodes)) (dependents_of [] nodes) waiting
              (initial waiting nodes) 0
              (omega (arith, positives-waiting_of [] nodes, length-initial waiting nodes)) e)
        | inr found ↦ found
      ]
