-- ===== src/Lru.antt =====
-- github.com/hashicorp/golang-lru, which the service uses and does not implement: a cache with text
-- keys that may drop another key when one is added.
use orbit_control.Prelude.{
  ℕ, zero, suc, String, ◌≡◌, refl, ◌≢◌, ◌⊎◌, inl, inr, Option, none, some, arith, take, eq_iff,
  eq_refl, Assoc, lookup, remove, lookup-remove, lookup-remove_self, lookup-remove_ne, [], ◌∷◌,
}

-- `Get` answers `peek` and makes the key the most recently used (`touch`).
pub record Lru (V : Type 0) : Type 1 where
  pub Cache : Type 0
  pub empty : Cache
  pub peek : Cache → String → Option V
  pub touch : Cache → String → Cache
  pub add : Cache → String → V → Cache
  pub drop : Cache → String → Cache
  pub peek-empty : (k : String) → peek empty k ≡ none
  pub peek-touch : (c : Cache) (k j : String) → peek (touch c k) j ≡ peek c j
  pub peek-add_self : (c : Cache) (k : String) (v : V) → peek (add c k v) k ≡ some v
  pub peek-add_ne :
      (c : Cache) (k j : String) (v : V)
      → k ≢ j
      → (peek (add c k v) j ≡ peek c j) ⊎ (peek (add c k v) j ≡ none)
  pub peek-drop_self : (c : Cache) (k : String) → peek (drop c k) k ≡ none
  pub peek-drop_ne : (c : Cache) (k j : String) → k ≢ j → peek (drop c k) j ≡ peek c j

-- A cache that holds the last `n + 1` keys, newest first: the interface can be met.
module _ {V : Type 0} where
  unfoldable pub newest : ℕ → Assoc V → String → V → Assoc V
  newest n m k v = (k, v) ∷ take n (remove k m)

  unfoldable pub refresh : Assoc V → String → Assoc V
  unfolding lookup
  refresh m k = elim (lookup k m) [ none ↦ m | some v ↦ (k, v) ∷ remove k m ]

  lookup-take :
      (n : ℕ) (m : Assoc V) (j : String)
      → (lookup j (take n m) ≡ lookup j m) ⊎ (lookup j (take n m) ≡ none)
  unfolding lookup
  lookup-take zero m j = inr refl
  lookup-take (suc n) [] j = inl refl
  lookup-take (suc n) ((i, v) ∷ m) j = ground (arith, lookup-take n m j)

  pub lookup-refresh : (m : Assoc V) (k j : String) → lookup j (refresh m k) ≡ lookup j m
  unfolding refresh lookup
  lookup-refresh m k j = ground (arith, lookup-remove k j m, eq_iff k j)

  pub lookup-newest_self :
      (n : ℕ) (m : Assoc V) (k : String) (v : V) → lookup k (newest n m k v) ≡ some v
  unfolding newest lookup
  lookup-newest_self n m k v = ground (arith, eq_refl k)

  pub lookup-newest_ne :
      (n : ℕ) (m : Assoc V) (k j : String) (v : V)
      → k ≢ j
      → (lookup j (newest n m k v) ≡ lookup j m) ⊎ (lookup j (newest n m k v) ≡ none)
  unfolding newest lookup
  lookup-newest_ne n m k j v h =
      ground (arith, eq_iff k j, lookup-take n (remove k m) j, lookup-remove k j m)

pub lookup-empty : {V : Type 0} (k : String) → lookup {V = V} k [] ≡ none
unfolding lookup
lookup-empty k = refl

abbrev pub newest_first : {V : Type 0} → ℕ → Lru V
newest_first {V} n = record {
  Cache = Assoc V;
  empty = [];
  peek = λ m k. lookup k m;
  touch = refresh;
  add = newest n;
  drop = λ m k. remove k m;
  peek-empty = lookup-empty;
  peek-touch = lookup-refresh;
  peek-add_self = lookup-newest_self n;
  peek-add_ne = lookup-newest_ne n;
  peek-drop_self = lookup-remove_self;
  peek-drop_ne = lookup-remove_ne;
}
