-- ===== src/Map/Sums.antt =====
-- Sums over the values of a map, and how a write changes them.
use rustgrid_agent.Prelude.{ℕ, ◌+◌, ◌≤◌, String, ◌≡◌, none, some, [], ◌∷◌, arith}
use rustgrid_agent.Map.{Map, get, insert, modify}

module _ {ℓ} {V : Type ℓ} (w : V → ℕ) where
  unfoldable pub total : Map V → ℕ
  total [] = 0
  total ((j, v) ∷ m) = w v + total m

  pub total-modify :
      (k : String) (f : V → V) (m : Map V) (v : V)
      → get k m ≡ some v
      → total (modify k f m) + w v ≡ total m + w (f v)
  unfolding total get modify
  total-modify k f [] v h = ground arith
  total-modify k f ((j, x) ∷ m) v h = ground (arith, total-modify k f m v)

  pub total-insert :
      (k : String) (v : V) (m : Map V) → get k m ≡ none → total (insert k v m) ≡ total m + w v
  unfolding total get insert
  total-insert k v [] h = ground arith
  total-insert k v ((j, x) ∷ m) h = ground (arith, total-insert k v m)

  -- One value's share is at most the sum.
  pub le-total : (k : String) (m : Map V) (v : V) → get k m ≡ some v → w v ≤ total m
  unfolding total get
  le-total k [] v h = ground arith
  le-total k ((j, x) ∷ m) v h = ground (arith, le-total k m v)
