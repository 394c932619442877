-- ===== src/Map.antt =====
-- A `BTreeMap` keyed by an identity (a newtype over `String`), as an association list in the
-- order of its keys.
pub mod Sums
use Prim.Native.String.{compare}
use Prim.Native.Nat.{Ordering}
use rustgrid_agent.Prelude.{
  suc, String, ◌≡◌, refl, Bool, true, false, Option, none, some, List, [], ◌∷◌, arith, ◌==◌, eq_iff,
  Bool-cases, inl, inr, length, contains, is_some, if◌then◌else◌,
}

abbrev pub Map {ℓ} : Type ℓ → Type ℓ
Map V = List (String × V)

-- The order of the keys: that of the bytes.
abbrev pub key_lt : String → String → Bool
key_lt j k = elim (compare j k) [ Ordering.lt ↦ true | _ ↦ false ]

module _ {ℓ} {V : Type ℓ} where
  unfoldable pub get : String → Map V → Option V
  get k [] = none
  get k ((j, v) ∷ m) = if j == k then some v else get k m

  unfoldable pub contains_key : String → Map V → Bool
  contains_key k [] = false
  contains_key k ((j, v) ∷ m) = if j == k then true else contains_key k m

  unfoldable pub insert : String → V → Map V → Map V
  insert k v [] = (k, v) ∷ []
  insert k v ((j, w) ∷ m) =
      if j == k
      then (k, v) ∷ m
      else if key_lt k j
      then (k, v) ∷ (j, w) ∷ m
      else (j, w) ∷ insert k v m

  -- What a write through `get_mut` leaves.
  unfoldable pub modify : String → (V → V) → Map V → Map V
  modify k f [] = []
  modify k f ((j, w) ∷ m) = if j == k then (j, f w) ∷ m else (j, w) ∷ modify k f m

  unfoldable pub values : Map V → List V
  values [] = []
  values ((j, v) ∷ m) = v ∷ values m

  unfoldable pub keys : Map V → List String
  keys [] = []
  keys ((j, v) ∷ m) = j ∷ keys m

  abbrev pub apply_to : (V → V) → Option V → Option V
  apply_to f none = none
  apply_to f (some v) = some (f v)

  pub get-insert :
      (k j : String) (v : V) (m : Map V)
      → get j (insert k v m) ≡ (if k == j then some v else get j m)
  unfolding get insert
  get-insert k j v [] = refl
  get-insert k j v ((i, w) ∷ m) =
      ground (arith, eq_iff k j, eq_iff i k, eq_iff i j, get-insert k j v m)

  pub get-modify :
      (k j : String) (f : V → V) (m : Map V)
      → get j (modify k f m) ≡ (if k == j then apply_to f (get j m) else get j m)
  unfolding get modify
  get-modify k j f [] = ground arith
  get-modify k j f ((i, w) ∷ m) =
      ground (arith, eq_iff k j, eq_iff i k, eq_iff i j, get-modify k j f m)

  pub contains-keys : (k : String) (m : Map V) → contains k (keys m) ≡ contains_key k m
  unfolding keys contains contains_key
  contains-keys k [] = refl
  contains-keys k ((j, v) ∷ m) = ground (arith, contains-keys k m)

  pub length-keys : (m : Map V) → length (keys m) ≡ length m
  unfolding keys
  length-keys [] = refl
  length-keys ((j, v) ∷ m) = omega (arith, length-keys m)

  pub keys-modify : (k : String) (f : V → V) (m : Map V) → keys (modify k f m) ≡ keys m
  unfolding keys modify
  keys-modify k f [] = refl
  keys-modify k f ((j, w) ∷ m) = elim (Bool-cases (j == k)) [
    | inl e ↦ ground arith
    | inr e ↦ ground (arith, keys-modify k f m)
  ]

  pub is_some-get : (k : String) (m : Map V) → is_some (get k m) ≡ contains_key k m
  unfolding get contains_key
  is_some-get k [] = refl
  is_some-get k ((j, w) ∷ m) = ground (arith, is_some-get k m)

  -- A new key makes the map longer by one.
  pub length-insert :
      (k : String) (v : V) (m : Map V) → get k m ≡ none → length (insert k v m) ≡ suc (length m)
  unfolding get insert
  length-insert k v [] h = refl
  length-insert k v ((j, w) ∷ m) h = ground (arith, length-insert k v m)
