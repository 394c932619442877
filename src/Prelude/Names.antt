-- ===== src/Prelude/Names.antt =====
-- Lists of names, as sets and as stacks.
use Prim.Native.Nat.{ℕ, suc, ◌+◌, ◌≤◌}
use Prim.Native.String.{String}
use mathlib.Core.Path.{◌≡◌, refl}
use mathlib.Core.Logic.{◌⊎◌, inl, inr}
use mathlib.Core.Bool.{Bool, true, false, ◌||◌, ◌&&◌, not}
use mathlib.Core.List.{List, [], ◌∷◌, ◌++◌}
use native.Mathlib.Omega.{arith}
use text.Mathlib.Text.{◌==◌}
use text.Mathlib.TextEquality.{eq_iff}
use text.Mathlib.TextPositions.{eq_refl}
use rustgrid_agent.Prelude.Tests.{length, if◌then◌else◌}

pub List-cases {ℓ} :
    {A : Type ℓ} (xs : List A) → (xs ≡ []) ⊎ ((x : A) × (rest : List A) × (xs ≡ x ∷ rest))
List-cases [] = inl refl
List-cases (x ∷ xs) = inr (x, xs, refl)

unfoldable pub contains : String → List String → Bool
contains x [] = false
contains x (y ∷ ys) = y == x || contains x ys

-- The items pushed one by one, the last one on top.
unfoldable pub push_all {ℓ} : {A : Type ℓ} → List A → List A → List A
push_all [] stack = stack
push_all (x ∷ xs) stack = push_all xs (x ∷ stack)

pub contains-push_all :
    (x : String) (xs stack : List String)
    → contains x (push_all xs stack) ≡ (contains x xs || contains x stack)
unfolding contains push_all
contains-push_all x [] stack = refl
contains-push_all x (y ∷ xs) stack = ground (arith, contains-push_all x xs (y ∷ stack))

pub length-push_all {ℓ} :
    {A : Type ℓ} (xs stack : List A) → length (push_all xs stack) ≡ length xs + length stack
unfolding push_all
length-push_all [] stack = omega arith
length-push_all (x ∷ xs) stack = omega (arith, length-push_all xs (x ∷ stack))

pub contains-append :
    (x : String) (xs ys : List String) → contains x (xs ++ ys) ≡ (contains x xs || contains x ys)
unfolding contains
contains-append x [] ys = refl
contains-append x (y ∷ xs) ys = ground (arith, contains-append x xs ys)

pub length-append {ℓ} : {A : Type ℓ} (xs ys : List A) → length (xs ++ ys) ≡ length xs + length ys
length-append [] ys = omega arith
length-append (x ∷ xs) ys = omega (arith, length-append xs ys)

-- No name twice.
unfoldable pub distinct : List String → Bool
distinct [] = true
distinct (x ∷ xs) = not (contains x xs) && distinct xs

-- How often a name occurs.
unfoldable pub occurrences : String → List String → ℕ
occurrences x [] = 0
occurrences x (y ∷ ys) = (if y == x then 1 else 0) + occurrences x ys

pub occurrences-append :
    (x : String) (xs ys : List String)
    → occurrences x (xs ++ ys) ≡ occurrences x xs + occurrences x ys
unfolding occurrences
occurrences-append x [] ys = omega arith
occurrences-append x (y ∷ xs) ys = omega (arith, occurrences-append x xs ys)

-- One more name at the end of names without it.
pub distinct-append :
    (x : String) (xs : List String)
    → distinct xs ≡ true
    → contains x xs ≡ false
    → distinct (xs ++ x ∷ []) ≡ true
unfolding distinct contains
distinct-append x [] d h = refl
distinct-append x (y ∷ xs) d h =
    ground (arith, distinct-append x xs, contains-append y xs (x ∷ []), eq_iff x y, eq_iff y x)

remove : String → List String → List String
remove x [] = []
remove x (y ∷ ys) = if y == x then remove x ys else y ∷ remove x ys

contains-remove :
    (x z : String) (ys : List String) → (x == z) ≡ false → contains z (remove x ys) ≡ contains z ys
unfolding contains remove
contains-remove x z [] h = refl
contains-remove x z (y ∷ ys) h =
    ground (arith, contains-remove x z ys, eq_iff y x, eq_iff y z, eq_iff x z)

length-remove : (x : String) (ys : List String) → length (remove x ys) ≤ length ys
unfolding remove
length-remove x [] = omega arith
length-remove x (y ∷ ys) = ground (arith, length-remove x ys)

length-remove_present :
    (x : String) (ys : List String) → contains x ys ≡ true → suc (length (remove x ys)) ≤ length ys
unfolding remove contains
length-remove_present x [] h = absurd (ground arith)
length-remove_present x (y ∷ ys) h = ground (arith, length-remove x ys, length-remove_present x ys)

-- Distinct names among others are no more than these.
pub length-distinct :
    (xs ys : List String)
    → distinct xs ≡ true
    → ((z : String) → contains z xs ≡ true → contains z ys ≡ true)
    → length xs ≤ length ys
unfolding distinct contains
length-distinct [] ys d h = omega arith
length-distinct (x ∷ xs) ys d h =
    let rest =
      length-distinct xs (remove x ys) (ground arith)
        λ z i. ground (arith, h z, contains-remove x z ys, eq_iff x z) in
    let here = length-remove_present x ys (h x (ground (arith, eq_refl x))) in omega arith
