-- ===== src/Prelude/Lists.antt =====
-- Lists measured by native numbers, and what Python's comprehensions do.
use Prim.Native.Nat.{ℕ, suc}
use mathlib.Core.Path.{◌≡◌, refl}
use mathlib.Core.Bool.{Bool, true, false, not, ◌||◌, ◌&&◌}
use native.Mathlib.Omega.{arith}
use mathlib.Core.List.{List, [], ◌∷◌}
use calamari.Prelude.Tests.{if◌then◌else◌, ◌==◌}

module _ {ℓ} {A : Type ℓ} where
  abbrev pub length : List A → ℕ
  length [] = 0
  length (x ∷ xs) = suc (length xs)

  -- `[x for x in xs if p(x)]`
  abbrev pub keep : (A → Bool) → List A → List A
  keep p [] = []
  keep p (x ∷ xs) = let rest = keep p xs in if p x then x ∷ rest else rest

  abbrev pub is_empty : List A → Bool
  is_empty [] = true
  is_empty (x ∷ xs) = false

  -- A statement about every member.
  abbrev pub All {κ} : (A → Type κ) → List A → Type κ
  All P [] = Unit
  All P (x ∷ xs) = P x × All P xs

-- `n in xs`
abbrev pub elem : ℕ → List ℕ → Bool
elem n [] = false
elem n (x ∷ xs) = x == n || elem n xs

-- `set.add`: a set is a list without repetition.
abbrev pub add : ℕ → List ℕ → List ℕ
add n xs = if elem n xs then xs else n ∷ xs

-- `a - b` and `a & b` of two sets
abbrev pub without_all : List ℕ → List ℕ → List ℕ
without_all [] bs = []
without_all (a ∷ as₁) bs = let rest = without_all as₁ bs in if elem a bs then rest else a ∷ rest

abbrev pub with_all : List ℕ → List ℕ → List ℕ
with_all [] bs = []
with_all (a ∷ as₁) bs = let rest = with_all as₁ bs in if elem a bs then a ∷ rest else rest

pub elem-without_all :
    (f : ℕ) (xs ys : List ℕ) → elem f (without_all xs ys) ≡ (elem f xs && not (elem f ys))
elem-without_all f [] ys = refl
elem-without_all f (x ∷ xs) ys = ground (arith, elem-without_all f xs ys)

pub elem-with_all : (f : ℕ) (xs ys : List ℕ) → elem f (with_all xs ys) ≡ (elem f xs && elem f ys)
elem-with_all f [] ys = refl
elem-with_all f (x ∷ xs) ys = ground (arith, elem-with_all f xs ys)
