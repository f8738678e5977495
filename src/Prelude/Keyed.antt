-- ===== src/Prelude/Keyed.antt =====
-- A Python dict whose keys are compared by an equality of their own, and sets of such keys.
use mathlib.Core.Path.{◌≡◌, refl}
use mathlib.Core.Logic.{◌↔◌}
use mathlib.Core.Bool.{Bool, true, false, ◌||◌}
use mathlib.Core.Option.{Option, none, some}
use mathlib.Core.List.{List, [], ◌∷◌}
use native.Mathlib.Omega.{arith}
use calamari.Prelude.Tests.{if◌then◌else◌}

pub record Eq {ℓ} (A : Type ℓ) : Type ℓ where
  pub same : A → A → Bool
  pub same_iff : (a b : A) → (same a b ≡ true) ↔ (a ≡ b)

abbrev pub Map {ℓ κ} : Type ℓ → Type κ → Type (ℓ ⊔ κ)
Map K V = List (K × V)

abbrev pub map_keys {ℓ κ} : {K : Type ℓ} {V : Type κ} → Map K V → List K
map_keys [] = []
map_keys ((k, v) ∷ m) = k ∷ map_keys m

abbrev pub map_values {ℓ κ} : {K : Type ℓ} {V : Type κ} → Map K V → List V
map_values [] = []
map_values ((k, v) ∷ m) = v ∷ map_values m

module _ {ℓ κ} {K : Type ℓ} ⦃e : Eq K⦄ {V : Type κ} where
  -- `m[k]`, where `none` is a KeyError
  unfoldable pub find : K → Map K V → Option V
  find k [] = none
  find k ((j, v) ∷ m) = if e.same j k then some v else find k m

  -- `m[k] = v`
  unfoldable pub put : K → V → Map K V → Map K V
  put k v [] = (k, v) ∷ []
  put k v ((j, w) ∷ m) = let rest = put k v m in if e.same j k then (k, v) ∷ m else (j, w) ∷ rest

  -- `del m[k]`, for a key that is there
  unfoldable pub remove : K → Map K V → Map K V
  remove k [] = []
  remove k ((j, w) ∷ m) = let rest = remove k m in if e.same j k then rest else (j, w) ∷ rest

  pub find-nil : (k : K) → find k [] ≡ none
  unfolding find
  find-nil k = refl

  pub find-put :
      (k j : K) (v : V) (m : Map K V)
      → find j (put k v m) ≡ (if e.same k j then some v else find j m)
  unfolding find put
  find-put k j v [] = refl
  find-put k j v ((i, w) ∷ m) =
      ground
        (arith, find-put k j v m, e.same_iff i k, e.same_iff i j, e.same_iff k j, e.same_iff k k)

  pub find-remove :
      (k j : K) (m : Map K V) → find j (remove k m) ≡ (if e.same k j then none else find j m)
  unfolding find remove
  find-remove k j [] = ground arith
  find-remove k j ((i, w) ∷ m) =
      ground (arith, find-remove k j m, e.same_iff i k, e.same_iff i j, e.same_iff k j)

module _ {ℓ} {K : Type ℓ} ⦃e : Eq K⦄ where
  -- `k in ks`
  abbrev pub has_key : K → List K → Bool
  has_key k [] = false
  has_key k (j ∷ js) = e.same j k || has_key k js

  -- A set is a list without repetition.
  abbrev pub add_key : K → List K → List K
  add_key k ks = if has_key k ks then ks else k ∷ ks

  -- `a - b` of two sets
  abbrev pub minus : List K → List K → List K
  minus [] bs = []
  minus (a ∷ as₁) bs = let rest = minus as₁ bs in if has_key a bs then rest else a ∷ rest

  -- `a & b`
  abbrev pub both : List K → List K → List K
  both [] bs = []
  both (a ∷ as₁) bs = let rest = both as₁ bs in if has_key a bs then a ∷ rest else rest
