-- ===== src/Prelude/Dict.antt =====
-- A Python dict keyed by opaque identifiers (request ids, job ids, minion ids, FSIDs and epochs
-- are only compared, so they are natural numbers).
use Prim.Native.Nat.{ℕ}
use mathlib.Core.Path.{◌≡◌, refl}
use mathlib.Core.Bool.{Bool, true, false}
use mathlib.Core.Option.{Option, none, some}
use mathlib.Core.List.{List, [], ◌∷◌}
use native.Mathlib.Omega.{arith}
use calamari.Prelude.Tests.{◌==◌, if◌then◌else◌}

abbrev pub Dict {ℓ} : Type ℓ → Type ℓ
Dict V = List (ℕ × V)

module _ {ℓ} {V : Type ℓ} where
  -- `d[k]`, where `none` is a KeyError, and `d.get(k)`
  unfoldable pub lookup : ℕ → Dict V → Option V
  lookup k [] = none
  lookup k ((j, v) ∷ d) = if j == k then some v else lookup k d

  -- `d[k] = v`
  unfoldable pub insert : ℕ → V → Dict V → Dict V
  insert k v [] = (k, v) ∷ []
  insert k v ((j, w) ∷ d) = let rest = insert k v d in if j == k then (k, v) ∷ d else (j, w) ∷ rest

  -- `del d[k]`, for a key that is there
  unfoldable pub erase : ℕ → Dict V → Dict V
  erase k [] = []
  erase k ((j, w) ∷ d) = let rest = erase k d in if j == k then rest else (j, w) ∷ rest

  -- `k in d`
  abbrev pub contains : ℕ → Dict V → Bool
  contains k d = elim (lookup k d) [ none ↦ false | some _ ↦ true ]

  pub lookup-insert :
      (k j : ℕ) (v : V) (d : Dict V)
      → lookup j (insert k v d) ≡ (if k == j then some v else lookup j d)
  unfolding lookup insert
  lookup-insert k j v [] = refl
  lookup-insert k j v ((i, w) ∷ d) = ground (arith, lookup-insert k j v d)

  pub lookup-erase :
      (k j : ℕ) (d : Dict V) → lookup j (erase k d) ≡ (if k == j then none else lookup j d)
  unfolding lookup erase
  lookup-erase k j [] = ground arith
  lookup-erase k j ((i, w) ∷ d) = ground (arith, lookup-erase k j d)

  pub lookup-nil : (k : ℕ) → lookup k [] ≡ none
  unfolding lookup
  lookup-nil k = refl

-- `d.keys()` and `d.values()`
abbrev pub keys {ℓ} : {V : Type ℓ} → Dict V → List ℕ
keys [] = []
keys ((k, v) ∷ d) = k ∷ keys d

abbrev pub values {ℓ} : {V : Type ℓ} → Dict V → List V
values [] = []
values ((k, v) ∷ d) = v ∷ values d

pub ruleset dict_laws = (lookup-insert, lookup-erase, lookup-nil)

-- No key is listed twice, as in every dict that a program builds.
abbrev pub IsUnique {ℓ} : {V : Type ℓ} → Dict V → Type ℓ
IsUnique [] = Unit
IsUnique ((k, v) ∷ d) = (lookup k d ≡ none) × IsUnique d

pub insert-IsUnique {ℓ} :
    {V : Type ℓ} (k : ℕ) (v : V) (d : Dict V) → IsUnique d → IsUnique (insert k v d)
unfolding lookup insert
insert-IsUnique k v [] u = (refl, tt)
insert-IsUnique k v ((j, w) ∷ d) u =
    ground (arith, insert-IsUnique k v d u.1, lookup-insert k j v d)

pub lookup-cons_self {ℓ} :
    {V : Type ℓ} (k : ℕ) (v : V) (d : Dict V) → lookup k ((k, v) ∷ d) ≡ some v
unfolding lookup
lookup-cons_self k v d = ground arith
