-- ===== src/TgtManager/Distinct.antt =====
-- The methods keep the ids and the LUNs' numbers of the stored configuration distinct.
use calamari.Prelude.{
  map, ℕ, ◌+◌, ◌≤◌, ◌≡◌, refl, ◌∙◌, Bool, Bool-cases, some, List, [], ◌∷◌, ◌++◌, ◌==◌,
  if◌then◌else◌, arith, inl, inr,
}
use calamari.TgtManager.Conf.{Env, strip_lun, strip_target, Lun, TargetConf}
use calamari.TgtManager.Luns.{numbers}
use calamari.TgtManager.Targets.{
  find_target, remove_target, replace_target, generate_id, ids_of, all_luns, new_target,
}

abbrev pub total : (TargetConf → ℕ) → List TargetConf → ℕ
total w [] = 0
total w (t ∷ ts) = w t + total w ts

abbrev pub one_if : Bool → ℕ
one_if b = if b then 1 else 0

-- How often a target has this id, and how many of its LUNs this number
abbrev pub numbered : ℕ → TargetConf → ℕ
numbered n t = one_if (t.id == n)

abbrev pub count_luns : ℕ → List Lun → ℕ
count_luns n [] = 0
count_luns n (l ∷ ls) = one_if (l.lun == n) + count_luns n ls

abbrev pub luns_numbered : ℕ → TargetConf → ℕ
luns_numbered n t = count_luns n t.lun_list

-- No two targets have an id in common, and no two LUNs of any targets a number.
abbrev pub IsDistinct : List TargetConf → Type 0
IsDistinct ts = (n : ℕ) → (total (numbered n) ts ≤ 1) × (total (luns_numbered n) ts ≤ 1)

pub total-append :
    (w : TargetConf → ℕ) (xs ys : List TargetConf) → total w (xs ++ ys) ≡ total w xs + total w ys
total-append w [] ys = omega arith
total-append w (x ∷ xs) ys = omega (arith, total-append w xs ys)

pub total-replace_target :
    (w : TargetConf → ℕ) (test : TargetConf → Bool) (old new : TargetConf) (ts : List TargetConf)
    → find_target test ts ≡ some old
    → total w (replace_target test new ts) + w old ≡ total w ts + w new
unfolding find_target replace_target
total-replace_target w test old new [] e = absurd (ground (arith, e))
total-replace_target w test old new (t ∷ ts) e = elim (Bool-cases (test t)) [
  | inl yes₁ ↦
      let same : t ≡ old = ground (arith, rw (find_target, yes₁) at e) in
      rw (yes₁, same) (omega arith)
  | inr no₁ ↦
      let h = total-replace_target w test old new ts (rw (find_target, no₁) at e) in
      rw (no₁) (omega (arith, h))
]

pub total-remove_target :
    (w : TargetConf → ℕ) (test : TargetConf → Bool) (ts : List TargetConf)
    → total w (remove_target test ts) ≤ total w ts
unfolding remove_target
total-remove_target w test [] = omega arith
total-remove_target w test (t ∷ ts) = elim (Bool-cases (test t)) [
  | inl yes₁ ↦ rw (yes₁) (omega arith)
  | inr no₁ ↦ rw (no₁) (omega (arith, total-remove_target w test ts))
]

-- A generated id is larger than all that are there.
abbrev pub times : ℕ → List ℕ → ℕ
times n [] = 0
times n (x ∷ xs) = one_if (x == n) + times n xs

pub times-generate_id : (n : ℕ) (xs : List ℕ) → generate_id xs ≤ n → times n xs ≡ 0
unfolding generate_id
times-generate_id n [] h = refl
times-generate_id n (x ∷ []) h = ground (arith, h)
times-generate_id n (x ∷ y ∷ ys) h =
    let rest = times-generate_id n (y ∷ ys) in ground (arith, h, rest (omega (arith, h)))

total-ids_of : (n : ℕ) (ts : List TargetConf) → total (numbered n) ts ≡ times n (ids_of ts)
total-ids_of n [] = refl
total-ids_of n (t ∷ ts) = omega (arith, total-ids_of n ts)

pub count_luns-append :
    (n : ℕ) (xs ys : List Lun) → count_luns n (xs ++ ys) ≡ count_luns n xs + count_luns n ys
count_luns-append n [] ys = omega arith
count_luns-append n (x ∷ xs) ys = omega (arith, count_luns-append n xs ys)

count_luns-numbers : (n : ℕ) (ls : List Lun) → count_luns n ls ≡ times n (numbers ls)
count_luns-numbers n [] = refl
count_luns-numbers n (l ∷ ls) = omega (arith, count_luns-numbers n ls)

pub total-all_luns :
    (n : ℕ) (ts : List TargetConf) → total (luns_numbered n) ts ≡ times n (numbers (all_luns ts))
total-all_luns n [] = refl
total-all_luns n (t ∷ ts) = omega (
  arith,
  total-all_luns n ts,
  count_luns-append n t.lun_list (all_luns ts),
  count_luns-numbers n (all_luns (t ∷ ts)),
  count_luns-numbers n (all_luns ts),
)

-- A new target, under whatever name
pub append-IsDistinct :
    (iqn : ℕ) (ts : List TargetConf)
    → IsDistinct ts
    → IsDistinct (ts ++ new_target (generate_id (ids_of ts)) iqn ∷ [])
append-IsDistinct iqn ts h n =
    let new : TargetConf = new_target (generate_id (ids_of ts)) iqn in
    let number = total-append (numbered n) ts (new ∷ []) in
    let lun = total-append (luns_numbered n) ts (new ∷ []) in
    (
      elim (Bool-cases (generate_id (ids_of ts) == n)) [
        | inl same ↦
            let le : generate_id (ids_of ts) ≤ n = ground (arith, same) in
            let none_yet = total-ids_of n ts ∙ times-generate_id n (ids_of ts) le in
            ground (arith, number, none_yet, same)
        | inr other ↦ ground (arith, number, (h n).0, other)
      ],
      ground (arith, lun, (h n).1),
    )

pub remove_target-IsDistinct :
    (test : TargetConf → Bool) (ts : List TargetConf)
    → IsDistinct ts
    → IsDistinct (remove_target test ts)
remove_target-IsDistinct test ts h n = (
  omega (arith, total-remove_target (numbered n) test ts, (h n).0),
  omega (arith, total-remove_target (luns_numbered n) test ts, (h n).1),
)

count_luns-strip :
    (env : Env) (n : ℕ) (ls : List Lun) → count_luns n (map (strip_lun env) ls) ≡ count_luns n ls
count_luns-strip env n [] = refl
count_luns-strip env n (l ∷ ls) = omega (arith, count_luns-strip env n ls)

total-strip :
    (env : Env) (n : ℕ) (ts : List TargetConf)
    → (total (numbered n) (map (strip_target env) ts) ≡ total (numbered n) ts)
      × (total (luns_numbered n) (map (strip_target env) ts) ≡ total (luns_numbered n) ts)
total-strip env n [] = (refl, refl)
total-strip env n (t ∷ ts) =
    let (ids, luns) = total-strip env n ts in
    (omega (arith, ids), omega (arith, luns, count_luns-strip env n t.lun_list))

pub strip-IsDistinct :
    (env : Env) (ts : List TargetConf) → IsDistinct ts → IsDistinct (map (strip_target env) ts)
strip-IsDistinct env ts h n =
    let (ids, luns) = total-strip env n ts in
    (omega (arith, ids, (h n).0), omega (arith, luns, (h n).1))
