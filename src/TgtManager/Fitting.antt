-- ===== src/TgtManager/Fitting.antt =====
-- Changes of one target that keep the ids and the LUNs' numbers distinct.
use calamari.Prelude.{
  ℕ, ◌+◌, ◌≤◌, ◌≡◌, refl, ◌∙◌, Bool, Bool-cases, some, List, [], ◌∷◌, ◌++◌, ◌==◌, map, arith, inl,
  inr,
}
use calamari.TgtManager.Conf.{Lun, TargetConf}
use calamari.TgtManager.Luns.{numbers, find_lun, remove_lun}
use calamari.TgtManager.Targets.{find_target, replace_target, generate_id, all_luns}
use calamari.TgtManager.Distinct.{
  total, numbered, count_luns, luns_numbered, IsDistinct, times-generate_id, total-all_luns,
  count_luns-append, total-replace_target,
}

-- What a changed target may have: what the old one had, or what no target has
abbrev pub Fits : List TargetConf → TargetConf → TargetConf → Type 0
Fits ts old new =
    (n : ℕ)
    → (total (numbered n) ts + numbered n new ≤ 1 + numbered n old)
      × (total (luns_numbered n) ts + luns_numbered n new ≤ 1 + luns_numbered n old)

pub replace_target-IsDistinct :
    (test : TargetConf → Bool) (old new : TargetConf) (ts : List TargetConf)
    → find_target test ts ≡ some old
    → Fits ts old new
    → IsDistinct (replace_target test new ts)
replace_target-IsDistinct test old new ts e f n = (
  omega (arith, total-replace_target (numbered n) test old new ts e, (f n).0),
  omega (arith, total-replace_target (luns_numbered n) test old new ts e, (f n).1),
)

pub same-Fits :
    (ts : List TargetConf) (old new : TargetConf)
    → IsDistinct ts
    → new.id ≡ old.id
    → ((n : ℕ) → luns_numbered n new ≡ luns_numbered n old)
    → Fits ts old new
same-Fits ts old new h id luns n = (rw id (omega (arith, (h n).0)), omega (arith, (h n).1, luns n))

-- A new LUN with a generated number
pub add-Fits :
    (ts : List TargetConf) (old : TargetConf) (l : Lun)
    → IsDistinct ts
    → l.lun ≡ generate_id (numbers (all_luns ts))
    → Fits ts old (record old { lun_list = old.lun_list ++ l ∷ [] })
add-Fits ts old l h fresh n =
    let lists = count_luns-append n old.lun_list (l ∷ []) in
    (
      omega (arith, (h n).0),
      elim (Bool-cases (l.lun == n)) [
        | inl same ↦
            let le : generate_id (numbers (all_luns ts)) ≤ n = ground (arith, same, fresh) in
            let none_yet = total-all_luns n ts ∙ times-generate_id n (numbers (all_luns ts)) le in
            ground (arith, lists, none_yet, same)
        | inr other ↦ ground (arith, lists, (h n).1, other)
      ],
    )

-- A LUN that moves to the end keeps its number.
pub count_luns-find_lun :
    (n : ℕ) (test : Lun → Bool) (l l' : Lun) (ls : List Lun)
    → find_lun test ls ≡ some l
    → l'.lun ≡ l.lun
    → count_luns n (remove_lun test ls ++ l' ∷ []) ≡ count_luns n ls
count_luns-find_lun n test l l' [] e same = absurd (ground (arith, e))
count_luns-find_lun n test l l' (x ∷ ls) e same = elim (Bool-cases (test x)) [
  | inl yes₁ ↦
      let k : x ≡ l = ground (arith, rw (find_lun, yes₁) at e) in
      let lists = count_luns-append n ls (l' ∷ []) in rw (yes₁, k) (ground (arith, lists, same))
  | inr no₁ ↦
      let h = count_luns-find_lun n test l l' ls (rw (find_lun, no₁) at e) same in
      rw (no₁) (omega (arith, h))
]

count_luns-map :
    (n iqn : ℕ) (ls : List Lun)
    → count_luns n (map (λ (l : Lun). record l { iqn = iqn }) ls) ≡ count_luns n ls
count_luns-map n iqn [] = refl
count_luns-map n iqn (l ∷ ls) = omega (arith, count_luns-map n iqn ls)

-- A target under another name, with its LUNs
pub rename-Fits :
    (ts : List TargetConf) (old : TargetConf) (iqn : ℕ)
    → IsDistinct ts
    → Fits ts old (record old {
      iqn = iqn;
      lun_list = map (λ (l : Lun). record l { iqn = iqn }) old.lun_list;
    })
rename-Fits ts old iqn h n =
    (omega (arith, (h n).0), omega (arith, (h n).1, count_luns-map n iqn old.lun_list))

count_luns-remove_lun :
    (n : ℕ) (test : Lun → Bool) (ls : List Lun)
    → count_luns n (remove_lun test ls) ≤ count_luns n ls
count_luns-remove_lun n test [] = omega arith
count_luns-remove_lun n test (l ∷ ls) = elim (Bool-cases (test l)) [
  | inl yes₁ ↦ rw yes₁ (omega arith)
  | inr no₁ ↦ rw no₁ (omega (arith, count_luns-remove_lun n test ls))
]

pub remove_lun-Fits :
    (ts : List TargetConf) (old : TargetConf) (test : Lun → Bool)
    → IsDistinct ts
    → Fits ts old (record old { lun_list = remove_lun test old.lun_list })
remove_lun-Fits ts old test h n =
    (omega (arith, (h n).0), omega (arith, (h n).1, count_luns-remove_lun n test old.lun_list))
