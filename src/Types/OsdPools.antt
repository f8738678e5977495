-- ===== src/Types/OsdPools.antt =====
-- `OsdMap.osds_by_pool` and `osd_pools`. The OSDs of each CRUSH rule, which `osds_by_rule_id` finds in
-- the tree, are an argument.
use calamari.Prelude.{
  ℕ, suc, ◌+◌, ◌≡◌, ◌&&◌, Option, Option-cases, none, some, List, [], ◌∷◌, ◌++◌, ◌==◌, leb,
  if◌then◌else◌, arith, inl, inr, elem,
}
use calamari.Prelude.Dict.{Dict, lookup, insert, lookup-insert, lookup-nil}

-- A rule of the CRUSH map, and what is read of a pool
pub record Rule : Type 0 where
  pub rule_id : ℕ
  pub in_ruleset : ℕ
  pub min_size : ℕ
  pub max_size : ℕ

pub record PlacedPool : Type 0 where
  pub size : ℕ
  pub crush_ruleset : ℕ

-- The OSDs of the last rule that fits, where `none` is a KeyError of `osds_by_rule_id`
unfoldable pub rule_osds :
    Dict (List ℕ) → PlacedPool → List Rule → Option (List ℕ) → Option (Option (List ℕ))
rule_osds by_rule pool [] osds = some osds
rule_osds by_rule pool (r ∷ rules) osds =
    let rest = rule_osds by_rule pool rules in
    if r.in_ruleset == pool.crush_ruleset && (leb r.min_size pool.size && leb pool.size r.max_size)
    then elim (lookup r.rule_id by_rule) [ none ↦ none | some found ↦ rest (some found) ]
    else rest osds

-- Where no rule fits, all OSDs
unfoldable pub osds_by_pool :
    Dict (List ℕ) → List Rule → (osd_ids : List ℕ) → Dict PlacedPool → Option (Dict (List ℕ))
unfolding rule_osds
osds_by_pool by_rule rules osd_ids [] = some []
osds_by_pool by_rule rules osd_ids ((id, pool) ∷ pools) = elim (rule_osds by_rule pool rules none) [
  | none ↦ none
  | some found ↦ elim (osds_by_pool by_rule rules osd_ids pools) [
    | none ↦ none
    | some others ↦ some ((id, elim found [ none ↦ osd_ids | some osds ↦ osds ]) ∷ others)
  ]
]

-- `osds[osd_id].append(pool_id)` for each, but for an OSD that is not in the OSD map
unfoldable pub append_pool : ℕ → List ℕ → Dict (List ℕ) → Dict (List ℕ)
append_pool pool [] osds = osds
append_pool pool (osd ∷ in_pool) osds = elim (lookup osd osds) [
  | none ↦ append_pool pool in_pool osds
  | some pools ↦ append_pool pool in_pool (insert osd (pools ++ pool ∷ []) osds)
]

unfoldable pub append_pools : Dict (List ℕ) → Dict (List ℕ) → Dict (List ℕ)
unfolding append_pool
append_pools [] osds = osds
append_pools ((pool, in_pool) ∷ by_pool) osds = append_pools by_pool (append_pool pool in_pool osds)

abbrev pub no_pools : List ℕ → Dict (List ℕ)
no_pools [] = []
no_pools (osd ∷ osd_ids) = insert osd [] (no_pools osd_ids)

-- `osd_pools`, from the OSDs of each pool
unfoldable pub osd_pools : List ℕ → Dict (List ℕ) → Dict (List ℕ)
unfolding append_pools
osd_pools osd_ids by_pool = append_pools by_pool (no_pools osd_ids)

abbrev times : ℕ → List ℕ → ℕ
times n [] = 0
times n (x ∷ xs) = let m = times n xs in if x == n then suc m else m

-- How often an OSD is listed for a pool of this id
abbrev pub appearances : ℕ → ℕ → Dict (List ℕ) → ℕ
appearances osd pool [] = 0
appearances osd pool ((id, in_pool) ∷ by_pool) =
    let n = appearances osd pool by_pool in if id == pool then times osd in_pool + n else n

times-append : (n : ℕ) (xs ys : List ℕ) → times n (xs ++ ys) ≡ times n xs + times n ys
times-append n [] ys = ground arith
times-append n (x ∷ xs) ys = ground (arith, times-append n xs ys)

abbrev pub listed : ℕ → ℕ → Dict (List ℕ) → Option ℕ
listed osd pool osds = elim (lookup osd osds) [ none ↦ none | some pools ↦ some (times pool pools) ]

abbrev plus : ℕ → Option ℕ → Option ℕ
plus n none = none
plus n (some m) = some (n + m)

listed-append_pool :
    (osd p pool : ℕ) (in_pool : List ℕ) (osds : Dict (List ℕ))
    → listed osd p (append_pool pool in_pool osds)
      ≡ plus (if pool == p then times osd in_pool else 0) (listed osd p osds)
unfolding append_pool
listed-append_pool osd p pool [] osds = ground arith
listed-append_pool osd p pool (o ∷ in_pool) osds = elim (Option-cases (lookup o osds)) [
  | inl e ↦ ground (arith, e, listed-append_pool osd p pool in_pool osds)
  | inr (pools, e) ↦
      let more : List ℕ = pools ++ pool ∷ [] in
      ground (
        arith,
        e,
        listed-append_pool osd p pool in_pool (insert o more osds),
        lookup-insert o osd more osds,
        times-append p pools (pool ∷ []),
      )
]

listed-append_pools :
    (osd p : ℕ) (by_pool osds : Dict (List ℕ))
    → listed osd p (append_pools by_pool osds)
      ≡ plus (appearances osd p by_pool) (listed osd p osds)
unfolding append_pools
listed-append_pools osd p [] osds = ground arith
listed-append_pools osd p ((pool, in_pool) ∷ by_pool) osds = ground (
  arith,
  listed-append_pools osd p by_pool (append_pool pool in_pool osds),
  listed-append_pool osd p pool in_pool osds,
)

listed-no_pools :
    (osd p : ℕ) (osd_ids : List ℕ)
    → listed osd p (no_pools osd_ids) ≡ (if elem osd osd_ids then some 0 else none)
listed-no_pools osd p [] = ground (arith, lookup-nil {V = List ℕ} osd)
listed-no_pools osd p (o ∷ osd_ids) =
    ground (arith, listed-no_pools osd p osd_ids, lookup-insert o osd [] (no_pools osd_ids))

-- An OSD of the map is given each pool as often as the pool lists it; another OSD is not listed.
pub osd_pools_lem :
    (osd pool : ℕ) (osd_ids : List ℕ) (by_pool : Dict (List ℕ))
    → listed osd pool (osd_pools osd_ids by_pool)
      ≡ (if elem osd osd_ids then some (appearances osd pool by_pool) else none)
unfolding osd_pools
osd_pools_lem osd pool osd_ids by_pool = ground (
  arith,
  listed-append_pools osd pool by_pool (no_pools osd_ids),
  listed-no_pools osd pool osd_ids,
)
