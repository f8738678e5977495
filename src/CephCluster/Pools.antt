-- ===== src/CephCluster/Pools.antt =====
-- The commands on pools: `pool_create`, `pool_update`, `pool_delete`, and `_create_pgs`.
use calamari.Prelude.{
  ℕ, zero, suc, ◌+◌, ◌-◌, ◌*◌, min, Bool, true, false, not, ◌&&◌, ◌||◌, Option, none, some, List,
  [], ◌∷◌, ◌++◌, ◌==◌, if◌then◌else◌, ltb, length, keep, map, elem, max,
}
use calamari.Prelude.Dict.{lookup, insert}
use calamari.Exec.{
  ok, err, gets, ◌>>=◌, ◌>>◌, modify, when, require, each, or_raise, index_error, key_error,
  value_error, runtime_error,
}
use calamari.CephCluster.PgMonitor.{Words, Pg, Pool, Cluster, Step, pseudorandom_subset}

-- `[p for p in pools if test(p)][0]`
abbrev pub first_pool : (Pool → Bool) → List Pool → Option Pool
first_pool test [] = none
first_pool test (p ∷ ps) = if test p then some p else first_pool test ps

-- An assignment to an item of the pool that `first_pool` finds
abbrev pub change_pool : (Pool → Bool) → (Pool → Pool) → List Pool → List Pool
change_pool test f [] = []
change_pool test f (p ∷ ps) =
    let rest = change_pool test f ps in if test p then f p ∷ ps else p ∷ rest

abbrev pub has_id : ℕ → Pool → Bool
has_id pool_id p = p.pool == pool_id

abbrev pub has_name : ℕ → Pool → Bool
has_name pool_name p = p.pool_name == pool_name

-- `range(a, a + n)`
abbrev pub range_from : ℕ → ℕ → List ℕ
range_from a zero = []
range_from a (suc n) = a ∷ range_from (suc a) n

abbrev pub new_words : Words
new_words = record {
  active = false;
  clean = false;
  creating = true;
  remapped = false;
  stale = false;
  empty_word = false;
}

abbrev pub raise_epoch : Cluster → Cluster
raise_epoch c = record c { epoch = c.epoch + 1 }

-- `max(ids)`, which raises a ValueError where there is none
abbrev pub max_of : List ℕ → Option ℕ
max_of [] = none
max_of (x ∷ xs) = elim (max_of xs) [ none ↦ some x | some m ↦ some (max x m) ]

-- `_pool_template`; the other items have their numbers as keys.
abbrev pub pool_template : ℕ → ℕ → ℕ → Pool
pool_template pool_name pool_id pg_num = record {
  pool = pool_id;
  pool_name = pool_name;
  size = 2;
  pg_num = pg_num;
  pg_placement_num = pg_num;
  others = (0, 1) ∷ (1, 2) ∷ (2, 0) ∷ (3, 0) ∷ (4, 0) ∷ [];
}

-- The item that `pool_update` sets
pub data Var : Type 0 where
  pg_num_var pgp_num_var size_var : Var
  other_var : (key : ℕ) → Var

abbrev pub item : Var → Pool → Option ℕ
item pg_num_var p = some p.pg_num
item pgp_num_var p = some p.pg_placement_num
item size_var p = some p.size
item (other_var key) p = lookup key p.others

abbrev pub set_item : Var → ℕ → Pool → Pool
set_item pg_num_var val p = record p { pg_num = val }
set_item pgp_num_var val p = record p { pg_placement_num = val }
set_item size_var val p = record p { size = val }
set_item (other_var key) val p = record p { others = insert key val p.others }

abbrev pub counts_pgs : Var → Bool
counts_pgs pg_num_var = true
counts_pgs pgp_num_var = true
counts_pgs _ = false

-- `'creating' in states`, the words of all placement groups of the pool
unfoldable pub is_creating : ℕ → List Pg → Bool
is_creating pool_id [] = false
is_creating pool_id (pg ∷ pgs) =
    (pg.pgid.0 == pool_id && pg.state.creating) || is_creating pool_id pgs

module _ (hash : ℕ × ℕ → ℕ → ℕ) where
  unfoldable pub create_pg : ℕ → ℕ → ℕ → Step (Unit {0})
  unfolding pseudorandom_subset
  create_pg pool_id size i c =
      elim (pseudorandom_subset hash (range_from 0 (length c.osds)) size (pool_id, i)) [
        | err e ↦ (err e, c)
        | ok osds ↦
            let pg : Pg = record {
              pgid = (pool_id, i);
              state = new_words;
              up = osds;
              acting = osds;
            } in
            (ok tt, record c { pg_brief = c.pg_brief ++ pg ∷ [] })
      ]

  unfoldable pub create_pgs : ℕ → List ℕ → Step (Unit {0})
  unfolding create_pg
  create_pgs pool_id new_ids = do
    found ← gets (λ c. first_pool (has_id pool_id) c.pools)
    pool ← or_raise index_error found
    each (create_pg pool.pool pool.size) new_ids
    modify (λ c. record c { pg_version = c.pg_version + 1 })

  unfoldable pub pool_create : (pool_name pg_num : ℕ) → Step (Unit {0})
  unfolding create_pgs
  pool_create pool_name pg_num c =
      if elem pool_name (map (λ p. p.pool_name) c.pools)
      then (ok tt, c)
      else (do
        last ← or_raise value_error (max_of (map (λ p. p.pool) c.pools))
        modify
            (λ c'. record c' { pools = c'.pools ++ pool_template pool_name (last + 1) pg_num ∷ [] })
        modify raise_epoch
        create_pgs (last + 1) (range_from 0 pg_num))
          c

  -- Growing a pool, within the number of placement groups that its OSDs split at once
  unfoldable pub grow : Pool → ℕ → Step (Unit {0})
  unfolding create_pgs
  grow pool val c =
      if ltb (min pool.pg_num (length c.osds) * c.max_split_count) (val - pool.pg_num)
      then (err runtime_error, c)
      else create_pgs pool.pool (range_from pool.pg_num (val - pool.pg_num)) c

  abbrev pub is_pg_num : Var → Bool
  is_pg_num pg_num_var = true
  is_pg_num _ = false

  -- `if pool[var] != val`
  unfoldable pub assign : ℕ → Var → ℕ → Pool → Step (Unit {0})
  assign pool_name var val pool c = elim (item var pool) [
    | none ↦ (err key_error, c)
    | some old ↦ if old == val then (ok tt, c) else (
      ok tt,
      raise_epoch
          (record c { pools = change_pool (has_name pool_name) (set_item var val) c.pools }),
    )
  ]

  unfoldable pub pool_update : ℕ → Var → ℕ → Step (Unit {0})
  unfolding is_creating grow assign
  pool_update pool_name var val = do
    found ← gets (λ c. first_pool (has_name pool_name) c.pools)
    pool ← or_raise index_error found
    busy ← gets (λ c. is_creating pool.pool c.pg_brief)
    require (not (counts_pgs var && busy)) runtime_error
    when (is_pg_num var) (grow pool val)
    assign pool_name var val pool

  unfoldable pub pool_delete : ℕ → Step (Unit {0})
  pool_delete pool_name c =
      if elem pool_name (map (λ p. p.pool_name) c.pools)
      then (
        ok tt,
        raise_epoch (record c { pools = keep (λ p. not (has_name pool_name p)) c.pools }),
      )
      else (ok tt, c)
