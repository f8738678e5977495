-- ===== src/UserRequest/OnMap.antt =====
-- The `on_map` methods: a new version of a cluster map is there.
use calamari.Prelude.{
  ℕ, String, Bool, true, false, Option, none, some, List, [], ◌∷◌, ◌==◌, leb, str_eq, not,
  if◌then◌else◌,
}
use calamari.Prelude.Dict.{Dict, lookup}
use calamari.Exec.{
  ok, or_raise, ◌>>=◌, ◌>>◌, raise, when, require, assertion_error, attribute_error, type_error,
  key_error, index_error, not_implemented_error,
}
use calamari.Types.{
  SyncType, osd_map, pg_summary, same_type, Version, truthy, version_ge, Pool, SyncObject,
  pools_by_id, by_pool, Command, Salt,
}
use calamari.Types.Text.{not_creating}
use calamari.UserRequest.PgProgress.{
  advance_goal, set_created_pg_count, expected_count, is_complete, is_final_block, goal,
}
use calamari.UserRequest.Attributes.{
  jid_wait, osd_map_wait, pg_map_wait, pg_interrupted, pg_failed, pool_not_found, Class, rados,
  salt_request, osd_map_modifying, pool_creating, pg_creating, PoolCreation, PgCreation, set_pg_num,
}
use calamari.UserRequest.Methods.{
  Method, the_request, update, set_error, submit_commands, complete_request,
}

-- The number of placement groups of a pool that have left the state `creating`.
unfoldable pub created_pgs : SyncObject → Option ℕ → Method ℕ
created_pgs so pool_id = do
  pools ← or_raise type_error (by_pool so)
  id ← or_raise key_error pool_id
  states ← or_raise key_error (lookup id pools)
  (λ w. (ok (not_creating states), w))

-- `osd_map.pools_by_id[pool_id]`
unfoldable pub pool_of : SyncObject → ℕ → Method Pool
pool_of so pool_id = do
  pools ← or_raise attribute_error (pools_by_id so)
  or_raise key_error (lookup pool_id pools)

-- The `for … if … break` loop of PoolCreatingRequest: the first pool of that name.
abbrev pub find_pool : String → Dict Pool → Option (ℕ × Pool)
find_pool name [] = none
find_pool name ((id, p) ∷ ps) =
    let rest = find_pool name ps in if str_eq p.pool_name name then some (id, p) else rest

abbrev pub found_pool : Option (ℕ × Pool) → PoolCreation → PoolCreation
found_pool none p = p
found_pool (some (id, pool)) p = record p { pool_id = some id; pg_count = some pool.pg_num }

abbrev pub has_pool_id : PoolCreation → Bool
has_pool_id p = elim (p.pool_id) [ none ↦ false | some _ ↦ true ]

-- `pgs_not_creating >= self._pg_count`: every number is greater than `None`.
abbrev pub reaches : ℕ → Option ℕ → Bool
reaches n none = true
reaches n (some k) = leb k n

abbrev pub set_creation : List Command → PgCreation → Method (Unit {0})
set_creation commands p = update (λ r. record r { class = pg_creating commands p })

module _ (salt : Salt) (t : ℕ) where
  -- OsdMapModifyingRequest
  unfoldable pub on_osd_map_modifying : SyncType → SyncObject → Method (Unit {0})
  on_osd_map_modifying sync_type so = do
    r ← the_request
    require (same_type sync_type osd_map) assertion_error
    or_raise assertion_error r.await_version
    when (version_ge so.version r.await_version) (complete_request t)

  unfoldable pub look_for_pool : List Command → PoolCreation → Method (Unit {0})
  look_for_pool commands p = do
    update (λ r. record r { class = pool_creating commands p })
    when (not (has_pool_id p)) (do set_error (pool_not_found p.pool_name); complete_request t)
    update (λ r. record r { class = pool_creating commands (record p { awaiting_pgs = true }) })

  unfoldable pub on_pool_pgs : PoolCreation → SyncType → SyncObject → Method (Unit {0})
  on_pool_pgs p sync_type so = do
    require (same_type sync_type pg_summary) assertion_error
    n ← created_pgs so p.pool_id
    when (reaches n p.pg_count) (complete_request t)

  unfoldable pub on_pool_osd_map : List Command → PoolCreation → SyncObject → Method (Unit {0})
  on_pool_osd_map commands p so = do
    pools ← or_raise attribute_error (pools_by_id so)
    look_for_pool commands (found_pool (find_pool p.pool_name pools) p)

  unfoldable pub on_pool_version :
      List Command → PoolCreation → SyncType → SyncObject → Version → Method (Unit {0})
  on_pool_version commands p sync_type so version = do
    require (same_type sync_type osd_map) assertion_error
    when (version_ge so.version version) (on_pool_osd_map commands p so)

  -- PoolCreatingRequest
  unfoldable pub on_pool_creating :
      List Command → PoolCreation → SyncType → SyncObject → Method (Unit {0})
  on_pool_creating commands p sync_type so = do
    r ← the_request
    if p.awaiting_pgs
        then on_pool_pgs p sync_type so
        else (if truthy r.await_version
            then on_pool_version commands p sync_type so r.await_version
            else raise not_implemented_error)

  -- The last block is there.
  unfoldable pub after_creation :
      List Command → PgCreation → Option (List Command) → Method (Unit {0})
  after_creation commands p none = raise attribute_error
  after_creation commands p (some []) = complete_request t
  after_creation commands p (some (c ∷ cs)) = do
    submit_commands salt t (c ∷ cs)
    set_creation commands (record p { phase = jid_wait })

  -- The next block of at most `block_size` placement groups.
  unfoldable pub more_creates : List Command → PgCreation → Method (Unit {0})
  more_creates commands p = do
    progress ← (λ w. (advance_goal p.progress, w))
    set_creation commands (record p { progress = progress })
    submit_commands salt t (set_pg_num p.pool_name (goal progress) ∷ [])
    set_creation commands (record p { progress = progress; phase = jid_wait })

  -- `self._pg_progress.set_created_pg_count(pgs_not_creating)` and what follows
  unfoldable pub on_created : ℕ → List Command → PgCreation → Method (Unit {0})
  on_created n commands p = do
    set_creation commands p
    when (leb (goal p.progress) n) (
        if is_final_block p.progress
        then after_creation commands p p.post_create_commands
        else more_creates commands p)

  unfoldable pub on_pg_summary : List Command → PgCreation → SyncObject → Method (Unit {0})
  on_pg_summary commands p so = do
    n ← created_pgs so (some p.pool_id)
    on_created n commands (record p { progress = set_created_pg_count n p.progress })

  -- In the phase PG_MAP_WAIT: somebody else may change pg_num.
  unfoldable pub check_pg_num : PgCreation → SyncObject → Method (Unit {0})
  check_pg_num p so = do
    pool ← pool_of so p.pool_id
    when (not (pool.pg_num == expected_count p.progress))
        (do set_error pg_interrupted; complete_request t)

  unfoldable pub on_awaited_version : List Command → PgCreation → SyncObject → Method (Unit {0})
  on_awaited_version commands p so = do
    r ← the_request
    require (truthy r.await_version) assertion_error
    when (version_ge so.version r.await_version) (
        if is_complete p.progress
        then complete_request t
        else set_creation commands (record p { phase = pg_map_wait }))

  -- In the phase OSD_MAP_WAIT.
  unfoldable pub read_back_pg_num : List Command → PgCreation → SyncObject → Method (Unit {0})
  read_back_pg_num commands p so = do
    pool ← pool_of so p.pool_id
    if not (pool.pg_num == expected_count p.progress)
        then (do set_error pg_failed; complete_request t)
        else on_awaited_version commands p so

  -- PgCreatingRequest. The text of the last error of PG_MAP_WAIT names a field that `format` is
  -- not given, so an IndexError is raised in its place.
  unfoldable pub on_pg_creating :
      List Command → PgCreation → SyncType → SyncObject → Method (Unit {0})
  on_pg_creating commands p sync_type so = elim (p.phase) [
    | jid_wait ↦ raise not_implemented_error
    | osd_map_wait ↦ read_back_pg_num commands p so
    | pg_map_wait ↦ elim sync_type [
      | pg_summary ↦ on_pg_summary commands p so
      | osd_map ↦ check_pg_num p so
      | _ ↦ raise index_error
    ]
  ]

  unfoldable pub on_map_of : Class → SyncType → SyncObject → Method (Unit {0})
  on_map_of (osd_map_modifying commands) sync_type so = on_osd_map_modifying sync_type so
  on_map_of (pool_creating commands p) sync_type so = on_pool_creating commands p sync_type so
  on_map_of (pg_creating commands p) sync_type so = on_pg_creating commands p sync_type so
  on_map_of (rados commands) sync_type so = λ w. (ok tt, w)
  on_map_of (salt_request cmd args) sync_type so = λ w. (ok tt, w)

  -- `request.on_map(sync_type, sync_object)`
  unfoldable pub on_map : SyncType → SyncObject → Method (Unit {0})
  on_map sync_type so = do r ← the_request; on_map_of r.class sync_type so
