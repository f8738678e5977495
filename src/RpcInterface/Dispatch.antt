-- ===== src/RpcInterface/Dispatch.antt =====
-- The calls on a cluster's objects: update, apply, get_valid_commands, create, delete. A cluster's
-- monitor is an argument: its maps' OSDs and pools, and its request methods. `Attributes` are those of
-- a call, which the interface does not read but for their id.
use calamari.Prelude.{ℕ, Bool, Option, List}
use calamari.Prelude.Dict.{Dict, lookup}
use calamari.Exec.{
  Result, ok, err, Exec, raise, require, or_raise, ◌>>=◌, ◌>>◌, not_found, key_error,
  not_implemented_error,
}

-- The object types of calamari_common/types.py that a call names
pub data ObjectType : Type 0 where
  osd pool osd_map crush_map crush_node crush_rule crush_type : ObjectType

-- A call of request_update, request_apply, request_create or request_delete of the monitor
pub data RequestCall (Attributes : Type 0) : Type 0 where
  request_update update_config : ObjectType → ℕ → Attributes → RequestCall Attributes
  request_apply : ObjectType → ℕ → (command : ℕ) → RequestCall Attributes
  request_create : ObjectType → Attributes → RequestCall Attributes
  request_delete : ObjectType → ℕ → RequestCall Attributes

pub record Monitors (State Cluster Attributes : Type 0) : Type 0 where
  pub clusters : State → Dict Cluster
  pub has_osd : Cluster → ℕ → State → Bool
  pub has_pool : Cluster → ℕ → State → Bool
  -- the request's id, or none where nothing is to do
  pub request : Cluster → RequestCall Attributes → Exec State (Option ℕ)
  pub valid_commands : Cluster → List ℕ → Exec State (List (ℕ × List ℕ))
  -- `if 'id' not in attributes: attributes['id'] = object_id`
  pub with_id : ℕ → Attributes → Attributes

module _ {State Cluster Attributes : Type 0} (monitors : Monitors State Cluster Attributes) where
  -- `_fs_resolve`, `_osd_resolve`, `_pool_resolve`
  unfoldable pub fs_resolve : ℕ → Exec State Cluster
  fs_resolve fs_id s = or_raise not_found (lookup fs_id (monitors.clusters s)) s

  unfoldable pub osd_resolve : Cluster → ℕ → Exec State (Unit {0})
  osd_resolve cluster osd_id s = require (monitors.has_osd cluster osd_id s) not_found s

  unfoldable pub pool_resolve : Cluster → ℕ → Exec State (Unit {0})
  pool_resolve cluster pool_id s = require (monitors.has_pool cluster pool_id s) not_found s

  unfoldable pub update : ℕ → ObjectType → ℕ → Attributes → Exec State (Option ℕ)
  unfolding fs_resolve osd_resolve pool_resolve
  update fs_id osd object_id attributes = do
    cluster ← fs_resolve fs_id
    osd_resolve cluster object_id
    monitors.request cluster (request_update osd object_id (monitors.with_id object_id attributes))
  update fs_id pool object_id attributes = do
    cluster ← fs_resolve fs_id
    pool_resolve cluster object_id
    monitors.request cluster (request_update pool object_id (monitors.with_id object_id attributes))
  update fs_id osd_map object_id attributes = do
    cluster ← fs_resolve fs_id
    monitors.request cluster (update_config osd object_id attributes)
  update fs_id crush_map object_id attributes = do
    cluster ← fs_resolve fs_id
    monitors.request cluster (request_update crush_map object_id attributes)
  update fs_id crush_node object_id attributes = do
    cluster ← fs_resolve fs_id
    monitors.request cluster (request_update crush_node object_id attributes)
  update fs_id _ object_id attributes = do fs_resolve fs_id; raise not_implemented_error

  unfoldable pub apply : ℕ → ObjectType → ℕ → ℕ → Exec State (Option ℕ)
  unfolding fs_resolve osd_resolve
  apply fs_id osd object_id command = do
    cluster ← fs_resolve fs_id
    osd_resolve cluster object_id
    monitors.request cluster (request_apply osd object_id command)
  apply fs_id _ object_id command = do fs_resolve fs_id; raise not_implemented_error

  -- `except KeyError: raise NotFound`
  abbrev pub found_commands :
      Result (List (ℕ × List ℕ)) × State → Result (List (ℕ × List ℕ)) × State
  found_commands (ok l, s) = (ok l, s)
  found_commands (err key_error, s) = (err not_found, s)
  found_commands (err e, s) = (err e, s)

  -- The type is tested before the cluster is looked up.
  unfoldable pub get_valid_commands : ℕ → ObjectType → List ℕ → Exec State (List (ℕ × List ℕ))
  unfolding fs_resolve
  get_valid_commands fs_id osd object_ids = do
    cluster ← fs_resolve fs_id
    λ s. found_commands (monitors.valid_commands cluster object_ids s)
  get_valid_commands fs_id _ object_ids = raise not_implemented_error

  unfoldable pub create : ℕ → ObjectType → Attributes → Exec State (Option ℕ)
  unfolding fs_resolve
  create fs_id pool attributes = do
    cluster ← fs_resolve fs_id
    monitors.request cluster (request_create pool attributes)
  create fs_id crush_node attributes = do
    cluster ← fs_resolve fs_id
    monitors.request cluster (request_create crush_node attributes)
  create fs_id _ attributes = do fs_resolve fs_id; raise not_implemented_error

  unfoldable pub delete : ℕ → ObjectType → ℕ → Exec State (Option ℕ)
  unfolding fs_resolve
  delete fs_id pool object_id = do
    cluster ← fs_resolve fs_id
    monitors.request cluster (request_delete pool object_id)
  delete fs_id crush_node object_id = do
    cluster ← fs_resolve fs_id
    monitors.request cluster (request_delete crush_node object_id)
  delete fs_id _ object_id = do fs_resolve fs_id; raise not_implemented_error
