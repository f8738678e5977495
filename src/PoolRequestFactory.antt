-- ===== src/PoolRequestFactory.antt =====
-- cthulhu/cthulhu/manager/pool_request_factory.py: the requests that create, change and delete a
-- pool. `id` is the new request's `uuid`.
pub mod MinSize
pub mod Growing
use calamari.Prelude.{
  ℕ, ◌-◌, ◌*◌, ◌/◌, min, String, Bool, true, false, Option, none, some, List, [], ◌∷◌, ◌++◌, ◌==◌,
  ◌||◌, length, is_empty, if◌then◌else◌,
}
use calamari.Prelude.Dict.{Dict, lookup, insert}
use calamari.Exec.{
  Exec, ok, err, pure, gets, or_raise, ◌>>=◌, ◌>>◌, key_error, type_error, attribute_error,
  not_implemented_error,
}
use calamari.Types.{
  Pool, Osd, osd_map_data, SyncObject, pools_by_id, osds_by_id, Arg, text, number, Command,
}
use calamari.UserRequest.{
  Request, osd_map_modifying, new_request, new_pool_creating, new_pg_creating, set_pg_num,
}

-- The attributes of a pool that a user gives; a missing key is `none`.
pub record Attributes : Type 0 where
  pub name : Option String
  pub size : Option ℕ
  pub min_size : Option ℕ
  pub crash_replay_interval : Option ℕ
  pub pg_num : Option ℕ
  pub pgp_num : Option ℕ
  pub crush_ruleset : Option ℕ
  pub hashpspool : Option Bool
  pub quota_max_bytes : Option String  -- in the text that `__str__` gives
  pub quota_max_objects : Option String

-- The items of Ceph's configuration that are read, as numbers; a missing one is `none`.
pub record Config : Type 0 where
  pub default_size : Option ℕ
  pub default_min_size : Option ℕ
  pub max_split_count : Option ℕ

-- What a factory reads of its monitor: the OSD map and the configuration, `none` before it came.
pub record Source : Type 0 where
  pub fsid : ℕ
  pub map : SyncObject
  pub config : Option Config

-- A method of the factory, which reads its monitor and may raise.
abbrev pub Factory : Type 0 → Type 0
Factory A = Exec Source A

-- `self._resolve_pool(pool_id)`
unfoldable pub resolve_pool : ℕ → Factory Pool
resolve_pool pool_id s =
    (do
      pools ← or_raise attribute_error (pools_by_id s.map)
      or_raise key_error (lookup pool_id pools))
      s

abbrev set_number : String → String → Option ℕ → List Command
set_number pool_name var none = []
set_number pool_name var (some n) =
    ("osd pool set", ("pool", text pool_name) ∷ ("var", text var) ∷ ("val", number n) ∷ []) ∷ []

-- A Boolean is set as 0 or 1.
abbrev as_number : Option Bool → Option ℕ
as_number none = none
as_number (some b) = some (if b then 1 else 0)

abbrev set_quota : String → String → Option String → List Command
set_quota pool_name field none = []
set_quota pool_name field (some val) =
    (
      "osd pool set-quota",
      ("pool", text pool_name) ∷ ("field", text field) ∷ ("val", text val) ∷ [],
    )
    ∷ []

abbrev rename_pool : String → Option String → List Command
rename_pool pool_name none = []
rename_pool pool_name (some name) =
    ("osd pool rename", ("srcpool", text pool_name) ∷ ("destpool", text name) ∷ []) ∷ []

-- `_pool_attribute_commands`, in the order of POOL_PROPERTIES.
unfoldable pub pool_attribute_commands : String → Attributes → List Command
pool_attribute_commands pool_name a =
    set_number pool_name "size" a.size
    ++ set_number pool_name "min_size" a.min_size
    ++ set_number pool_name "crash_replay_interval" a.crash_replay_interval
    ++ set_number pool_name "pg_num" a.pg_num
    ++ set_number pool_name "pgp_num" a.pgp_num
    ++ set_number pool_name "crush_ruleset" a.crush_ruleset
    ++ set_number pool_name "hashpspool" (as_number a.hashpspool)
    ++ set_quota pool_name "max_bytes" a.quota_max_bytes
    ++ set_quota pool_name "max_objects" a.quota_max_objects
    ++ rename_pool pool_name a.name

-- `req or int(ceph_config.get(…), 0)`
abbrev pub or_default : ℕ → (Config → Option ℕ) → Factory ℕ
or_default req field s =
    if req == 0
    then (do c ← or_raise attribute_error s.config; or_raise type_error (field c)) s
    else (ok req, s)

-- `_pool_min_size`
unfoldable pub pool_min_size : ℕ → ℕ → Factory ℕ
pool_min_size req_size req_min_size = do
  size ← or_default req_size (λ c. c.default_size)
  min_size ← or_default req_min_size (λ c. c.default_min_size)
  pure (if min_size == 0 then size - size / 2 else min min_size size)

-- `delete`
unfoldable pub delete : ℕ → ℕ → Factory Request
delete id pool_id = do
  pool ← resolve_pool pool_id
  s ← gets (λ s. s)
  pure (
      new_request id (some s.fsid) (
        osd_map_modifying (
          (
            "osd pool delete",
            ("pool", text pool.pool_name)
                ∷ ("pool2", text pool.pool_name)
                ∷ ("sure", text "--yes-i-really-really-mean-it")
                ∷ [],
          )
          ∷ [])))

-- `attributes.get(key, default)`
abbrev get : Option ℕ → ℕ → ℕ
get none default = default
get (some n) default = n

abbrev is_given : Option ℕ → Bool
is_given none = false
is_given (some n) = true

-- The minimum size follows a change of either size.
unfoldable pub clamp : Pool → Attributes → Factory Attributes
clamp pool a =
    if is_given a.size || is_given a.min_size
    then (do
      n ← pool_min_size (get a.size pool.size) (get a.min_size pool.min_size)
      pure (record a { min_size = some n }))
    else pure a

-- LEGACY_MON_OSD_MAX_SPLIT_COUNT
abbrev pub legacy_max_split_count : ℕ
legacy_max_split_count = 32

-- `update` of a pool's pg_num, by way of a PgCreatingRequest.
unfoldable pub grow : ℕ → ℕ → Pool → Attributes → ℕ → Factory Request
grow id pool_id pool a final s =
    (do
      config ← or_raise attribute_error s.config
      osds ← or_raise attribute_error (osds_by_id s.map)
      (λ s. (
        new_pg_creating id s.fsid
            (pool_attribute_commands pool.pool_name (record a { pg_num = none; pgp_num = none }))
            pool_id pool.pool_name (get a.pgp_num final) pool.pg_num final
            (get config.max_split_count legacy_max_split_count * min pool.pg_num (length osds)),
        s,
      )))
      s

unfoldable pub modify_pool : ℕ → Pool → Attributes → Factory Request
modify_pool id pool a s =
    let commands = pool_attribute_commands pool.pool_name a in
    if is_empty commands
    then (err not_implemented_error, s)
    else (ok (new_request id (some s.fsid) (osd_map_modifying commands)), s)

-- `update`
unfoldable pub update : ℕ → ℕ → Attributes → Factory Request
update id pool_id a = do
  pool ← resolve_pool pool_id
  b ← clamp pool a
  elim b.pg_num [ none ↦ modify_pool id pool b | some final ↦ grow id pool_id pool b final ]

-- `create`
unfoldable pub create : ℕ → Attributes → Factory Request
create id a = do
  name ← or_raise key_error a.name
  pg_num ← or_raise key_error a.pg_num
  n ← pool_min_size (get a.size 0) (get a.min_size 0)
  let post = record a { name = none; pg_num = none; pgp_num = none; min_size = some n }
  s ← gets (λ s. s)
  pure (
      new_pool_creating id s.fsid name (
        ("osd pool create", ("pool", text name) ∷ ("pg_num", number pg_num) ∷ [])
        ∷ pool_attribute_commands name post))
