-- ===== src/Types.antt =====
-- calamari-common/calamari_common/types.py: the objects that a cluster's monitors publish, and how
-- their versions compare. Also the calls that the program makes of salt's LocalClient.
pub mod Text
pub mod OsdPools
use Prim.Native.Nat.{compare, Ordering}
use calamari.Prelude.{
  ℕ, String, Bool, true, false, Option, none, some, List, [], ◌∷◌, map, ◌==◌, if◌then◌else◌,
}
use calamari.Prelude.Dict.{Dict, insert}

-- SYNC_OBJECT_TYPES
pub data SyncType : Type 0 where
  mds_map osd_map mon_map mon_status pg_summary health config : SyncType

abbrev pub sync_object_types : List SyncType
sync_object_types = mds_map ∷ osd_map ∷ mon_map ∷ mon_status ∷ pg_summary ∷ health ∷ config ∷ []

unfoldable pub type_index : SyncType → ℕ
type_index mds_map = 0
type_index osd_map = 1
type_index mon_map = 2
type_index mon_status = 3
type_index pg_summary = 4
type_index health = 5
type_index config = 6

-- The types are classes, compared by identity.
unfoldable pub same_type : SyncType → SyncType → Bool
unfolding type_index
same_type a b = type_index a == type_index b

-- Which classes derive from VersionedSyncObject.
unfoldable pub is_versioned : SyncType → Bool
is_versioned mds_map = true
is_versioned osd_map = true
is_versioned mon_map = true
is_versioned mon_status = true
is_versioned _ = false

-- `None`, an epoch, or (for the other classes) a hash, which is only compared for equality.
abbrev pub Version : Type 0
Version = Option ℕ

-- Python 2's built-in `cmp`: `None` comes before every number.
abbrev pub cmp_builtin : Version → Version → Ordering
cmp_builtin none none = Ordering.eq
cmp_builtin none (some b) = Ordering.lt
cmp_builtin (some a) none = Ordering.gt
cmp_builtin (some a) (some b) = compare a b

abbrev pub cmp_hash : Version → Version → Ordering
cmp_hash none none = Ordering.eq
cmp_hash none (some b) = Ordering.gt
cmp_hash (some a) none = Ordering.gt
cmp_hash (some a) (some b) = if a == b then Ordering.eq else Ordering.gt

-- `sync_type.cmp(a, b)`; 1, 0 and -1 are `gt`, `eq` and `lt`.
unfoldable pub cmp : SyncType → Version → Version → Ordering
cmp t a b = if is_versioned t then cmp_builtin a b else cmp_hash a b

-- `cmp(…) > 0`
abbrev pub is_positive : Ordering → Bool
is_positive Ordering.gt = true
is_positive _ = false

-- `cmp(…) >= 0`
abbrev pub is_nonnegative : Ordering → Bool
is_nonnegative Ordering.lt = false
is_nonnegative _ = true

-- `a >= b` of two versions that may be `None`
abbrev pub version_ge : Version → Version → Bool
version_ge a b = is_nonnegative (cmp_builtin a b)

-- Truth of an optional number: `None` and 0 are false.
abbrev pub truthy : Option ℕ → Bool
truthy none = false
truthy (some n) = if n == 0 then false else true

pub record Pool : Type 0 where
  pub pool : ℕ
  pub pool_name : String
  pub pg_num : ℕ
  pub size : ℕ
  pub min_size : ℕ

pub record Osd : Type 0 where
  pub osd : ℕ
  pub up : ℕ
  pub in_cluster : ℕ

-- What the modelled code reads of an object's JSON. A state tuple of a placement group is the text
-- of its states, joined by `+`, as code points.
pub data MapData : Type 0 where
  osd_map_data : List Osd → List Pool → MapData
  pg_summary_data : Dict (List (List ℕ × ℕ)) → MapData
  mon_status_data : (quorum : List ℕ) → MapData
  health_data : (overall_status : ℕ) → MapData
  other_data : MapData

pub record SyncObject : Type 0 where
  pub version : Version
  pub contents : Option MapData

-- `t(None, None)`
abbrev pub null_object : SyncObject
null_object = record { version = none; contents = none }

abbrev pub index_pools : List Pool → Dict Pool → Dict Pool
index_pools [] d = d
index_pools (p ∷ ps) d = index_pools ps (insert p.pool p d)

-- `OsdMap.pools_by_id`; `none` where the object is of a class that has no such attribute.
unfoldable pub pools_by_id : SyncObject → Option (Dict Pool)
pools_by_id so = elim (so.contents) [
  | none ↦ some []
  | some (osd_map_data osds pools) ↦ some (index_pools pools [])
  | some _ ↦ none
]

abbrev pub index_osds : List Osd → Dict Osd → Dict Osd
index_osds [] d = d
index_osds (o ∷ os) d = index_osds os (insert o.osd o d)

-- `OsdMap.osds_by_id`
unfoldable pub osds_by_id : SyncObject → Option (Dict Osd)
osds_by_id so = elim (so.contents) [
  | none ↦ some []
  | some (osd_map_data osds pools) ↦ some (index_osds osds [])
  | some _ ↦ none
]

-- `pg_summary.data['by_pool']`
unfoldable pub by_pool : SyncObject → Option (Dict (List (List ℕ × ℕ)))
by_pool so = elim (so.contents) [ some (pg_summary_data d) ↦ some d | _ ↦ none ]

-- A value in a command's arguments. `number` is an integer; `weight` a float, which is only
-- passed on.
pub data Arg : Type 0 where
  text : String → Arg
  number : ℕ → Arg
  strings : List String → Arg
  weight : ℕ → Arg

-- A mon command: `(prefix, {key: value})`.
abbrev pub Command : Type 0
Command = String × List (String × Arg)

-- A call of `LocalClient.run_job`, salt's client for starting a job on minions.
pub data Job : Type 0 where
  rados_commands : (minion : Option ℕ) (fsid : Option ℕ) (commands : List Command) → Job
  salt_call : (minion : Option ℕ) (cmd : String) (args : List Arg) → Job
  get_cluster_object : (minion : ℕ) (sync_type : SyncType) → Job
  saltutil_running : (minions : List (Option ℕ)) → Job
  kill_job : (minion : Option ℕ) (jid : ℕ) → Job

-- What salt answers, given the calls made so far (newest first) and the new one: the new job's
-- id, or nothing where the job could not be published.
abbrev pub Salt : Type 0
Salt = List Job → Job → Option ℕ
