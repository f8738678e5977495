-- ===== src/SaltModule/Objects.antt =====
-- What a monitor's server tells of its cluster: `rados_command`, `cluster_status` with the versions
-- of the maps, and `get_cluster_object` with one map. Parameters are librados, crushtool, the
-- admin socket, JSON and the digests: what a query answers, how a buffer is read, and which items a
-- value has.
use calamari.Prelude.{ℕ, Bool, true, false, Option, none, some, List, ◌==◌}
use calamari.Exec.{
  Exec, ok, err, pure, raise, gets, ◌>>=◌, ◌>>◌, require, or_raise, key_error, type_error,
  rados_error, monitoring_error,
}
use calamari.Types.{SyncType, mds_map, osd_map, mon_map, mon_status, pg_summary, health, config}
use calamari.SaltModule.PgSummary.{Pg, Summary}
use calamari.SaltModule.PgSummary as PgSummary

-- `ret, outbuf, outs`, the answer of json_command and of crushtool
pub record Answer (Raw : Type 0) : Type 0 where
  pub ret : ℕ
  pub outbuf : Raw
  pub outs : ℕ

-- A command that only reads, with its arguments
pub data Query (Json : Type 0) : Type 0 where
  query_mon_status query_status query_health query_pgs_brief query_mon_dump : Query Json
  query_osd_dump query_mds_dump query_crush_dump : Query Json
  query_osd_tree query_getcrushmap : (epoch : Json) → Query Json
  query_osd_metadata : (id : Json) → Query Json

-- The keys that are looked up
pub data Key : Type 0 where
  fsid election_epoch epoch monmap osdmap mdsmap osds osd : Key

pub record Ceph (Cluster Raw Json Digest : Type 0) : Type 0 where
  pub connects : Cluster → Bool
  pub ask : Query Json → Cluster → Answer Raw
  -- `admin_socket(mon_socket, ['config', 'show'], 'json')` of the socket that glob finds first, where
  -- `none` is an AdminSocketError
  pub config_show : Cluster → Option Raw
  pub decompile : Raw → Answer Raw
  -- `if outbuf`, and `json.loads(outbuf)`, where `none` is a ValueError
  pub is_empty_buffer : Raw → Bool
  pub loads : Raw → Option Json
  pub item : Key → Json → Option Json
  pub elements : Json → List Json
  pub pgs_of : Json → List Pg
  pub md5 : Raw → Digest
  pub md5_of_summary : Summary → Digest

pub data Version (Json Digest : Type 0) : Type 0 where
  value : Json → Version Json Digest
  digest : Digest → Version Json Digest

pub data Contents (Raw Json : Type 0) : Type 0 where
  plain : Json → Contents Raw Json
  summary : Summary → Contents Raw Json
  with_crush :
      (map tree crush : Json) (crush_map_text : Raw) (osd_metadata : List (Json × Json))
      → Contents Raw Json

pub record ClusterObject (Raw Json Digest : Type 0) : Type 0 where
  pub object_type : SyncType
  pub object_fsid : Json
  pub version : Version Json Digest
  pub contents : Contents Raw Json

pub record Status (Json Digest : Type 0) : Type 0 where
  pub name : ℕ
  pub status_fsid : Json
  pub versions : SyncType → Version Json Digest

module _ {Cluster Raw Json Digest : Type 0} (ceph : Ceph Cluster Raw Json Digest) where
  abbrev pub connect : Exec Cluster (Unit {0})
  connect cluster = require (ceph.connects cluster) rados_error cluster

  -- `rados_command` with decode=False, and as it is called otherwise
  unfoldable pub rados_raw : Query Json → Exec Cluster Raw
  rados_raw query = do
    answer ← gets (ceph.ask query)
    require (answer.ret == 0) rados_error
    pure answer.outbuf

  unfoldable pub decode : Raw → Exec Cluster (Option Json)
  decode raw cluster = elim (ceph.is_empty_buffer raw) [
    | true ↦ (ok none, cluster)
    | false ↦ elim (ceph.loads raw) [
      | none ↦ (err monitoring_error, cluster)
      | some j ↦ (ok (some j), cluster)
    ]
  ]

  unfoldable pub rados_command : Query Json → Exec Cluster (Option Json)
  unfolding rados_raw decode
  rados_command query = do raw ← rados_raw query; decode raw

  -- `answer[key]`; None has no items.
  unfoldable pub get : Key → Option Json → Exec Cluster Json
  get key none = raise type_error
  get key (some j) = or_raise key_error (ceph.item key j)

  -- `_get_config`
  unfoldable pub get_config : Exec Cluster Raw
  get_config cluster = or_raise monitoring_error (ceph.config_show cluster) cluster

  abbrev pub versions_of :
      Json → Json → Json → Json → Digest → Digest → Digest → SyncType → Version Json Digest
  versions_of mon_status_ mon osd_ mds pgs health_ config_ mon_status = value mon_status_
  versions_of mon_status_ mon osd_ mds pgs health_ config_ mon_map = value mon
  versions_of mon_status_ mon osd_ mds pgs health_ config_ osd_map = value osd_
  versions_of mon_status_ mon osd_ mds pgs health_ config_ mds_map = value mds
  versions_of mon_status_ mon osd_ mds pgs health_ config_ pg_summary = digest pgs
  versions_of mon_status_ mon osd_ mds pgs health_ config_ health = digest health_
  versions_of mon_status_ mon osd_ mds pgs health_ config_ config = digest config_

  -- `pg_summary(pgs_brief)` of what was read; None cannot be iterated.
  unfoldable pub summarise : Option Json → Exec Cluster Summary
  summarise none = raise type_error
  summarise (some j) = pure (PgSummary.pg_summary (ceph.pgs_of j))

  unfoldable pub cluster_status : ℕ → Exec Cluster (Status Json Digest)
  unfolding rados_raw rados_command get get_config summarise
  cluster_status name = do
    mon ← rados_command query_mon_status
    status ← rados_command query_status
    id ← get fsid status
    monmap_ ← get monmap status
    mon_epoch ← get epoch (some monmap_)
    osdmap_ ← get osdmap status
    inner ← get osdmap (some osdmap_)
    osd_epoch ← get epoch (some inner)
    mdsmap_ ← get mdsmap status
    mds_epoch ← get epoch (some mdsmap_)
    health_ ← rados_raw query_health
    brief ← rados_command query_pgs_brief
    pgs ← summarise brief
    config_ ← get_config
    election ← get election_epoch mon
    pure (record {
      name = name;
      status_fsid = id;
      versions =
          versions_of election mon_epoch osd_epoch mds_epoch (ceph.md5_of_summary pgs)
            (ceph.md5 health_) (ceph.md5 config_);
    })
