-- ===== src/SaltModule/Fetch.antt =====
-- `get_cluster_object`: one map of the cluster, with its version.
use calamari.Prelude.{some, List, [], ◌∷◌, ◌==◌}
use calamari.Exec.{Exec, pure, gets, ◌>>=◌, ◌>>◌, require, or_raise, assertion_error, value_error}
use calamari.Types.{SyncType, mds_map, osd_map, mon_map, mon_status, pg_summary, health, config}
use calamari.SaltModule.Objects.{
  Ceph, Query, query_status, query_mon_status, query_mon_dump, query_osd_dump, query_mds_dump,
  query_pgs_brief, query_health, query_osd_tree, query_crush_dump, query_getcrushmap,
  query_osd_metadata, fsid, election_epoch, epoch, osds, osd, Version, value, digest, Contents,
  plain, summary, with_crush, ClusterObject, connect, get, get_config,
}
use calamari.SaltModule.PgSummary as PgSummary

module _ {Cluster Raw Json Digest : Type 0} (ceph : Ceph Cluster Raw Json Digest) where
  abbrev pub json_loads : Raw → Exec Cluster Json
  json_loads raw = or_raise value_error (ceph.loads raw)

  -- The query of each type; `config` is read from the admin socket.
  unfoldable pub query_of : SyncType → Query Json
  query_of mon_status = query_mon_status
  query_of mon_map = query_mon_dump
  query_of osd_map = query_osd_dump
  query_of mds_map = query_mds_dump
  query_of pg_summary = query_pgs_brief
  query_of health = query_health
  query_of config = query_status

  -- json_command, `assert ret == 0`
  unfoldable pub ask_ok : Query Json → Exec Cluster Raw
  ask_ok query = do
    answer ← gets (ceph.ask query)
    require (answer.ret == 0) assertion_error
    pure answer.outbuf

  unfoldable pub one_metadata : Json → Exec Cluster (Json × Json)
  unfolding get ask_ok
  one_metadata entry = do
    id ← get ceph osd (some entry)
    raw ← ask_ok (query_osd_metadata id)
    updated ← json_loads raw
    pure (updated, id)

  unfoldable pub all_metadata : List Json → Exec Cluster (List (Json × Json))
  unfolding one_metadata
  all_metadata [] = pure []
  all_metadata (entry ∷ entries) = do
    first ← one_metadata entry
    others ← all_metadata entries
    pure (first ∷ others)

  -- The dump of the OSD map with the tree, the CRUSH map and the OSDs' metadata
  unfoldable pub full_osd_map : Json → Json → Exec Cluster (Contents Raw Json)
  unfolding ask_ok get all_metadata
  full_osd_map version map = do
    tree_raw ← ask_ok (query_osd_tree version)
    tree ← json_loads tree_raw
    crush_raw ← ask_ok query_crush_dump
    crush ← json_loads crush_raw
    map_raw ← ask_ok (query_getcrushmap version)
    require ((ceph.decompile map_raw).ret == 0) assertion_error
    entries ← get ceph osds (some map)
    osd_metadata ← all_metadata (ceph.elements entries)
    pure (with_crush map tree crush (ceph.decompile map_raw).outbuf osd_metadata)

  -- The map that a query gave and its version, by the type
  unfoldable pub read_object :
      SyncType → Raw → Exec Cluster (Version Json Digest × Contents Raw Json)
  unfolding get full_osd_map
  read_object pg_summary raw = do
    brief ← json_loads raw
    pure (
      digest (ceph.md5_of_summary (PgSummary.pg_summary (ceph.pgs_of brief))),
      summary (PgSummary.pg_summary (ceph.pgs_of brief)),
    )
  read_object mon_status raw = do
    map ← json_loads raw
    version ← get ceph election_epoch (some map)
    pure (value version, plain map)
  read_object osd_map raw = do
    map ← json_loads raw
    version ← get ceph epoch (some map)
    contents ← full_osd_map version map
    pure (value version, contents)
  read_object mon_map raw = do
    map ← json_loads raw
    version ← get ceph epoch (some map)
    pure (value version, plain map)
  read_object mds_map raw = do
    map ← json_loads raw
    version ← get ceph epoch (some map)
    pure (value version, plain map)
  read_object health raw = do map ← json_loads raw; pure (digest (ceph.md5 raw), plain map)
  read_object config raw = do map ← json_loads raw; pure (digest (ceph.md5 raw), plain map)

  unfoldable pub raw_object : SyncType → Exec Cluster Raw
  unfolding get_config ask_ok query_of
  raw_object config = get_config ceph
  raw_object sync_type = ask_ok (query_of sync_type)

  unfoldable pub get_cluster_object : SyncType → Exec Cluster (ClusterObject Raw Json Digest)
  unfolding get raw_object read_object
  get_cluster_object sync_type = do
    connect ceph
    answer ← gets (ceph.ask query_status)
    status ← json_loads answer.outbuf
    id ← get ceph fsid (some status)
    raw ← raw_object sync_type
    (version, contents) ← read_object sync_type raw
    pure (record {
      object_type = sync_type;
      object_fsid = id;
      version = version;
      contents = contents;
    })
