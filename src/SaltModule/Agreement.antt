-- ===== src/SaltModule/Agreement.antt =====
-- The version that a minion hands an object out with, and the one that its status reports.
use calamari.Prelude.{◌≡◌, true, false, some}
use calamari.Types.{SyncType, mds_map, osd_map, mon_map, pg_summary}
use calamari.SaltModule.PgSummary as PgSummary
use calamari.SaltModule.Objects.{
  Ceph, Query, query_status, query_mon_status, query_mon_dump, query_osd_dump, query_mds_dump,
  query_pgs_brief, query_health, fsid, election_epoch, epoch, monmap, osdmap, mdsmap, osds, osd,
  Version, versions_of, value,
}

-- A monitor that answers every query with JSON. The epochs of its dumps need not be those of its
-- status.
pub record IsServing {Cluster Raw Json Digest : Type 0} (ceph : Ceph Cluster Raw Json Digest)
    (cluster : Cluster) : Type 0 where
  pub connected : ceph.connects cluster ≡ true
  pub loaded : Query Json → Json
  pub answered : (q : Query Json) → (ceph.ask q cluster).ret ≡ 0
  pub is_full : (q : Query Json) → ceph.is_empty_buffer (ceph.ask q cluster).outbuf ≡ false
  pub is_json : (q : Query Json) → ceph.loads (ceph.ask q cluster).outbuf ≡ some (loaded q)
  pub config_raw : Raw
  pub config_json : Json
  pub config_shown : ceph.config_show cluster ≡ some config_raw
  pub config_is_json : ceph.loads config_raw ≡ some config_json
  pub id : Json
  pub has_id : ceph.item fsid (loaded query_status) ≡ some id
  pub election : Json
  pub has_election : ceph.item election_epoch (loaded query_mon_status) ≡ some election
  pub mon_part : Json
  pub mon_epoch : Json
  pub has_mon : ceph.item monmap (loaded query_status) ≡ some mon_part
  pub has_mon_epoch : ceph.item epoch mon_part ≡ some mon_epoch
  pub mon_dump_epoch : Json
  pub has_mon_dump_epoch : ceph.item epoch (loaded query_mon_dump) ≡ some mon_dump_epoch
  pub osd_part : Json
  pub osd_inner : Json
  pub osd_epoch : Json
  pub has_osd : ceph.item osdmap (loaded query_status) ≡ some osd_part
  pub has_osd_inner : ceph.item osdmap osd_part ≡ some osd_inner
  pub has_osd_epoch : ceph.item epoch osd_inner ≡ some osd_epoch
  pub osd_dump_epoch : Json
  pub has_osd_dump_epoch : ceph.item epoch (loaded query_osd_dump) ≡ some osd_dump_epoch
  pub mds_part : Json
  pub mds_epoch : Json
  pub has_mds : ceph.item mdsmap (loaded query_status) ≡ some mds_part
  pub has_mds_epoch : ceph.item epoch mds_part ≡ some mds_epoch
  pub mds_dump_epoch : Json
  pub has_mds_dump_epoch : ceph.item epoch (loaded query_mds_dump) ≡ some mds_dump_epoch
  pub osd_list : Json
  pub has_osds : ceph.item osds (loaded query_osd_dump) ≡ some osd_list
  pub osd_id : Json → Json
  pub has_osd_id : (entry : Json) → ceph.item osd entry ≡ some (osd_id entry)
  pub decompiled : (raw : Raw) → (ceph.decompile raw).ret ≡ 0

module _ {Cluster Raw Json Digest : Type 0} (ceph : Ceph Cluster Raw Json Digest)
    (cluster : Cluster) (h : IsServing ceph cluster) where
  abbrev raw_of : Query Json → Raw
  raw_of q = (ceph.ask q cluster).outbuf

  digest_of : Query Json → Digest
  digest_of q = ceph.md5 (raw_of q)

  pgs_digest : Digest
  pgs_digest = ceph.md5_of_summary (PgSummary.pg_summary (ceph.pgs_of (h.loaded query_pgs_brief)))

  reported : SyncType → Version Json Digest
  unfolding digest_of pgs_digest
  reported =
      versions_of ceph h.election h.mon_epoch h.osd_epoch h.mds_epoch pgs_digest
        (digest_of query_health) (ceph.md5 h.config_raw)

  -- The version of what is handed out: a map has the epoch of its own dump.
  handed : SyncType → Version Json Digest
  unfolding digest_of pgs_digest
  handed =
      versions_of ceph h.election h.mon_dump_epoch h.osd_dump_epoch h.mds_dump_epoch pgs_digest
        (digest_of query_health) (ceph.md5 h.config_raw)

  -- The version `v` of an object against the version `w` that the status reports of it
  abbrev pub Agrees : SyncType → (v w : Version Json Digest) → Type 0
  Agrees mon_map v w = (v ≡ value h.mon_dump_epoch) × (w ≡ value h.mon_epoch)
  Agrees osd_map v w = (v ≡ value h.osd_dump_epoch) × (w ≡ value h.osd_epoch)
  Agrees mds_map v w = (v ≡ value h.mds_dump_epoch) × (w ≡ value h.mds_epoch)
  Agrees _ v w = v ≡ w
