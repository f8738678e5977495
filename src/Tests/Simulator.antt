-- ===== src/Tests/Simulator.antt =====
-- A simulated cluster of two OSDs with a pool that is being created and a placement group to recover.
use calamari.Prelude.{
  ℕ, ◌+◌, ◌-◌, ◌≤◌, ◌<◌, ◌≡◌, ◌⊎◌, refl, Bool, true, false, some, [], ◌∷◌, arith,
}
use calamari.Prelude.Int.{negsuc}
use calamari.Prelude.Dict.{lookup, insert}
use calamari.Exec.{ok, err, runtime_error}
use calamari.CephCluster.PgMonitor.{Words, Pool, Cluster, health_ok, health_warn, osds_by_id}
use calamari.CephCluster.Pools.{pg_num_var, first_pool, has_name, is_creating, pool_update}
use calamari.CephCluster.Recovery.{all_served, by_id_of, advances, advances-health_ok}
use calamari.CephCluster.Growth.{count_pgs, most, pool_update_lem}

abbrev words : Bool → Bool → Words
words creating remapped = record {
  active = true;
  clean = false;
  creating = creating;
  remapped = remapped;
  stale = false;
  empty_word = false;
}

abbrev data_pool : Pool
data_pool = record {
  pool = 3;
  pool_name = 1;
  size = 2;
  pg_num = 2;
  pg_placement_num = 2;
  others = [];
}

abbrev other_pool : Pool
other_pool = record {
  pool = 4;
  pool_name = 2;
  size = 2;
  pg_num = 1;
  pg_placement_num = 1;
  others = [];
}

abbrev cluster : Cluster
cluster = record {
  osds =
      record { osd = 0; up = true; is_in = true }
      ∷ record { osd = 1; up = true; is_in = true }
      ∷ [];
  pools = data_pool ∷ other_pool ∷ [];
  flags = 0;
  nodes = [];
  buckets = [];
  epoch = 1;
  pg_brief =
      record { pgid = (3, 0); state = words true false; up = 0 ∷ 1 ∷ []; acting = 0 ∷ 1 ∷ [] }
      ∷ record { pgid = (3, 1); state = words false true; up = 1 ∷ 0 ∷ []; acting = 1 ∷ 0 ∷ [] }
      ∷ record { pgid = (4, 0); state = words false true; up = 1 ∷ 0 ∷ []; acting = 1 ∷ 0 ∷ [] }
      ∷ [];
  pg_version = 1;
  overall_status = health_warn;
  has_summary = true;
  max_split_count = 32;
  crush_node_id = negsuc 9;
}

abbrev hash : ℕ × ℕ → ℕ → ℕ
hash pgid i = pgid.0 + pgid.1 + i

served : all_served (by_id_of cluster) cluster.pg_brief ≡ true
unfolding by_id_of osds_by_id insert lookup
served = refl

advances-health_ok_example : (advances hash 3 1 cluster).overall_status ≡ health_ok
advances-health_ok_example =
    advances-health_ok hash 2 1 cluster (omega arith) served refl (omega arith) (omega arith)

pool_update_lem_example :
    (((is_creating 4 cluster.pg_brief ≡ true) ⊎ (most other_pool cluster < 8 - 1))
      × ((pool_update hash 2 pg_num_var 8 cluster).0 ≡ err runtime_error)
      × ((pool_update hash 2 pg_num_var 8 cluster).1 ≡ cluster))
    ⊎ ((is_creating 4 cluster.pg_brief ≡ false)
        × (8 - 1 ≤ most other_pool cluster)
        × ((pool_update hash 2 pg_num_var 8 cluster).0 ≡ ok tt)
        × (count_pgs 4 5 (pool_update hash 2 pg_num_var 8 cluster).1.pg_brief ≡ 1)
        × (first_pool (has_name 2) (pool_update hash 2 pg_num_var 8 cluster).1.pools
            ≡ some (record other_pool { pg_num = 8 })))
pool_update_lem_example = pool_update_lem hash 4 5 2 8 cluster other_pool (omega arith) refl refl
