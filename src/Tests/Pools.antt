-- ===== src/Tests/Pools.antt =====
-- Requests that change pools.
use calamari.Prelude.{ℕ, ◌+◌, ◌≡◌, ◌≤◌, ◌<◌, ◌⊎◌, ◌↔◌, min, refl, true, none, some, [], ◌∷◌}
use calamari.Prelude.Dict.{insert, lookup-cons_self}
use calamari.Exec.{ok, err, assertion_error}
use calamari.Types.{pools_by_id, osds_by_id}
use calamari.PoolRequestFactory.{Attributes, Config, Source, pool_min_size, update}
use calamari.PoolRequestFactory.MinSize.{effective, pool_min_size_lem}
use calamari.PoolRequestFactory.Growing.{update-raises}
use calamari.Tests.Samples.{data_pool, osds}

abbrev config : Config
config = record { default_size = some 3; default_min_size = some 0; max_split_count = none }

abbrev source : Source
source = record { fsid = 1; map = osds 8; config = some config }

pool_min_size_lem_example :
    let n = effective 5 3 in
    let k = effective 0 0 in
    (result : ℕ) × (pool_min_size 5 0 source ≡ (ok result, source))
    × (result ≤ n)
    × (min n 1 ≤ result)
    × ((0 < k) × (result ≡ min k n) ⊎ (k ≡ 0) × (n ≤ result + result) × (result + result ≤ n + 1))
pool_min_size_lem_example = pool_min_size_lem 3 0 source config refl refl refl 5 0

abbrev same_pg_num : Attributes
same_pg_num = record {
  name = none;
  size = none;
  min_size = none;
  crash_replay_interval = none;
  pg_num = some 8;
  pgp_num = none;
  crush_ruleset = none;
  hashpspool = some true;
  quota_max_bytes = none;
  quota_max_objects = none;
}

has_pools : pools_by_id source.map ≡ some ((3, data_pool 8) ∷ [])
unfolding pools_by_id insert
has_pools = refl

has_osds : osds_by_id source.map ≡ some []
unfolding osds_by_id
has_osds = refl

update-raises_example :
    ((update 9 3 same_pg_num source).0 ≡ err assertion_error) ↔ (◌≡◌ {A = ℕ} 8 8)
update-raises_example =
    update-raises 9 3 8 same_pg_num source config ((3, data_pool 8) ∷ []) (data_pool 8) [] has_pools
      (lookup-cons_self 3 (data_pool 8) []) has_osds refl refl refl refl
