-- ===== src/PoolRequestFactory/Growing.antt =====
-- Changing the number of a pool's placement groups.
use calamari.Prelude.{ℕ, ◌≡◌, ◌↔◌, sym, none, some}
use calamari.Prelude.Dict.{Dict, lookup}
use calamari.Exec.{err, assertion_error}
use calamari.Types.{Pool, Osd, pools_by_id, osds_by_id}
use calamari.UserRequest.Splitting.{new_pg_creating-raises}
use calamari.PoolRequestFactory.{Attributes, Config, Source, resolve_pool, clamp, grow, update}

module _ (id pool_id final : ℕ) (a : Attributes) (s : Source) (c : Config) (pools : Dict Pool)
    (pool : Pool) (osds : Dict Osd) (has_pools : pools_by_id s.map ≡ some pools)
    (has_pool : lookup pool_id pools ≡ some pool) (has_osds : osds_by_id s.map ≡ some osds)
    (has_config : s.config ≡ some c) (no_size : a.size ≡ none) (no_min_size : a.min_size ≡ none)
    (has_pg_num : a.pg_num ≡ some final) where
  -- Where the OSD map has the pool and the configuration is there, an update that gives pg_num, and
  -- neither size nor min_size, raises an AssertionError exactly if pg_num is what the pool has
  -- already, whatever else it gives.
  pub update-raises : ((update id pool_id a s).0 ≡ err assertion_error) ↔ (final ≡ pool.pg_num)
  unfolding update resolve_pool clamp grow
  update-raises =
      rw (has_pools, has_pool, no_size, no_min_size, has_pg_num, has_config, has_osds)
        (
          λ e. sym ((new_pg_creating-raises _ _ _ _ _ _ _ _ _).0 e),
          λ e. (new_pg_creating-raises _ _ _ _ _ _ _ _ _).1 (sym e),
        )
