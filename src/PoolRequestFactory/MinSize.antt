-- ===== src/PoolRequestFactory/MinSize.antt =====
-- The least number of replicas with which a pool serves requests.
use calamari.Prelude.{ℕ, ◌+◌, ◌≤◌, ◌<◌, ◌≡◌, ◌-◌, ◌/◌, ◌⊎◌, min, some, arith, ◌==◌, if◌then◌else◌}
use calamari.Exec.{ok}
use calamari.PoolRequestFactory.{Config, Source, pool_min_size}

-- The number asked for, or the configured one where 0 is asked for.
abbrev pub effective : ℕ → ℕ → ℕ
effective req default = if req == 0 then default else req

module _ (size min_size : ℕ) (s : Source) (c : Config) (known : s.config ≡ some c)
    (has_size : c.default_size ≡ some size)
    (has_min_size : c.default_min_size ≡ some min_size) where
  -- With defaults in the configuration, `_pool_min_size` returns. What it returns is at most the
  -- pool's size; it is positive if the size is; where the caller or else the
  -- configuration wants a positive number, it is that or the size, whichever is less; and where
  -- neither does, it is half of the size, rounded up.
  pub pool_min_size_lem :
      (req_size req_min_size : ℕ)
      → let n = effective req_size size in
        let k = effective req_min_size min_size in
        (result : ℕ) × (pool_min_size req_size req_min_size s ≡ (ok result, s))
        × (result ≤ n)
        × (min n 1 ≤ result)
        × ((0 < k) × (result ≡ min k n)
            ⊎ (k ≡ 0) × (n ≤ result + result) × (result + result ≤ n + 1))
  unfolding pool_min_size
  pool_min_size_lem req_size req_min_size =
      let n = effective req_size size in
      let k = effective req_min_size min_size in
      (
        if k == 0 then n - n / 2 else min k n,
        ground (arith, known, has_size, has_min_size),
        ground arith,
        ground arith,
        ground arith,
      )
