-- ===== src/CephCluster/Growth.antt =====
-- How the placement groups of a pool grow in number.
use calamari.Prelude.{
  ℕ, zero, suc, ◌+◌, ◌-◌, ◌*◌, ◌≤◌, ◌≡◌, refl, ap, ◌∙◌, min, Bool, true, false, ◌&&◌, Bool-cases,
  some, List, [], ◌∷◌, ◌++◌, ◌==◌, if◌then◌else◌, ltb, length, arith, ltb→lt, inl, inr, ◌<◌, ◌⊎◌,
}
use calamari.Exec.{ok, err, each, runtime_error}
use calamari.CephCluster.PgMonitor.{Pg, Pool, Osd, Cluster, pseudorandom_subset}
use calamari.CephCluster.Pools.{
  pg_num_var, first_pool, change_pool, has_id, has_name, range_from, set_item, new_words,
  is_creating, create_pg, create_pgs, grow, assign, pool_update,
}

-- How often a list has the number `i`
abbrev pub occurrences : ℕ → List ℕ → ℕ
occurrences i [] = 0
occurrences i (j ∷ js) = let n = occurrences i js in if j == i then suc n else n

-- How many placement groups have the id `(q, i)`
abbrev pub count_pgs : (q i : ℕ) → List Pg → ℕ
count_pgs q i [] = 0
count_pgs q i (pg ∷ pgs) =
    let n = count_pgs q i pgs in if pg.pgid.0 == q && pg.pgid.1 == i then suc n else n

count_pgs-append :
    (q i : ℕ) (xs ys : List Pg) → count_pgs q i (xs ++ ys) ≡ count_pgs q i xs + count_pgs q i ys
count_pgs-append q i [] ys = ground arith
count_pgs-append q i (x ∷ xs) ys = ground (arith, count_pgs-append q i xs ys)

-- one where `a ≤ i < b`
abbrev pub within : (a b i : ℕ) → ℕ
within a b i = if ltb i a then 0 else if ltb i b then 1 else 0

occurrences-range_from : (i a n : ℕ) → occurrences i (range_from a n) ≡ within a (a + n) i
occurrences-range_from i a zero = ground arith
occurrences-range_from i a (suc n) = ground (arith, occurrences-range_from i (suc a) n)

-- The pools and the OSDs stay, and so many placement groups more have the id `(q, i)`.
abbrev Adds : (q i n : ℕ) → Cluster → Cluster → Type 0
Adds q i n c c' =
    (c'.pools ≡ c.pools)
    × (c'.osds ≡ c.osds)
    × (count_pgs q i c'.pg_brief ≡ count_pgs q i c.pg_brief + n)

-- so many if the pool is `q`
abbrev only : (pool q n : ℕ) → ℕ
only pool q n = if pool == q then n else 0

-- What the OSDs split at once
abbrev pub most : Pool → Cluster → ℕ
most p c = min p.pg_num (length c.osds) * c.max_split_count

module _ (hash : ℕ × ℕ → ℕ → ℕ) where
  subset-ok :
      (l : List Osd) (size : ℕ) (pgid : ℕ × ℕ)
      → 1 ≤ length l
      → (osds : List ℕ) × (pseudorandom_subset hash (range_from 0 (length l)) size pgid ≡ ok osds)
  unfolding pseudorandom_subset
  subset-ok [] size pgid h = absurd (omega arith)
  subset-ok (o ∷ os) size pgid h = (_, refl)

  create_pg-Adds :
      (q k pool size i : ℕ) (c : Cluster)
      → 1 ≤ length c.osds
      → ((create_pg hash pool size i c).0 ≡ ok tt)
        × Adds q k (only pool q (occurrences k (i ∷ []))) c (create_pg hash pool size i c).1
  unfolding create_pg
  create_pg-Adds q k pool size i c h =
      let (osds, s) = subset-ok c.osds size (pool, i) h in
      let pg : Pg = record { pgid = (pool, i); state = new_words; up = osds; acting = osds } in
      let counted = count_pgs-append q k c.pg_brief (pg ∷ []) in
      rw (create_pg, s) (refl, (refl, refl, ground (arith, counted)))

  each-Adds :
      (q k pool size : ℕ) (is : List ℕ) (c : Cluster)
      → 1 ≤ length c.osds
      → ((each (create_pg hash pool size) is c).0 ≡ ok tt)
        × Adds q k (only pool q (occurrences k is)) c (each (create_pg hash pool size) is c).1
  each-Adds q k pool size [] c h = (refl, (refl, refl, ground arith))
  each-Adds q k pool size (i ∷ is) c h =
      let (returned, (pools, osds, n)) = create_pg-Adds q k pool size i c h in
      let (r, (ps, os, m)) =
        each-Adds q k pool size is (create_pg hash pool size i c).1 (rw (osds) h) in
      rw (returned) (r, (ps ∙ pools, os ∙ osds, m ∙ ground (arith, n)))

  create_pgs-Adds :
      (q k : ℕ) (p : Pool) (is : List ℕ) (c : Cluster)
      → 1 ≤ length c.osds
      → first_pool (has_id p.pool) c.pools ≡ some p
      → ((create_pgs hash p.pool is c).0 ≡ ok tt)
        × Adds q k (only p.pool q (occurrences k is)) c (create_pgs hash p.pool is c).1
  unfolding create_pgs
  create_pgs-Adds q k p is c h found =
      let (r, (ps, os, m)) = each-Adds q k p.pool p.size is c h in rw (found, r) (refl, (ps, os, m))

  grow-Adds :
      (q k : ℕ) (p : Pool) (val : ℕ) (c : Cluster)
      → 1 ≤ length c.osds
      → first_pool (has_id p.pool) c.pools ≡ some p
      → val - p.pg_num ≤ most p c
      → ((grow hash p val c).0 ≡ ok tt)
        × Adds q k (only p.pool q (within p.pg_num val k)) c (grow hash p val c).1
  unfolding grow
  grow-Adds q k p val c h found few =
      let fits : ltb (most p c) (val - p.pg_num) ≡ false = ground (arith, few) in
      let is = range_from p.pg_num (val - p.pg_num) in
      let (r, (ps, os, m)) = create_pgs-Adds q k p is c h found in
      let these : occurrences k is ≡ within p.pg_num val k =
        occurrences-range_from k p.pg_num (val - p.pg_num) ∙ ground arith in
      rw (fits) (r, (ps, os, m ∙ rw (these) refl))

  change_pool-first_pool :
      (test : Pool → Bool) (f : Pool → Pool) (pools : List Pool) (p : Pool)
      → first_pool test pools ≡ some p
      → test (f p) ≡ true
      → first_pool test (change_pool test f pools) ≡ some (f p)
  change_pool-first_pool test f [] p e h = absurd (ground (arith, e))
  change_pool-first_pool test f (q ∷ qs) p e h = elim (Bool-cases (test q)) [
    | inl yes₁ ↦
        let same : q ≡ p = ground (arith, rw (first_pool, yes₁) at e) in
        rw (yes₁, same, first_pool, h) refl
    | inr no₁ ↦
        rw (no₁, first_pool, no₁) (change_pool-first_pool test f qs p (rw (first_pool, no₁) at e) h)
  ]

  first_pool-test :
      (test : Pool → Bool) (pools : List Pool) (p : Pool)
      → first_pool test pools ≡ some p
      → test p ≡ true
  first_pool-test test [] p e = absurd (ground (arith, e))
  first_pool-test test (q ∷ qs) p e = elim (Bool-cases (test q)) [
    | inl yes₁ ↦ let same : q ≡ p = ground (arith, rw (first_pool, yes₁) at e) in rw same at yes₁
    | inr no₁ ↦ first_pool-test test qs p (rw (first_pool, no₁) at e)
  ]

  abbrev sized : Pool → ℕ → Pool
  sized p val = record p { pg_num = val }

  assign_lem :
      (pool_name val : ℕ) (p : Pool) (c : Cluster)
      → first_pool (has_name pool_name) c.pools ≡ some p
      → let (r, c') = assign hash pool_name pg_num_var val p c in
        (r ≡ ok tt)
        × (c'.pg_brief ≡ c.pg_brief)
        × (first_pool (has_name pool_name) c'.pools ≡ some (sized p val))
  unfolding assign
  assign_lem pool_name val p c named = elim (Bool-cases (p.pg_num == val)) [
    | inl same ↦
        let e : p ≡ sized p val = ground (arith, same) in rw (same) (refl, refl, named ∙ ap some e)
    | inr other ↦ rw (other) (
      refl,
      refl,
      change_pool-first_pool (has_name pool_name) (set_item pg_num_var val) c.pools p named
          (first_pool-test (has_name pool_name) c.pools p named),
    )
  ]

  -- A pool that has an id of its own, in a cluster with OSDs: a larger or smaller pg_num is set unless a
  -- placement group of the pool is being created or the OSDs do not split so many at once. Then the call
  -- raises a RuntimeError and changes nothing. Otherwise the placement groups with the ids from the old
  -- pg_num up to the new one are added to the pool, one of each, and none with any other id `(q, i)`.
  pub pool_update_lem :
      (q i pool_name val : ℕ) (c : Cluster) (p : Pool)
      → 1 ≤ length c.osds
      → first_pool (has_name pool_name) c.pools ≡ some p
      → first_pool (has_id p.pool) c.pools ≡ some p
      → let (r, c') = pool_update hash pool_name pg_num_var val c in
        (((is_creating p.pool c.pg_brief ≡ true) ⊎ (most p c < val - p.pg_num))
          × (r ≡ err runtime_error)
          × (c' ≡ c))
        ⊎ ((is_creating p.pool c.pg_brief ≡ false)
            × (val - p.pg_num ≤ most p c)
            × (r ≡ ok tt)
            × (count_pgs q i c'.pg_brief
                ≡ count_pgs q i c.pg_brief + (if p.pool == q then within p.pg_num val i else 0))
            × (first_pool (has_name pool_name) c'.pools ≡ some (record p { pg_num = val })))
  unfolding pool_update
  pool_update_lem q i pool_name val c p h named found =
      elim (Bool-cases (is_creating p.pool c.pg_brief)) [
        | inl busy ↦ inl (inl busy, rw (named, busy) refl, rw (named, busy) refl)
        | inr idle ↦ elim (Bool-cases (ltb (most p c) (val - p.pg_num))) [
          | inl many ↦
              let refused : grow hash p val c ≡ (err runtime_error, c) = rw (grow, many) refl in
              inl (
                inr (ltb→lt _ _ many),
                rw (named, idle, refused) refl,
                rw (named, idle, refused) refl,
              )
          | inr few ↦
              let le : val - p.pg_num ≤ most p c = ground (arith, few) in
              let (r, (ps, os, m)) = grow-Adds q i p val c h found le in
              let (r', b, f) = assign_lem pool_name val p (grow hash p val c).1 (rw (ps) named) in
              inr
                (idle, le, rw (named, idle, r) r', rw (named, idle, r, b) m, rw (named, idle, r) f)
        ]
      ]
