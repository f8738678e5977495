-- ===== src/SaltModule/PgSummary.antt =====
-- `pg_summary`: how many placement groups are in each state, for each OSD, each pool and overall.
-- The states' texts are only compared, so they are natural numbers.
use calamari.Prelude.{ℕ, ◌+◌, none, some, List, [], ◌∷◌}
use calamari.Prelude.Dict.{Dict, lookup, insert}

-- An item of `pgs_brief`; the id "3.1a" is the pool's number and the rest.
pub record Pg : Type 0 where
  pub pgid : ℕ × ℕ
  pub state : ℕ
  pub acting : List ℕ

abbrev pub Stats : Type 0
Stats = Dict ℕ

pub record Summary : Type 0 where
  pub by_osd : Dict Stats
  pub by_pool : Dict Stats
  pub all : Stats

-- `try: stats[state] += 1` / `except KeyError: stats[state] = 1`
unfoldable pub bump : ℕ → Stats → Stats
bump state stats = elim (lookup state stats) [
  | none ↦ insert state 1 stats
  | some n ↦ insert state (n + 1) stats
]

-- The item of the OSD or of the pool, a new one where there is none, with the state counted once more
unfoldable pub bump_at : ℕ → ℕ → Dict Stats → Dict Stats
bump_at key state stats = elim (lookup key stats) [
  | none ↦ insert key (bump state []) stats
  | some s ↦ insert key (bump state s) stats
]

-- `for osd in pg['acting']`
unfoldable pub bump_osds : ℕ → List ℕ → Dict Stats → Dict Stats
bump_osds state [] osds = osds
bump_osds state (osd ∷ acting) osds = bump_osds state acting (bump_at osd state osds)

unfoldable pub count_pgs : List Pg → Summary → Summary
count_pgs [] s = s
count_pgs (pg ∷ pgs) s = count_pgs pgs (record {
  by_osd = bump_osds pg.state pg.acting s.by_osd;
  by_pool = bump_at pg.pgid.0 pg.state s.by_pool;
  all = bump pg.state s.all;
})

unfoldable pub pg_summary : List Pg → Summary
unfolding count_pgs
pg_summary pgs_brief = count_pgs pgs_brief (record { by_osd = []; by_pool = []; all = [] })
