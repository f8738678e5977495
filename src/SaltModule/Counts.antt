-- ===== src/SaltModule/Counts.antt =====
-- The digest holds the numbers of placement groups that one counts in the dump.
use calamari.Prelude.{
  ℕ, suc, ◌+◌, ◌≡◌, Option-cases, inl, inr, none, some, List, [], ◌∷◌, ◌==◌, if◌then◌else◌, arith,
}
use calamari.Prelude.Dict.{Dict, lookup, lookup-insert, lookup-nil}
use calamari.SaltModule.PgSummary.{
  Pg, Stats, Summary, bump, bump_at, bump_osds, count_pgs, pg_summary,
}

-- The number that a digest shows: a state that it does not list is that of no placement group.
abbrev pub shown : ℕ → Stats → ℕ
shown state stats = elim (lookup state stats) [ none ↦ 0 | some n ↦ n ]

abbrev pub shown_at : ℕ → ℕ → Dict Stats → ℕ
shown_at key state stats = elim (lookup key stats) [ none ↦ 0 | some s ↦ shown state s ]

abbrev pub times : ℕ → List ℕ → ℕ
times x [] = 0
times x (y ∷ ys) = let n = times x ys in if y == x then suc n else n

-- Counted in the dump: for an OSD, for a pool, and overall
abbrev pub on_osd : ℕ → ℕ → List Pg → ℕ
on_osd osd state [] = 0
on_osd osd state (pg ∷ pgs) =
    let n = on_osd osd state pgs in if pg.state == state then times osd pg.acting + n else n

abbrev pub in_pool : ℕ → ℕ → List Pg → ℕ
in_pool pool state [] = 0
in_pool pool state (pg ∷ pgs) =
    let n = in_pool pool state pgs in
    if pg.state == state then (if pg.pgid.0 == pool then suc n else n) else n

abbrev pub in_state : ℕ → List Pg → ℕ
in_state state [] = 0
in_state state (pg ∷ pgs) = let n = in_state state pgs in if pg.state == state then suc n else n

shown-bump :
    (state s : ℕ) (stats : Stats)
    → shown state (bump s stats)
      ≡ (if s == state then suc (shown state stats) else shown state stats)
unfolding bump
shown-bump state s stats = elim (Option-cases (lookup s stats)) [
  | inl e ↦ ground (arith, e, lookup-insert s state 1 stats)
  | inr (n, e) ↦ ground (arith, e, lookup-insert s state (n + 1) stats)
]

shown_at-bump_at :
    (key state k s : ℕ) (stats : Dict Stats)
    → shown_at key state (bump_at k s stats) ≡ (
        if k == key
        then (if s == state then suc (shown_at key state stats) else shown_at key state stats)
        else shown_at key state stats)
unfolding bump_at
shown_at-bump_at key state k s stats = elim (Option-cases (lookup k stats)) [
  | inl e ↦ ground (
    arith,
    e,
    lookup-insert k key (bump s []) stats,
    shown-bump state s [],
    lookup-nil {V = ℕ} state,
  )
  | inr (x, e) ↦ ground (arith, e, lookup-insert k key (bump s x) stats, shown-bump state s x)
]

shown_at-bump_osds :
    (osd state s : ℕ) (acting : List ℕ) (stats : Dict Stats)
    → shown_at osd state (bump_osds s acting stats) ≡ (
        if s == state
        then times osd acting + shown_at osd state stats
        else shown_at osd state stats)
unfolding bump_osds
shown_at-bump_osds osd state s [] stats = ground arith
shown_at-bump_osds osd state s (o ∷ acting) stats = ground (
  arith,
  shown_at-bump_osds osd state s acting (bump_at o s stats),
  shown_at-bump_at osd state o s stats,
)

abbrev Shows : List Pg → ℕ → ℕ → ℕ → Summary → Summary → Type 0
Shows pgs osd pool state before after =
    (shown_at osd state after.by_osd ≡ on_osd osd state pgs + shown_at osd state before.by_osd)
    × (shown_at pool state after.by_pool
        ≡ in_pool pool state pgs + shown_at pool state before.by_pool)
    × (shown state after.all ≡ in_state state pgs + shown state before.all)

count_pgs-Shows :
    (pgs : List Pg) (osd pool state : ℕ) (s : Summary)
    → Shows pgs osd pool state s (count_pgs pgs s)
unfolding count_pgs
count_pgs-Shows [] osd pool state s = ground arith
count_pgs-Shows (pg ∷ pgs) osd pool state s =
    let next : Summary = record {
      by_osd = bump_osds pg.state pg.acting s.by_osd;
      by_pool = bump_at pg.pgid.0 pg.state s.by_pool;
      all = bump pg.state s.all;
    } in
    let h = count_pgs-Shows pgs osd pool state next in
    ground (
      arith,
      h.0,
      h.1,
      h.2,
      shown_at-bump_osds osd state pg.state pg.acting s.by_osd,
      shown_at-bump_at pool state pg.pgid.0 pg.state s.by_pool,
      shown-bump state pg.state s.all,
    )

-- For every OSD, pool and state, the digest shows the numbers that one counts in the dump: how often the
-- OSD acts for a placement group in the state, how many of the pool's are in it, and how many of all.
pub pg_summary_lem :
    (pgs : List Pg) (osd pool state : ℕ)
    → (shown_at osd state (pg_summary pgs).by_osd ≡ on_osd osd state pgs)
      × (shown_at pool state (pg_summary pgs).by_pool ≡ in_pool pool state pgs)
      × (shown state (pg_summary pgs).all ≡ in_state state pgs)
unfolding pg_summary
pg_summary_lem pgs osd pool state =
    let h = count_pgs-Shows pgs osd pool state (record { by_osd = []; by_pool = []; all = [] }) in
    ground (
      arith,
      h.0,
      h.1,
      h.2,
      lookup-nil {V = Stats} osd,
      lookup-nil {V = Stats} pool,
      lookup-nil {V = ℕ} state,
    )
