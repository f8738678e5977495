-- ===== src/Tests/Syncing.antt =====
-- The copies of a cluster's maps.
use calamari.Prelude.{ℕ, ◌<◌, ◌≤◌, ◌+◌, ◌≡◌, ◌⊎◌, refl, true, false, none, some, [], ◌∷◌}
use calamari.Types.{osd_map, is_versioned, version_ge, SyncObject, get_cluster_object}
use calamari.SyncObjects.{Maps, new_sync_objects, on_version, on_fetch_complete}
use calamari.SyncObjects.Fetching.{
  IsTracking, announced, new_sync_objects-IsTracking, Report-IsTracking, on_fetch_complete_newest,
  on_version_sends,
}
use calamari.Types.OsdPools.{listed, osd_pools, osd_pools_lem}

abbrev start : Maps
start = record { sync = new_sync_objects; sent = [] }

abbrev heard : Maps
heard = on_version 100 (some 2) osd_map (some 5) start

Report-IsTracking_example : IsTracking heard.sync
Report-IsTracking_example =
    Report-IsTracking 100 2 start heard (announced osd_map (some 5) refl)
      new_sync_objects-IsTracking

osd_map-IsVersioned : is_versioned osd_map ≡ true
unfolding is_versioned
osd_map-IsVersioned = refl

on_fetch_complete_newest_example :
    let so : SyncObject = record { version = some 5; contents = none } in
    let old = heard.sync.objects osd_map in
    let (found, m) = on_fetch_complete 105 (some 2) osd_map (some 5) none heard in
    let now = m.sync.objects osd_map in
    ((version_ge old.version (some 5) ≡ true) × (now ≡ old) × (found ≡ none)
      ⊎ (version_ge old.version (some 5) ≡ false) × (now ≡ so) × (found ≡ some so))
    × (version_ge now.version old.version ≡ true)
    × (version_ge now.version (some 5) ≡ true)
on_fetch_complete_newest_example =
    on_fetch_complete_newest 105 (some 2) osd_map (some 5) heard none osd_map-IsVersioned

-- The fetch that began at 100 is still under way at 105.
on_version_sends_example :
    let m' = on_version 105 (some 2) osd_map (some 6) heard in
    let stored = (heard.sync.objects osd_map).version in
    (m'.sync.objects ≡ heard.sync.objects)
    × ((((version_ge stored (some 6) ≡ true)
            ⊎ ((at : ℕ) × (heard.sync.fetching_at osd_map ≡ some at) × (105 < at + 10)))
          × (m'.sent ≡ heard.sent))
        ⊎ ((version_ge stored (some 6) ≡ false)
            × ((at : ℕ) → heard.sync.fetching_at osd_map ≡ some at → at + 10 ≤ 105)
            × (m'.sent ≡ get_cluster_object 2 osd_map ∷ heard.sent)
            × (m'.sync.fetching_at osd_map ≡ some 105)))
on_version_sends_example =
    on_version_sends 105 (some 2) osd_map (some 6) heard 2 refl osd_map-IsVersioned

-- Two pools share an OSD; OSD 9 is in the CRUSH map alone.
osd_pools_lem_example :
    listed 1 3 (osd_pools (0 ∷ 1 ∷ []) ((3, 1 ∷ 9 ∷ []) ∷ (4, 0 ∷ 1 ∷ []) ∷ [])) ≡ some 1
osd_pools_lem_example = osd_pools_lem 1 3 (0 ∷ 1 ∷ []) ((3, 1 ∷ 9 ∷ []) ∷ (4, 0 ∷ 1 ∷ []) ∷ [])
