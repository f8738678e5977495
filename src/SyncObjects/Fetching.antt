-- ===== src/SyncObjects/Fetching.antt =====
-- The collection keeps track of what it has, of what it knows of and of what it is fetching.
use calamari.Prelude.{
  refl, ◌<◌, ◌≤◌, ◌+◌, ◌-◌, ◌∙◌, ltb, Option-cases, ℕ, ◌≡◌, ◌⊎◌, true, false, Option, none, some,
  ◌∷◌, inl, inr, arith, Bool-cases, not,
}
use calamari.Types.{
  SyncType, same_type, is_versioned, Version, cmp, is_positive, version_ge, MapData, SyncObject,
  get_cluster_object,
}
use calamari.SyncObjects.{
  SyncObjects, receive, on_newer, Maps, new_sync_objects, fetch, on_version, on_fetch_complete,
}
use calamari.SyncObjects.Versions.{
  IsTracked, Same-IsTracked, same_type_eq, same_type_refl, on_version-Same_others,
  on_fetch_complete-Same_others,
}

module _ (t minion : ℕ) (typ : SyncType) (v : Version) (m : Maps) where
  on_version-IsTracked_self :
      IsTracked typ m.sync → IsTracked typ (on_version t (some minion) typ v m).sync
  unfolding on_version on_newer fetch cmp
  on_version-IsTracked_self h = ground (arith, same_type_refl typ)

  on_fetch_complete-IsTracked_self :
      (d : Option MapData)
      → IsTracked typ m.sync
      → IsTracked typ (on_fetch_complete t (some minion) typ v d m).1.sync
  unfolding on_fetch_complete receive fetch cmp
  on_fetch_complete-IsTracked_self d h = ground (arith, same_type_refl typ)

abbrev pub IsTracking : SyncObjects → Type 0
IsTracking s = (u : SyncType) → IsTracked u s

pub new_sync_objects-IsTracking : IsTracking new_sync_objects
unfolding new_sync_objects cmp
new_sync_objects-IsTracking u = ground arith

-- What one of the two handlers does with a report of version `v` of the type `typ`.
pub data Report (t minion : ℕ) (m m' : Maps) : Type 0 where
  announced :
      (typ : SyncType) (v : Version)
      → m' ≡ on_version t (some minion) typ v m
      → Report t minion m m'
  fetched :
      (typ : SyncType) (v : Version) (d : Option MapData)
      → m' ≡ (on_fetch_complete t (some minion) typ v d m).1
      → Report t minion m m'

-- From a collection that is tracking, every report of a monitor's minion (a version that a
-- heartbeat announces, or a map that was fetched, in any order and of any age) leads to one that is
-- tracking: for each type with epochs no stored epoch is past the known one, and for each type
-- whose known version is newer than the stored one a fetch is marked as under way.
pub Report-IsTracking :
    (t minion : ℕ) (m m' : Maps) → Report t minion m m' → IsTracking m.sync → IsTracking m'.sync
Report-IsTracking t minion m m' (announced typ v e) h u = elim (Bool-cases (same_type typ u)) [
  | inl same ↦
      rw (e, ← same_type_eq typ u same) (on_version-IsTracked_self t minion typ v m (h typ))
  | inr other ↦ rw e (
      Same-IsTracked u m.sync (on_version t (some minion) typ v m).sync
        (on_version-Same_others t (some minion) typ u v m other) (h u))
]
Report-IsTracking t minion m m' (fetched typ v d e) h u = elim (Bool-cases (same_type typ u)) [
  | inl same ↦
      rw (e, ← same_type_eq typ u same)
        (on_fetch_complete-IsTracked_self t minion typ v m d (h typ))
  | inr other ↦ rw e (
      Same-IsTracked u m.sync (on_fetch_complete t (some minion) typ v d m).1.sync
        (on_fetch_complete-Same_others t (some minion) typ u v d m other) (h u))
]

module _ (t : ℕ) (minion : Option ℕ) (typ : SyncType) (v : Version) (m : Maps) where
  abbrev after : Option MapData → Option SyncObject × Maps
  after d = on_fetch_complete t minion typ v d m

  -- For a type with epochs, a fetched map is stored, and handed on, exactly if its epoch is past
  -- the stored one; otherwise the stored map stays. The stored epoch never falls.
  pub on_fetch_complete_newest :
      (d : Option MapData)
      → is_versioned typ ≡ true
      → let so : SyncObject = record { version = v; contents = d } in
        let old = m.sync.objects typ in
        let now = (after d).1.sync.objects typ in
        ((version_ge old.version v ≡ true) × (now ≡ old) × ((after d).0 ≡ none)
          ⊎ (version_ge old.version v ≡ false) × (now ≡ so) × ((after d).0 ≡ some so))
        × (version_ge now.version old.version ≡ true)
        × (version_ge now.version v ≡ true)
  unfolding on_fetch_complete receive fetch cmp
  on_fetch_complete_newest d e = ground (arith, same_type_refl typ)

  cmp-version_ge :
      is_versioned typ ≡ true
      → is_positive (cmp typ v (m.sync.objects typ).version)
        ≡ not (version_ge (m.sync.objects typ).version v)
  unfolding cmp
  cmp-version_ge h = ground (arith, h)

  -- When a minion announces a version of a map with epochs, one fetch job is started on that minion and marked as
  -- under way if the version is newer than the stored one and no fetch of that type is marked as under
  -- way that began less than ten seconds ago, and otherwise no job; the stored maps stay as they are.
  pub on_version_sends :
      (k : ℕ)
      → minion ≡ some k
      → is_versioned typ ≡ true
      → let m' = on_version t minion typ v m in
        let stored = (m.sync.objects typ).version in
        (m'.sync.objects ≡ m.sync.objects)
        × ((((version_ge stored v ≡ true)
                ⊎ ((at : ℕ) × (m.sync.fetching_at typ ≡ some at) × (t < at + 10)))
              × (m'.sent ≡ m.sent))
            ⊎ ((version_ge stored v ≡ false)
                × ((at : ℕ) → m.sync.fetching_at typ ≡ some at → at + 10 ≤ t)
                × (m'.sent ≡ get_cluster_object k typ ∷ m.sent)
                × (m'.sync.fetching_at typ ≡ some t)))
  unfolding on_version on_newer fetch
  on_version_sends k e epochs =
      let stored = (m.sync.objects typ).version in
      let exact = cmp-version_ge epochs in
      elim (Bool-cases (version_ge stored v)) [
        | inl old ↦
            let n : is_positive (cmp typ v stored) ≡ false = exact ∙ rw (old) refl in
            rw (n) (ground arith, inl (inl old, ground arith))
        | inr new ↦
            let n : is_positive (cmp typ v stored) ≡ true = exact ∙ rw (new) refl in
            elim (Option-cases (m.sync.fetching_at typ)) [
              | inl idle ↦
                  rw (n, idle, e)
                    (
                      ground arith,
                      inr (
                        new,
                        λ at h. ground (arith, h),
                        ground arith,
                        ground (arith, same_type_refl typ),
                      ),
                    )
              | inr (at, busy) ↦ elim (Bool-cases (ltb (t - at) 10)) [
                | inl recent ↦
                    rw (n, busy, recent)
                      (ground arith, inl (inr (at, refl, ground (arith, recent)), ground arith))
                | inr late ↦
                    rw (n, busy, late, e)
                      (
                        ground arith,
                        inr (
                          new,
                          λ at' h. ground (arith, h, late),
                          ground arith,
                          ground (arith, same_type_refl typ),
                        ),
                      )
              ]
            ]
      ]
