-- ===== src/SyncObjects/Versions.antt =====
-- How the stored version and the latest known version of each type move.
use calamari.Prelude.{ℕ, ◌≡◌, ◌≢◌, refl, true, false, Option, none, some, arith, ==_refl}
use calamari.Types.{
  SyncType, type_index, same_type, is_versioned, Version, cmp, is_positive, version_ge, MapData,
}
use calamari.SyncObjects.{
  SyncObjects, receive, on_newer, learn, Maps, get_version, fetch, on_version, on_fetch_complete,
}

pub same_type_eq : (a b : SyncType) → same_type a b ≡ true → a ≡ b
unfolding same_type
same_type_eq a b h = ground arith

-- What a type has of the collection's state.
abbrev pub Same : SyncType → SyncObjects → SyncObjects → Type 0
Same u s s' =
    (s'.objects u ≡ s.objects u)
    × (s'.fetching_at u ≡ s.fetching_at u)
    × (s'.known_versions u ≡ s.known_versions u)

receive-Same_others :
    (typ u : SyncType) (v : Version) (d : Option MapData) (m : Maps)
    → same_type typ u ≡ false
    → Same u m.sync (receive typ v d m).sync
unfolding receive
receive-Same_others typ u v d m h = ground arith

pub same_type_refl : (a : SyncType) → same_type a a ≡ true
unfolding same_type
same_type_refl a = ==_refl (type_index a)

module _ (t : ℕ) where
  pub fetch-Same_others :
      (minion : Option ℕ) (typ u : SyncType) (m : Maps)
      → same_type typ u ≡ false
      → Same u m.sync (fetch t minion typ m).sync
  unfolding fetch
  fetch-Same_others none typ u m h = (refl, refl, refl)
  fetch-Same_others (some minion) typ u m h = ground arith

  pub on_version-Same_others :
      (minion : Option ℕ) (typ u : SyncType) (v : Version) (m : Maps)
      → same_type typ u ≡ false
      → Same u m.sync (on_version t minion typ v m).sync
  unfolding on_version on_newer
  on_version-Same_others minion typ u v m h =
      ground (
        arith,
        fetch-Same_others minion typ u m h,
        fetch-Same_others minion typ u (learn typ v m) h,
      )

  pub on_fetch_complete-Same_others :
      (minion : Option ℕ) (typ u : SyncType) (v : Version) (d : Option MapData) (m : Maps)
      → same_type typ u ≡ false
      → Same u m.sync (on_fetch_complete t minion typ v d m).1.sync
  unfolding on_fetch_complete
  on_fetch_complete-Same_others minion typ u v d m h = ground (
    arith,
    receive-Same_others typ u v d m h,
    fetch-Same_others minion typ u (receive typ v d m) h,
  )

-- Nothing newer than the known version is stored, and while something newer is known than is
-- stored, a fetch is marked as under way.
abbrev pub IsTracked : SyncType → SyncObjects → Type 0
IsTracked u s =
    (is_versioned u ≡ true → version_ge (s.known_versions u) (get_version u s) ≡ true)
    × (is_positive (cmp u (s.known_versions u) (get_version u s)) ≡ true → s.fetching_at u ≢ none)

pub Same-IsTracked :
    (u : SyncType) (s s' : SyncObjects) → Same u s s' → IsTracked u s → IsTracked u s'
Same-IsTracked u s s' e h = ground arith
