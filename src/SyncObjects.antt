-- ===== src/SyncObjects.antt =====
-- `class SyncObjects` of cthulhu/cthulhu/manager/cluster_monitor.py: Calamari's copies of a
-- cluster's maps. The dicts have an entry for every type, so they are functions.
pub mod Versions
pub mod Fetching
use Prim.Native.Nat.{Ordering}
use calamari.Prelude.{
  ℕ, ◌-◌, Bool, true, false, Option, none, some, List, ◌∷◌, ltb, not, if◌then◌else◌,
}
use calamari.Types.{
  SyncType, same_type, Version, cmp, is_positive, MapData, SyncObject, null_object, Job,
  get_cluster_object,
}

abbrev pub PerType : Type 0 → Type 0
PerType A = SyncType → A

-- `d[typ] = a`
abbrev pub set_at : {A : Type 0} → SyncType → A → PerType A → PerType A
set_at typ a d u = if same_type typ u then a else d u

pub record SyncObjects : Type 0 where
  pub objects : PerType SyncObject
  pub fetching_at : PerType (Option ℕ)
  pub known_versions : PerType Version

unfoldable pub new_sync_objects : SyncObjects
new_sync_objects = record {
  objects = λ u. null_object;
  fetching_at = λ u. none;
  known_versions = λ u. none;
}

-- The collection, and the jobs that the program has started.
pub record Maps : Type 0 where
  pub sync : SyncObjects
  pub sent : List Job

abbrev pub get_version : SyncType → SyncObjects → Version
get_version typ s = (s.objects typ).version

-- FETCH_TIMEOUT, in seconds.
abbrev pub fetch_timeout : ℕ
fetch_timeout = 10

abbrev pub learn : SyncType → Version → Maps → Maps
learn typ v m =
    let s = m.sync in
    record m { sync = record s { known_versions = set_at typ v s.known_versions } }

abbrev pub mark : SyncType → Option ℕ → Maps → Maps
mark typ at m =
    let s = m.sync in record m { sync = record s { fetching_at = set_at typ at s.fetching_at } }

abbrev pub store : SyncType → SyncObject → Maps → Maps
store typ so m =
    let s = m.sync in record m { sync = record s { objects = set_at typ so s.objects } }

abbrev pub apply_if : {A : Type 0} → Bool → (A → A) → A → A
apply_if b f a = if b then f a else a

-- A fetch that was started less than the timeout ago.
abbrev pub is_underway : ℕ → Option ℕ → Bool
is_underway t none = false
is_underway t (some at) = ltb (t - at) fetch_timeout

-- The state that `on_fetch_complete` leaves before it may fetch again.
unfoldable pub receive : SyncType → Version → Option MapData → Maps → Maps
receive typ version contents m =
    let m₁ = mark typ none m in
    let m₂ =
      apply_if (is_positive (cmp typ version (m.sync.known_versions typ))) (learn typ version) m₁ in
    apply_if (is_positive (cmp typ version (get_version typ m.sync)))
      (store typ (record { version = version; contents = contents })) m₂

module _ (t : ℕ) where
  -- Whether the job could be published makes no difference to the state.
  unfoldable pub fetch : Option ℕ → SyncType → Maps → Maps
  fetch none typ m = m
  fetch (some minion) typ m =
      let m' = mark typ (some t) m in record m' { sent = get_cluster_object minion typ ∷ m.sent }

  -- A version that is newer than the stored one.
  unfoldable pub on_newer : Option ℕ → SyncType → Version → Maps → Maps
  on_newer reported_by typ new_version m =
      let s = m.sync in
      let m' =
        apply_if (is_positive (cmp typ new_version (s.known_versions typ))) (learn typ new_version)
          m in
      apply_if (not (is_underway t (s.fetching_at typ))) (fetch reported_by typ) m'

  unfoldable pub on_version : Option ℕ → SyncType → Version → Maps → Maps
  on_version reported_by typ new_version m =
      apply_if (is_positive (cmp typ new_version (get_version typ m.sync)))
        (on_newer reported_by typ new_version) m

  -- Returns the new object, if this version was new.
  unfoldable pub on_fetch_complete :
      Option ℕ → SyncType → Version → Option MapData → Maps → Option SyncObject × Maps
  unfolding receive
  on_fetch_complete minion typ version contents m =
      let m' = receive typ version contents m in
      (
        if is_positive (cmp typ version (get_version typ m.sync))
            then some (record { version = version; contents = contents })
            else none,
        apply_if (is_positive (cmp typ (m'.sync.known_versions typ) version)) (fetch minion typ) m',
      )
