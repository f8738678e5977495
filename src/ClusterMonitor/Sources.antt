-- ===== src/ClusterMonitor/Sources.antt =====
-- From whom the monitor takes a map.
use calamari.Prelude.{ℕ, ◌≡◌, arith, Option}
use calamari.Types.{Salt}
use calamari.ClusterMonitor.{Monitor, FetchedMap, inject_sync_object, on_sync_object}

abbrev pub with_favorite : Option ℕ → Monitor → Monitor
with_favorite f m = record m { favorite_mon = f }

module _ (salt : Salt) (contact_period : ℕ → ℕ) (factor t minion : ℕ) (d : FetchedMap) where
  -- A fetched map is handled in the same way whatever minion the favorite is, also where it does not
  -- come from the favorite: the outcome, the requests, the stored maps and what is told to others do
  -- not depend on the favorite, and the favorite stays.
  pub on_sync_object_ignores_favorite :
      (f : Option ℕ) (m : Monitor)
      → let (result, m') = on_sync_object salt contact_period factor t minion d m in
        on_sync_object salt contact_period factor t minion d (with_favorite f m)
        ≡ (result, with_favorite f m')
  unfolding on_sync_object inject_sync_object
  on_sync_object_ignores_favorite f m = ground arith
