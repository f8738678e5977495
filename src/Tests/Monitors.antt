-- ===== src/Tests/Monitors.antt =====
-- A cluster's monitor.
use mathlib.Core.Option
use calamari.Prelude.{ℕ, ◌≡◌, refl, true, none, some, List, [], ◌∷◌, if◌then◌else◌, arith}
use calamari.Prelude.Dict.{lookup}
use calamari.Exec.{ok}
use calamari.Types.{osd_map}
use calamari.UserRequest.{new_request, rados}
use calamari.RequestCollection.{same_jid}
use calamari.RequestCollection.Failing.{lose_if_submitted}
use calamari.ClusterMonitor.{
  Monitor, new_monitor, is_favorite, FetchedMap, on_sync_object, heartbeat, cluster_object,
  Versions,
}
use calamari.ClusterMonitor.Favorite.{IsKnown, promoted, is_favorite_lem}
use calamari.ClusterMonitor.Healthy.{IsHealthy}
use calamari.ClusterMonitor.Events.{Happening, salt_event, user_request, live, live-IsHealthy}
use calamari.ClusterMonitor.Sources.{with_favorite, on_sync_object_ignores_favorite}
use calamari.Tests.Samples.{always, create_pool}
use calamari.Tests.Collections.{working, working-IsSound, working-IsIndexed}

abbrev every_minute : ℕ → ℕ
every_minute minion = 60

-- Minion 2 is the favorite, and was heard of at 100.
abbrev monitor : Monitor
monitor = record {
  fsid = 1;
  favorite_mon = some 2;
  last_heartbeat = (2, 100) ∷ [];
  update_time = 100;
  told = [];
  requests = working;
}

monitor-IsKnown : IsKnown monitor
unfolding lookup
monitor-IsKnown f e = (100, ground arith)

is_favorite_lem_example :
    let (result, m') = is_favorite always every_minute 3 300 5 monitor in
    (m'.favorite_mon
      ≡ (if promoted always every_minute 3 300 5 monitor then some 5 else monitor.favorite_mon))
    × (result ≡ ok (same_jid (some 5) m'.favorite_mon))
    × ((k : ℕ)
        → lookup k m'.requests.by_request_id ≡ (
            if promoted always every_minute 3 300 5 monitor
            then Option.map (lose_if_submitted 300 5) (lookup k monitor.requests.by_request_id)
            else lookup k monitor.requests.by_request_id))
    × IsKnown m'
is_favorite_lem_example =
    is_favorite_lem always every_minute 3 300 5 monitor monitor-IsKnown working-IsSound
      working-IsIndexed

promoted_after_silence : promoted always every_minute 3 300 5 monitor ≡ true
unfolding lookup
promoted_after_silence = refl

abbrev osd_map_5 : Versions
osd_map_5 typ = some (some 5)

abbrev fetched_map : FetchedMap
fetched_map = record { map_fsid = 1; typ = some osd_map; version = some 5; contents = none }

abbrev happenings : List Happening
happenings =
    salt_event 100 (heartbeat 1 2 osd_map_5)
    ∷ user_request 110 (λ m. ok (some (new_request 9 (some m.fsid) (rados create_pool))))
    ∷ salt_event 120 (cluster_object 2 true fetched_map)
    ∷ salt_event 500 (heartbeat 1 5 osd_map_5)
    ∷ []

live-IsHealthy_example : IsHealthy (live always every_minute 3 happenings (new_monitor 1 90))
live-IsHealthy_example = live-IsHealthy always every_minute 3 1 90 happenings

on_sync_object_ignores_favorite_example :
    let (result, m') = on_sync_object always every_minute 3 120 2 fetched_map monitor in
    on_sync_object always every_minute 3 120 2 fetched_map (with_favorite (some 7) monitor)
    ≡ (result, with_favorite (some 7) m')
on_sync_object_ignores_favorite_example =
    on_sync_object_ignores_favorite always every_minute 3 120 2 fetched_map (some 7) monitor
