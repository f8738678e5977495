-- ===== src/ClusterMonitor.antt =====
-- `class ClusterMonitor` of cthulhu/cthulhu/manager/cluster_monitor.py: the handlers of a minion's
-- heartbeats and of fetched maps, and the submission of users' requests. The requests and the
-- copies of the maps are the collection's (the program's monitor holds a reference to the first,
-- the collection one to the second). `t` is what `now()` reads, in seconds.
pub mod Favorite
pub mod Healthy
pub mod Events
pub mod Sources
use calamari.Prelude.{
  ℕ, ◌-◌, ◌*◌, Bool, true, Option, none, some, List, [], ◌∷◌, ltb, not, ◌&&◌, ◌==◌, if◌then◌else◌,
}
use calamari.Prelude.Dict.{Dict, lookup, insert}
use calamari.Exec.{
  Result, ok, err, Exec, pure, or_raise, ◌>>=◌, ◌>>◌, gets, modify, require, catch, when,
  assertion_error, key_error, cluster_unavailable,
}
use calamari.Types.{
  SyncType, is_versioned, sync_object_types, mds_map, osd_map, mon_map, Version, MapData,
  SyncObject, Salt,
}
use calamari.SyncObjects.{Maps, new_sync_objects, on_version, on_fetch_complete}
use calamari.UserRequest.{Request}
use calamari.RequestCollection.{
  Collection, new_collection, same_jid, fail_all, submit_request, on_tick_response, on_map_all,
}

-- What the ServerMonitor, the Eventer and the persister are told.
pub data Notice : Type 0 where
  servers_on_osd_map servers_on_mon_map : Option MapData → Notice
  servers_on_mds_map : (fsid : ℕ) → Option MapData → Notice
  eventer_on_sync_object : (fsid : ℕ) → SyncType → (new old : SyncObject) → Notice
  persist : (fsid : ℕ) → SyncType → Version → (t : ℕ) → Option MapData → Notice

pub record Monitor : Type 0 where
  pub fsid : ℕ
  pub favorite_mon : Option ℕ
  pub last_heartbeat : Dict ℕ
  pub update_time : ℕ
  pub told : List Notice
  pub requests : Collection

-- A new monitor, alone in a new manager.
abbrev pub new_monitor : ℕ → ℕ → Monitor
new_monitor fsid t = record {
  fsid = fsid;
  favorite_mon = none;
  last_heartbeat = [];
  update_time = t;
  told = [];
  requests = record new_collection { clusters = (fsid, new_sync_objects) ∷ [] };
}

abbrev pub Handler : Type 0 → Type 0
Handler A = Exec Monitor A

-- A call of the request collection.
abbrev pub on_requests : {A : Type 0} → Exec Collection A → Handler A
on_requests op m = let (result, c) = op m.requests in (result, record m { requests = c })

abbrev pub tell : Notice → Handler (Unit {0})
tell n = modify (λ m. record m { told = n ∷ m.told })

-- A call of the monitor's SyncObjects, which the collection has under the cluster's id.
abbrev pub on_maps : {A : Type 0} → ℕ → (Maps → A × Maps) → Exec Collection A
on_maps fsid f c = elim (lookup fsid c.clusters) [
  | none ↦ (err key_error, c)
  | some s ↦
      let (a, maps) = f (record { sync = s; sent = c.sent }) in
      (ok a, record c { clusters = insert fsid maps.sync c.clusters; sent = maps.sent })
]

-- `self._sync_objects.get(sync_type)`
abbrev pub get_sync_object : SyncType → Handler SyncObject
get_sync_object typ m = on_requests (on_maps m.fsid (λ maps. (maps.sync.objects typ, maps))) m

unfoldable pub set_favorite : ℕ → ℕ → Handler (Unit {0})
set_favorite t minion = do
  m ← gets (λ m. m)
  require (not (same_jid (some minion) m.favorite_mon)) assertion_error
  on_requests (fail_all t minion)
  modify (λ m. record m { favorite_mon = some minion })

-- What a minion's heartbeat announces: `none` for a type that is missing.
abbrev pub Versions : Type 0
Versions = SyncType → Option Version

-- A job's return that has the shape of `ceph.get_cluster_object`'s. `typ` is `none` where the
-- text names no type.
pub record FetchedMap : Type 0 where
  pub map_fsid : ℕ
  pub typ : Option SyncType
  pub version : Version
  pub contents : Option MapData

-- A salt event, as far as the monitor looks at it: a heartbeat, the answer to saltutil.running, a
-- return of `ceph.get_cluster_object` with a cluster's id, or any other.
pub data SaltEvent : Type 0 where
  heartbeat : (fsid minion : ℕ) → Versions → SaltEvent
  running_jobs : (jids : List ℕ) → SaltEvent
  cluster_object : (minion : ℕ) (success : Bool) → FetchedMap → SaltEvent
  other_event : SaltEvent

-- `contact_period` is ServerMonitor.get_contact_period, which salt's pillar answers, and `factor`
-- is FAVORITE_TIMEOUT_FACTOR, from the configuration.
module _ (salt : Salt) (contact_period : ℕ → ℕ) (factor t : ℕ) where
  -- The favorite is another minion: has it been silent for too long?
  unfoldable pub reconsider : ℕ → ℕ → Handler (Unit {0})
  reconsider minion favorite = do
    m ← gets (λ m. m)
    last ← or_raise key_error (lookup favorite m.last_heartbeat)
    when (ltb (contact_period favorite * factor) (t - last)) (set_favorite t minion)

  -- `_is_favorite` once the heartbeat is noted.
  unfoldable pub choose : ℕ → Handler Bool
  choose minion = do
    m ← gets (λ m. m)
    elim m.favorite_mon [
      | none ↦ (do set_favorite t minion; pure true)
      | some favorite ↦
          if minion == favorite
          then pure true
          else (do reconsider minion favorite; gets (λ m. same_jid (some minion) m.favorite_mon))
    ]

  unfoldable pub is_favorite : ℕ → Handler Bool
  is_favorite minion = do
    modify (λ m. record m { last_heartbeat = insert minion t m.last_heartbeat })
    choose minion

  -- `self._sync_objects.on_version(minion_id, sync_type, version)`
  unfoldable pub announce : ℕ → SyncType → Version → Handler (Unit {0})
  announce minion typ version m =
      on_requests (on_maps m.fsid (λ maps. (tt, on_version t (some minion) typ version maps))) m

  -- The loop of `on_heartbeat`, over the types.
  unfoldable pub announce_all : ℕ → Versions → List SyncType → Handler (Unit {0})
  announce_all minion versions [] = pure tt
  announce_all minion versions (typ ∷ types) = do
    version ← or_raise key_error (versions typ)
    announce minion typ version
    announce_all minion versions types

  unfoldable pub on_heartbeat : ℕ → Versions → Handler (Unit {0})
  on_heartbeat minion versions = do
    favored ← is_favorite minion
    when favored (do
      modify (λ m. record m { update_time = t })
      announce_all minion versions sync_object_types)

  -- The ServerMonitor is interested in some of the maps.
  abbrev pub tell_servers : SyncType → Option MapData → Handler (Unit {0})
  tell_servers osd_map contents = tell (servers_on_osd_map contents)
  tell_servers mon_map contents = tell (servers_on_mon_map contents)
  tell_servers mds_map contents = λ m. tell (servers_on_mds_map m.fsid contents) m
  tell_servers _ contents = pure tt

  abbrev pub tell_new : SyncType → SyncObject → Option SyncObject → Handler (Unit {0})
  tell_new typ old none = pure tt
  tell_new typ old (some new) = do
    tell_servers typ new.contents
    (λ m. tell (eventer_on_sync_object m.fsid typ new old) m)

  unfoldable pub inject_sync_object :
      ℕ → Option SyncType → Version → Option MapData → Handler (Option SyncObject)
  inject_sync_object minion name version contents = do
    typ ← or_raise key_error name
    old ← get_sync_object typ
    m ← gets (λ m. m)
    new ← on_requests (on_maps m.fsid (on_fetch_complete t (some minion) typ version contents))
    tell_new typ old new
    pure new

  abbrev pub spread : SyncType → Option SyncObject → Handler (Unit {0})
  spread typ none = pure tt
  spread typ (some new) = do
    m ← gets (λ m. m)
    on_requests (on_map_all salt t m.fsid typ new)
    tell (persist m.fsid typ (if is_versioned typ then new.version else none) t new.contents)

  -- That the map may not come from the favorite is only logged.
  unfoldable pub on_sync_object : ℕ → FetchedMap → Handler (Unit {0})
  on_sync_object minion d = do
    m ← gets (λ m. m)
    require (d.map_fsid == m.fsid) assertion_error
    typ ← or_raise key_error d.typ
    new ← inject_sync_object minion d.typ d.version d.contents
    spread typ new

  unfoldable pub dispatch : SaltEvent → Handler (Unit {0})
  dispatch (heartbeat fsid minion versions) = do
    m ← gets (λ m. m)
    when (fsid == m.fsid) (on_heartbeat minion versions)
  dispatch (running_jobs jids) = on_requests (on_tick_response t jids)
  dispatch (cluster_object minion success d) = do
    m ← gets (λ m. m)
    when ((d.map_fsid == m.fsid) && success) (on_sync_object minion d)
  dispatch other_event = pure tt

  -- The body of `_run`'s loop, which swallows exceptions.
  unfoldable pub on_event : SaltEvent → Handler (Unit {0})
  on_event ev = catch (dispatch ev) (λ _. pure tt)

  -- `_request`, whose factory's method is `make`: it reads the monitor and makes a request, or none
  -- where nothing is to do. Returns the request's id.
  unfoldable pub request : (Monitor → Result (Option Request)) → Handler (Option ℕ)
  request make = do
    m ← gets (λ m. m)
    favorite ← or_raise cluster_unavailable m.favorite_mon
    made ← (λ m. (make m, m))
    elim made [
      | none ↦ pure none
      | some r ↦ (do on_requests (submit_request salt t r favorite); pure (some r.id))
    ]
