-- ===== src/ClusterMonitor/Healthy.antt =====
-- What holds of a monitor whatever salt events and users' requests come.
use calamari.Prelude.{
  ℕ, ◌≡◌, refl, Bool, true, false, Option, none, some, List, [], ◌∷◌, inl, inr, arith, Option-cases,
  Bool-cases, if◌then◌else◌, ◌==◌, ltb, not, ◌*◌, ◌-◌,
}
use calamari.Prelude.Dict.{lookup, insert, lookup-insert}
use calamari.Exec.{
  Exception, assertion_error, key_error, Result, ok, err, Exec, ◌>>=◌, ◌>>◌, continue, when, modify,
  or_raise, require, gets, pure,
}
use calamari.Types.{
  SyncType, MapData, SyncObject, Version, Salt, sync_object_types, osd_map, mon_map, mds_map,
  mon_status, pg_summary, health, config, is_versioned,
}
use calamari.SyncObjects.{Maps, on_version, on_fetch_complete}
use calamari.RequestCollection.{Collection, same_jid, fail_all, on_map_all}
use calamari.RequestCollection.Sound.{IsSound, same_requests-IsSound, KeepsSound}
use calamari.RequestCollection.Safety.{fail_all-KeepsSound}
use calamari.RequestCollection.Maps.{on_map_all-KeepsSound}
use calamari.ClusterMonitor.{
  Monitor, Handler, on_requests, on_maps, tell, set_favorite, reconsider, choose, is_favorite,
  announce, announce_all, on_heartbeat, Notice, servers_on_osd_map, servers_on_mon_map,
  servers_on_mds_map, eventer_on_sync_object, persist, tell_servers, tell_new, inject_sync_object,
  spread, on_sync_object, FetchedMap, Versions,
}
use calamari.ClusterMonitor.Favorite.{IsKnown, heard-IsKnown}

-- The favorite has sent a heartbeat, and the requests are sound.
pub record IsHealthy (m : Monitor) : Type 0 where
  pub known : IsKnown m
  pub sound : IsSound m.requests

abbrev pub Keeps : {A : Type 0} → (Monitor → Type 0) → Handler A → Type 0
Keeps P h = (m : Monitor) → P m → P (h m).1

module _ {A : Type 0} where
  pub on_requests-KeepsHealthy :
      (op : Exec Collection A) → KeepsSound op → Keeps IsHealthy (on_requests op)
  on_requests-KeepsHealthy op k m h = record { known = h.known; sound = k m.requests h.sound }

  on_maps-KeepsSound : (fsid : ℕ) (f : Maps → A × Maps) → KeepsSound (on_maps fsid f)
  on_maps-KeepsSound fsid f c s = elim (Option-cases (lookup fsid c.clusters)) [
    | inl e ↦ rw (e, on_maps) s
    | inr (maps, e) ↦ rw (e, on_maps) (same_requests-IsSound c _ refl s)
  ]

module _ (P : Monitor → Type 0) where
  pub bind-Keeps :
      {A B : Type 0} (h : Handler A) (f : A → Handler B)
      → Keeps P h
      → ((a : A) → Keeps P (f a))
      → Keeps P (h >>= f)
  bind-Keeps {A = A} h f kh kf m g = go (h m).0 (h m).1 (kh m g)
    where
      go : (r : Result A) (m' : Monitor) → P m' → P (continue r f m').1
      go (ok a) m' g' = kf a m' g'
      go (err e) m' g' = g'

  pub when-Keeps : (b : Bool) (h : Handler (Unit {0})) → Keeps P h → Keeps P (when b h)
  when-Keeps true h k m g = k m g
  when-Keeps false h k m g = g

  pub or_raise-Keeps : {A : Type 0} (e : Exception) (o : Option A) → Keeps P (or_raise e o)
  or_raise-Keeps e none m g = g
  or_raise-Keeps e (some a) m g = g

  require-Keeps : (b : Bool) (e : Exception) → Keeps P (require b e)
  require-Keeps true e m g = g
  require-Keeps false e m g = g

-- A healthy monitor that has heard of the minion.
abbrev Heard : ℕ → Monitor → Type 0
Heard minion m = IsHealthy m × ((at : ℕ) × (lookup minion m.last_heartbeat ≡ some at))

promote-Keeps :
    (minion : ℕ)
    → Keeps {A = Unit {0}} (Heard minion) (modify (λ m. record m { favorite_mon = some minion }))
promote-Keeps minion m (h, (at, e)) =
    (record { known = λ f g. (at, ground (arith, e, g)); sound = h.sound }, (at, e))

set_favorite-Keeps : (t minion : ℕ) → Keeps (Heard minion) (set_favorite t minion)
unfolding set_favorite
set_favorite-Keeps t minion q g =
    let other = not (same_jid (some minion) q.favorite_mon) in
    bind-Keeps (Heard minion) (require other assertion_error) _
      (require-Keeps (Heard minion) other assertion_error)
      (λ _.
        bind-Keeps (Heard minion) (on_requests (fail_all t minion)) _
          (λ m g. (
            on_requests-KeepsHealthy (fail_all t minion) (fail_all-KeepsSound t minion) m g.0,
            g.1,
          ))
          λ _. promote-Keeps minion)
      q g

module _ (salt : Salt) (contact_period : ℕ → ℕ) (factor t : ℕ) where
  reconsider-Keeps :
      (minion favorite : ℕ)
      → Keeps (Heard minion) (reconsider salt contact_period factor t minion favorite)
  unfolding reconsider
  reconsider-Keeps minion favorite q g =
      let beat = lookup favorite q.last_heartbeat in
      bind-Keeps (Heard minion) (or_raise key_error beat) _
        (or_raise-Keeps (Heard minion) key_error beat)
        (λ last.
          when-Keeps (Heard minion) (ltb (contact_period favorite * factor) (t - last))
            (set_favorite t minion) (set_favorite-Keeps t minion))
        q g

  choose-Keeps : (minion : ℕ) → Keeps (Heard minion) (choose salt contact_period factor t minion)
  unfolding choose
  choose-Keeps minion q g = chosen q.favorite_mon q g
    where
      chosen :
          (favorite : Option ℕ)
          → Keeps (Heard minion) (elim favorite [
            | none ↦ (do set_favorite t minion; pure true)
            | some f ↦ if minion == f then pure true else (do
              reconsider salt contact_period factor t minion f
              gets (λ m. same_jid (some minion) m.favorite_mon))
          ])
      chosen none m g =
          bind-Keeps (Heard minion) (set_favorite t minion) _ (set_favorite-Keeps t minion)
            (λ _ m g. g) m g
      chosen (some f) m g = elim (Bool-cases (minion == f)) [
        | inl e ↦ rw e g
        | inr e ↦ rw e (
            bind-Keeps (Heard minion) (reconsider salt contact_period factor t minion f)
              (λ _. gets (λ m. same_jid (some minion) m.favorite_mon)) (reconsider-Keeps minion f)
              (λ _ m g. g) m g)
      ]

  is_favorite-KeepsHealthy :
      (minion : ℕ) → Keeps IsHealthy (is_favorite salt contact_period factor t minion)
  unfolding is_favorite
  is_favorite-KeepsHealthy minion m h =
      let noted : IsHealthy (record m { last_heartbeat = insert minion t m.last_heartbeat }) =
        record {
          known = heard-IsKnown salt contact_period factor t minion m h.known;
          sound = h.sound;
        } in
      (choose-Keeps minion (record m { last_heartbeat = insert minion t m.last_heartbeat })
        (noted, (t, ground (arith, lookup-insert minion minion t m.last_heartbeat)))).0

  announce-KeepsHealthy :
      (minion : ℕ) (typ : SyncType) (version : Version)
      → Keeps IsHealthy (announce salt contact_period factor t minion typ version)
  unfolding announce
  announce-KeepsHealthy minion typ version m h =
      let f : Maps → Unit {0} × Maps = λ maps. (tt, on_version t (some minion) typ version maps) in
      on_requests-KeepsHealthy (on_maps m.fsid f) (on_maps-KeepsSound m.fsid f) m h

  announce_all-KeepsHealthy :
      (minion : ℕ) (versions : Versions) (types : List SyncType)
      → Keeps IsHealthy (announce_all salt contact_period factor t minion versions types)
  unfolding announce_all
  announce_all-KeepsHealthy minion versions [] m h = h
  announce_all-KeepsHealthy minion versions (typ ∷ types) m h =
      bind-Keeps IsHealthy (or_raise key_error (versions typ)) _
        (or_raise-Keeps IsHealthy key_error (versions typ))
        (λ version.
          bind-Keeps IsHealthy (announce salt contact_period factor t minion typ version) _
            (announce-KeepsHealthy minion typ version)
            λ _. announce_all-KeepsHealthy minion versions types)
        m h

  pub on_heartbeat-KeepsHealthy :
      (minion : ℕ) (versions : Versions)
      → Keeps IsHealthy (on_heartbeat salt contact_period factor t minion versions)
  unfolding on_heartbeat
  on_heartbeat-KeepsHealthy minion versions =
      bind-Keeps IsHealthy (is_favorite salt contact_period factor t minion) _
        (is_favorite-KeepsHealthy minion)
        λ favored. when-Keeps IsHealthy favored _ λ m h.
          announce_all-KeepsHealthy minion versions sync_object_types (record m { update_time = t })
            (record { known = h.known; sound = h.sound })

  pub tell-KeepsHealthy : (n : Monitor → Notice) → Keeps IsHealthy (λ m. tell (n m) m)
  tell-KeepsHealthy n m h = record { known = h.known; sound = h.sound }

  tell_servers-KeepsHealthy :
      (typ : SyncType) (d : Option MapData)
      → Keeps IsHealthy (tell_servers salt contact_period factor t typ d)
  tell_servers-KeepsHealthy osd_map d m h = tell-KeepsHealthy (λ _. servers_on_osd_map d) m h
  tell_servers-KeepsHealthy mon_map d m h = tell-KeepsHealthy (λ _. servers_on_mon_map d) m h
  tell_servers-KeepsHealthy mds_map d m h = tell-KeepsHealthy (λ m. servers_on_mds_map m.fsid d) m h
  tell_servers-KeepsHealthy mon_status d m h = h
  tell_servers-KeepsHealthy pg_summary d m h = h
  tell_servers-KeepsHealthy health d m h = h
  tell_servers-KeepsHealthy config d m h = h

  tell_new-KeepsHealthy :
      (typ : SyncType) (old : SyncObject) (new : Option SyncObject)
      → Keeps IsHealthy (tell_new salt contact_period factor t typ old new)
  tell_new-KeepsHealthy typ old none m h = h
  tell_new-KeepsHealthy typ old (some so) m h =
      bind-Keeps IsHealthy (tell_servers salt contact_period factor t typ so.contents) _
        (tell_servers-KeepsHealthy typ so.contents)
        (λ _. tell-KeepsHealthy (λ q. eventer_on_sync_object q.fsid typ so old)) m h

  inject-KeepsHealthy :
      (minion : ℕ) (name : Option SyncType) (version : Version) (d : Option MapData)
      → Keeps IsHealthy (inject_sync_object salt contact_period factor t minion name version d)
  unfolding inject_sync_object
  inject-KeepsHealthy minion none version d m h = h
  inject-KeepsHealthy minion (some typ) version d m h =
      let peek : Maps → SyncObject × Maps = λ maps. (maps.sync.objects typ, maps) in
      bind-Keeps IsHealthy (on_requests (on_maps m.fsid peek)) _
        (on_requests-KeepsHealthy (on_maps m.fsid peek) (on_maps-KeepsSound m.fsid peek))
        (λ old q g.
          let f : Maps → Option SyncObject × Maps =
            on_fetch_complete t (some minion) typ version d in
          bind-Keeps IsHealthy (on_requests (on_maps q.fsid f)) _
            (on_requests-KeepsHealthy (on_maps q.fsid f) (on_maps-KeepsSound q.fsid f))
            (λ new.
              bind-Keeps IsHealthy (tell_new salt contact_period factor t typ old new) _
                (tell_new-KeepsHealthy typ old new) (λ _ p k. k))
            q g)
        m h

  spread-KeepsHealthy :
      (typ : SyncType) (new : Option SyncObject)
      → Keeps IsHealthy (spread salt contact_period factor t typ new)
  spread-KeepsHealthy typ none m h = h
  spread-KeepsHealthy typ (some so) m h =
      bind-Keeps IsHealthy (on_requests (on_map_all salt t m.fsid typ so)) _
        (on_requests-KeepsHealthy (on_map_all salt t m.fsid typ so)
          (on_map_all-KeepsSound salt t m.fsid typ so))
        (λ _.
          tell-KeepsHealthy
            (λ _. persist m.fsid typ (if is_versioned typ then so.version else none) t so.contents))
        m h

  pub on_sync_object-KeepsHealthy :
      (minion : ℕ) (d : FetchedMap)
      → Keeps IsHealthy (on_sync_object salt contact_period factor t minion d)
  unfolding on_sync_object
  on_sync_object-KeepsHealthy minion d m h =
      bind-Keeps IsHealthy (require (d.map_fsid == m.fsid) assertion_error) _
        (require-Keeps IsHealthy (d.map_fsid == m.fsid) assertion_error)
        (λ _.
          bind-Keeps IsHealthy (or_raise key_error d.typ) _
            (or_raise-Keeps IsHealthy key_error d.typ)
            λ typ.
              bind-Keeps IsHealthy
                (inject_sync_object salt contact_period factor t minion d.typ d.version d.contents)
                _ (inject-KeepsHealthy minion d.typ d.version d.contents)
                λ new. spread-KeepsHealthy typ new)
        m h
