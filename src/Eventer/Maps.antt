-- ===== src/Eventer/Maps.antt =====
-- The events that a newer map or health report gives.
use calamari.Prelude.{
  without_all, with_all, ℕ, Bool, true, false, not, Option, none, some, List, [], ◌∷◌, ◌==◌,
  if◌then◌else◌, ltb, add,
}
use calamari.Prelude.Dict.{Dict, lookup}
use calamari.Exec.{ok, err, pure, ◌>>=◌, ◌>>◌, gets, when, each, or_raise, key_error}
use calamari.ServerMonitor.{ServiceId, Osd, get_by_service, osd_type, mon_type, same_bool}
use calamari.Eventer.{
  State, Handler, Message, HealthStatus, emit, flush, event, info, warning, recovery, error,
  osd_removed, osd_added, osd_up, osd_down, mon_joined, mon_left, health_degraded, health_recovered,
  health_ok, health_warn, health_err, other_health,
}

-- `_get_fqdn`
unfoldable pub get_fqdn : State → ServiceId → Option ℕ
get_fqdn s id = elim (get_by_service s.servers id) [
  | none ↦ none
  | some server ↦ some (s.servers.server_at server).fqdn
]

-- `self._manager.clusters[fsid].name`
abbrev pub cluster_name : ℕ → Handler ℕ
cluster_name fsid s = elim (lookup fsid s.clusters) [
  | none ↦ (err key_error, s)
  | some c ↦ (ok c.name, s)
]

-- `osd_event`, with the message's constructor
unfoldable pub osd_event : ℕ → ℕ → (ℕ → ℕ → Option ℕ → Message) → ℕ → Handler (Unit {0})
osd_event fsid severity msg osd_id = do
  name ← cluster_name fsid
  fqdn ←
      gets (λ s. get_fqdn s (record { fsid = fsid; service_type = osd_type; service_id = osd_id }))
  emit (record {
    severity = severity;
    message = msg name osd_id fqdn;
    fsid = some fsid;
    fqdn = fqdn;
    service = some (osd_type, osd_id);
  })

-- `set([o['osd'] for o in osds])`
abbrev pub osd_ids : List Osd → List ℕ
osd_ids [] = []
osd_ids (o ∷ os) = add o.osd (osd_ids os)

-- `osds_by_id[id]['up']`, where the last item of an id counts
abbrev pub up_of : ℕ → List Osd → Option Bool
up_of id [] = none
up_of id (o ∷ os) = elim (up_of id os) [
  | some b ↦ some b
  | none ↦ if o.osd == id then some o.up else none
]

-- One OSD of both maps
unfoldable pub osd_changed : ℕ → List Osd → List Osd → ℕ → Handler (Unit {0})
osd_changed fsid new old id = do
  old_up ← or_raise key_error (up_of id old)
  new_up ← or_raise key_error (up_of id new)
  when (not (same_bool old_up new_up))
      (if new_up then osd_event fsid recovery osd_up id else osd_event fsid warning osd_down id)

-- `_on_osd_map`
unfoldable pub on_osd_map : ℕ → List Osd → List Osd → Handler (Unit {0})
on_osd_map fsid new old = do
  each (osd_event fsid info osd_removed) (without_all (osd_ids old) (osd_ids new))
  each (osd_event fsid info osd_added) (without_all (osd_ids new) (osd_ids old))
  each (osd_changed fsid new old) (with_all (osd_ids old) (osd_ids new))

-- What `_on_mon_status` reads of a status: `quorum` as a set, and the names by rank
pub record MonStatus : Type 0 where
  pub quorum : List ℕ
  pub mons_by_rank : Dict ℕ

-- `_mon_event`: the name is looked up in the new status.
unfoldable pub mon_event : ℕ → MonStatus → ℕ → (ℕ → ℕ → Option ℕ → Message) → ℕ → Handler (Unit {0})
mon_event fsid new severity msg mon_rank = do
  name ← or_raise key_error (lookup mon_rank new.mons_by_rank)
  cluster ← cluster_name fsid
  fqdn ← gets (λ s. get_fqdn s (record { fsid = fsid; service_type = mon_type; service_id = name }))
  emit (event severity (msg cluster name fqdn) fqdn (some fsid))

-- `_on_mon_status`
unfoldable pub on_mon_status : ℕ → MonStatus → MonStatus → Handler (Unit {0})
on_mon_status fsid new old = do
  each (mon_event fsid new recovery mon_joined) (without_all new.quorum old.quorum)
  each (mon_event fsid new warning mon_left) (without_all old.quorum new.quorum)

-- `health_severity`
abbrev pub health_severity : HealthStatus → Option ℕ
health_severity health_ok = some info
health_severity health_warn = some warning
health_severity health_err = some error
health_severity (other_health n) = none

abbrev pub same_status : HealthStatus → HealthStatus → Bool
same_status health_ok health_ok = true
same_status health_warn health_warn = true
same_status health_err health_err = true
same_status (other_health a) (other_health b) = a == b
same_status _ _ = false

-- `_on_health`
unfoldable pub on_health : ℕ → HealthStatus → HealthStatus → Handler (Unit {0})
on_health fsid new old = when (not (same_status old new)) (do
  new_severity ← or_raise key_error (health_severity new)
  old_severity ← or_raise key_error (health_severity old)
  name ← cluster_name fsid
  emit (
      if ltb new_severity old_severity
      then event new_severity (health_degraded name old new) none (some fsid)
      else event recovery (health_recovered name old new) none (some fsid)))

-- The new and the old data of an object; `none` is an object that was null.
pub data Update : Type 0 where
  osd_map_update : (new : List Osd) → Option (List Osd) → Update
  health_update : (new : HealthStatus) → Option HealthStatus → Update
  mon_status_update : (new : MonStatus) → Option MonStatus → Update
  other_update : (had_data : Bool) → Update

-- `on_sync_object`
unfoldable pub on_sync_object : ℕ → Update → Handler (Unit {0})
on_sync_object fsid (osd_map_update new none) = pure tt
on_sync_object fsid (osd_map_update new (some old)) = on_osd_map fsid new old >> flush
on_sync_object fsid (health_update new none) = pure tt
on_sync_object fsid (health_update new (some old)) = on_health fsid new old >> flush
on_sync_object fsid (mon_status_update new none) = pure tt
on_sync_object fsid (mon_status_update new (some old)) = on_mon_status fsid new old >> flush
on_sync_object fsid (other_update had_data) = when had_data flush
