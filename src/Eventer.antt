-- ===== src/Eventer.antt =====
-- cthulhu/cthulhu/manager/eventer.py: the events that the other components' news and the passing of
-- time give. A message is a constructor with what its text names; a text's wording and an event's
-- time are left out. `Contact` has the complaints about servers and clusters out of contact.
pub mod Maps
pub mod Contact
pub mod Telling
pub mod Turns
use calamari.Prelude.{
  ℕ, suc, Bool, true, false, not, ◌&&◌, ◌||◌, Option, none, some, List, [], ◌∷◌, ◌++◌, ◌==◌, ◌-◌,
  ◌*◌, if◌then◌else◌, ltb, elem, add, keep, length,
}
use calamari.Prelude.Dict.{Dict, lookup, insert}
use calamari.Prelude.Keyed.{map_keys}
use calamari.Exec.{
  Exec, ok, err, pure, raise, ◌>>=◌, ◌>>◌, gets, modify, when, each, or_raise, require, key_error,
  type_error,
}
use calamari.ServerMonitor.{
  State as MonitorState, ServiceId, Server, Osd, clusters, get_by_service, get_contact_period,
  osd_type, mon_type, mds_type,
}

-- The severities of events
abbrev pub error : ℕ
error = 2

abbrev pub warning : ℕ
warning = 3

abbrev pub recovery : ℕ
recovery = 4

abbrev pub info : ℕ
info = 5

pub data HealthStatus : Type 0 where
  health_ok health_warn health_err : HealthStatus
  other_health : ℕ → HealthStatus

pub data Message : Type 0 where
  started : Message
  request_started request_succeeded : (headline : ℕ) → Message
  request_failed : (headline error_message : ℕ) → Message
  server_added : (fqdn : ℕ) → Dict ℕ → Message
  server_rebooted ceph_uninstalled : (fqdn : ℕ) → Message
  ceph_installed : (version fqdn : ℕ) → Message
  server_late : (fqdn last_contact : ℕ) → Message
  server_regained : (fqdn : ℕ) → Message
  cluster_late cluster_regained : (name : ℕ) → Message
  osd_removed osd_added osd_up osd_down : (name id : ℕ) (on_server : Option ℕ) → Message
  mon_joined mon_left : (cluster_name mon_name : ℕ) (on_server : Option ℕ) → Message
  health_degraded health_recovered : (name : ℕ) (old new : HealthStatus) → Message

-- `Event`; a service is associated by its type and its id.
pub record Event : Type 0 where
  pub severity : ℕ
  pub message : Message
  pub fsid : Option ℕ
  pub fqdn : Option ℕ
  pub service : Option (ℕ × ℕ)

-- What the Eventer reads of a ClusterMonitor
pub record Cluster : Type 0 where
  pub name : ℕ
  pub update_time : Option ℕ

-- The Eventer with the manager's servers and clusters; `saved` is what the persister was given.
pub record State : Type 0 where
  pub servers : MonitorState
  pub clusters : Dict Cluster
  pub servers_complained : List ℕ
  pub clusters_complained : List ℕ
  pub events : List Event
  pub saved : List Event

abbrev pub Handler : Type 0 → Type 0
Handler A = Exec State A

unfoldable pub emit : Event → Handler (Unit {0})
emit e = modify (λ s. record s { events = s.events ++ e ∷ [] })

-- `_flush`: saving no event and clearing none is the same as doing nothing.
unfoldable pub flush : Handler (Unit {0})
flush = modify (λ s. record s { saved = s.saved ++ s.events; events = [] })

-- an event with no service
abbrev pub event : ℕ → Message → Option ℕ → Option ℕ → Event
event severity message fqdn fsid = record {
  severity = severity;
  message = message;
  fsid = fsid;
  fqdn = fqdn;
  service = none;
}

-- What a finished or started request tells
pub record Request : Type 0 where
  pub headline : ℕ
  pub error : Bool
  pub error_message : ℕ
  pub fqdn : Option ℕ
  pub fsid : Option ℕ

unfoldable pub on_user_request_begin : Request → Handler (Unit {0})
on_user_request_begin r = do emit (event info (request_started r.headline) r.fqdn r.fsid); flush

unfoldable pub on_user_request_complete : Request → Handler (Unit {0})
on_user_request_complete r = do
  emit (
      if r.error
      then event warning (request_failed r.headline r.error_message) r.fqdn r.fsid
      else event info (request_succeeded r.headline) r.fqdn r.fsid)
  flush

-- The one member, where there is just one
abbrev pub single : List ℕ → Option ℕ
single [] = none
single (x ∷ []) = some x
single (x ∷ y ∷ xs) = none

abbrev pub server_fsid : Server → Option ℕ
server_fsid x = single (clusters x)

-- `counts_by_type`
abbrev pub counts_by_type : List ServiceId → Dict ℕ → Dict ℕ
counts_by_type [] d = d
counts_by_type (id ∷ ids) d =
    counts_by_type ids (insert id.service_type (count (lookup id.service_type d)) d)
  where
    count : Option ℕ → ℕ
    count none = 1
    count (some n) = suc n

-- Whether all are keys of `human_singular`
abbrev pub are_human : List ServiceId → Bool
are_human [] = true
are_human (id ∷ ids) =
    (id.service_type == mon_type || id.service_type == osd_type || id.service_type == mds_type)
    && are_human ids

-- Another service's type is a KeyError of `_humanize_service`.
unfoldable pub on_server : Server → Handler (Unit {0})
on_server x = do
  require (are_human (map_keys x.services)) key_error
  emit (
      event info (server_added x.fqdn (counts_by_type (map_keys x.services) [])) (some x.fqdn)
        (server_fsid x))

unfoldable pub on_reboot : Server → Bool → Handler (Unit {0})
on_reboot x expected = emit (
    event (if expected then info else warning) (server_rebooted x.fqdn) (some x.fqdn)
      (server_fsid x))

abbrev pub version_message : ℕ → Option ℕ → Message
version_message fqdn none = ceph_uninstalled fqdn
version_message fqdn (some version) = ceph_installed version fqdn

unfoldable pub on_new_version : Server → Handler (Unit {0})
on_new_version x =
    emit (event info (version_message x.fqdn x.ceph_version) (some x.fqdn) (server_fsid x))

-- `set.discard`
abbrev pub discard : ℕ → List ℕ → List ℕ
discard n [] = []
discard n (x ∷ xs) = let rest = discard n xs in if x == n then rest else x ∷ rest

-- The time since the last contact is more than the threshold. A contact in the future is not.
abbrev pub is_late : ℕ → ℕ → ℕ → Bool
is_late threshold now last = ltb threshold (now - last)

unfoldable pub complain_server : ℕ → ℕ → Option ℕ → Handler (Unit {0})
complain_server fqdn last fsid = do
  s ← gets (λ s. s)
  when (not (elem fqdn s.servers_complained)) (do
    emit (event warning (server_late fqdn last) (some fqdn) fsid)
    modify (λ s. record s { servers_complained = add fqdn s.servers_complained }))

unfoldable pub recover_server : ℕ → Option ℕ → Handler (Unit {0})
recover_server fqdn fsid = do
  s ← gets (λ s. s)
  when (elem fqdn s.servers_complained) (do
    emit (event recovery (server_regained fqdn) (some fqdn) fsid)
    modify (λ s. record s { servers_complained = discard fqdn s.servers_complained }))

-- `self._manager.servers.get_contact_period(fqdn)`
unfoldable pub contact_period : (ℕ → Option ℕ) → ℕ → Handler ℕ
contact_period pillar fqdn s =
    let (r, m) = get_contact_period pillar fqdn s.servers in (r, record s { servers = m })

-- One server; the contact threshold's factor comes from the configuration.
unfoldable pub check_server : (ℕ → Option ℕ) → ℕ → ℕ → ℕ × ℕ → Handler (Unit {0})
check_server pillar factor now (fqdn, server) = do
  x ← gets (λ s. s.servers.server_at server)
  when x.managed (do
    period ← contact_period pillar fqdn
    last ← or_raise type_error x.last_contact
    if is_late (factor * period) now last
        then complain_server fqdn last (server_fsid x)
        else recover_server fqdn (server_fsid x))

unfoldable pub complain_cluster : ℕ → ℕ → Handler (Unit {0})
complain_cluster fsid name = do
  s ← gets (λ s. s)
  when (not (elem fsid s.clusters_complained)) (do
    modify (λ s. record s { clusters_complained = add fsid s.clusters_complained })
    emit (event warning (cluster_late name) none (some fsid)))

unfoldable pub recover_cluster : ℕ → ℕ → Handler (Unit {0})
recover_cluster fsid name = do
  s ← gets (λ s. s)
  when (elem fsid s.clusters_complained) (do
    emit (event recovery (cluster_regained name) none (some fsid))
    modify (λ s. record s { clusters_complained = discard fsid s.clusters_complained }))

abbrev pub cluster_is_late : ℕ → ℕ → Option ℕ → Bool
cluster_is_late threshold now none = true
cluster_is_late threshold now (some last) = is_late threshold now last

unfoldable pub check_cluster : ℕ → ℕ → ℕ × Cluster → Handler (Unit {0})
check_cluster threshold now (fsid, c) =
    if cluster_is_late threshold now c.update_time
    then complain_cluster fsid c.name
    else recover_cluster fsid c.name

-- `on_tick`, with the configuration's factor for servers and threshold for clusters
unfoldable pub on_tick : (ℕ → Option ℕ) → ℕ → ℕ → ℕ → Handler (Unit {0})
on_tick pillar factor threshold now = do
  s ← gets (λ s. s)
  each (check_server pillar factor now) s.servers.servers
  each (check_cluster threshold now) s.clusters
  flush
