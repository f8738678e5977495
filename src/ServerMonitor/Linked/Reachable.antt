-- ===== src/ServerMonitor/Linked/Reachable.antt =====
-- The monitor's states, by its calls in any order from a start without records.
use calamari.Prelude.{ℕ, ◌≡◌, Option, some, List, inl, inr, arith, Option-cases}
use calamari.Prelude.Dict.{lookup, lookup-nil}
use calamari.Prelude.Keyed.{find, find-nil}
use calamari.Exec.Rules.{Keeps, bind-Keeps}
use calamari.Exec.{gets}
use calamari.ServerMonitor.Objects.{
  ServiceId, service_eq, State, Handler, services_of, new_state, mds_type, mon_type,
}
use calamari.ServerMonitor.Tree.{OsdData}
use calamari.ServerMonitor.Maps.{on_mds_map, on_mon_map, on_osd_map, ids_of}
use calamari.ServerMonitor.Heartbeat.{ServerHeartbeat, on_server_heartbeat, get_contact_period}
use calamari.ServerMonitor.Removal.{delete, delete_cluster}
use calamari.ServerMonitor.Queries.{servers_of, get_all_cluster, get_by_service}
use calamari.ServerMonitor.Linked.{IsLinked}
use calamari.ServerMonitor.Linked.Steps.{Holds, others-IsLinked, services_of-IsLinked}
use calamari.ServerMonitor.Linked.Forgetting.{
  forget_missing-IsLinked, delete-IsLinked, delete_cluster-IsLinked,
}
use calamari.ServerMonitor.Linked.Reporting.{on_server_heartbeat-IsLinked}
use calamari.ServerMonitor.Linked.Mapping.{on_osd_map-IsLinked}

-- A call that raises counts too, with what it wrote before.
pub data Reached : State → Type 0 where
  start : Reached new_state
  heartbeat :
      {s : State} (grains : ℕ → Option ℕ) (now fqdn : ℕ) (beat : ServerHeartbeat)
      → Reached s
      → Reached (on_server_heartbeat grains now fqdn beat s).1
  osd_map :
      {s : State} (crush_host_type crush_osd_type limit : ℕ) (m : OsdData)
      → Reached s
      → Reached (on_osd_map crush_host_type crush_osd_type limit m s).1
  mds_map :
      {s : State} (fsid : ℕ) (names : List ℕ) → Reached s → Reached (on_mds_map fsid names s).1
  mon_map :
      {s : State} (fsid : ℕ) (names : List ℕ) → Reached s → Reached (on_mon_map fsid names s).1
  server_deleted : {s : State} (fqdn : ℕ) → Reached s → Reached (delete fqdn s).1
  cluster_deleted : {s : State} (fsid : ℕ) → Reached s → Reached (delete_cluster fsid s).1
  cluster_read : {s : State} (fsid : ℕ) → Reached s → Reached (get_all_cluster fsid s).1
  period_read :
      {s : State} (pillar : ℕ → Option ℕ) (fqdn : ℕ)
      → Reached s
      → Reached (get_contact_period pillar fqdn s).1

new_state-IsLinked : IsLinked new_state
new_state-IsLinked = record {
  named = λ id p e. ground (arith, find-nil {V = ℕ} id);
  placed = λ id p n e k. ground (arith, find-nil {V = ℕ} id);
  owned = λ id p n e k. ground (arith, find-nil {V = ℕ} id);
  manned = λ id p e. ground (arith, find-nil {V = ℕ} id);
  made = λ id p e. ground (arith, find-nil {V = ℕ} id);
  made_server = λ id p n e k. ground (arith, find-nil {V = ℕ} id);
  made_listed = λ id p n e. ground (arith, find-nil {V = ℕ} id);
  found = λ k p e. ground (arith, lookup-nil {V = ℕ} k);
  hosted = λ k p e. ground (arith, lookup-nil {V = ℕ} k);
}

get_contact_period-IsLinked :
    (pillar : ℕ → Option ℕ) (fqdn : ℕ) → Keeps IsLinked (get_contact_period pillar fqdn)
unfolding get_contact_period
get_contact_period-IsLinked pillar fqdn s h = elim (Option-cases (lookup fqdn s.contact_periods)) [
  | inl e ↦ rw (e, get_contact_period) (others-IsLinked s s.fsid_services _ s.told h)
  | inr (p, e) ↦ rw (e, get_contact_period) h
]

-- from a bounded reference to the agreement alone
without_bound : {A : Type 0} (m : Handler A) → Keeps (Holds 0) m → Keeps IsLinked m
without_bound m k s h = (k s (h, ground arith)).0

-- From a start without records, and whatever calls are made in whatever order, the indexes of the
-- server monitor agree: an index leads to the
-- service of that id, each known service has a server that lists it, no other server lists it, and
-- every reference leads to an object.
pub reached-IsLinked : (s : State) → Reached s → IsLinked s
unfolding on_mds_map on_mon_map get_all_cluster
reached-IsLinked _ start = new_state-IsLinked
reached-IsLinked _ (heartbeat {s = s} grains now fqdn beat r) =
    without_bound (on_server_heartbeat grains now fqdn beat)
      (on_server_heartbeat-IsLinked grains now fqdn beat) s (reached-IsLinked s r)
reached-IsLinked _ (osd_map {s = s} a b c m r) =
    without_bound (on_osd_map a b c m) (on_osd_map-IsLinked a b c m) s (reached-IsLinked s r)
reached-IsLinked _ (mds_map {s = s} fsid names r) =
    without_bound (on_mds_map fsid names)
      (forget_missing-IsLinked 0 fsid mds_type (ids_of fsid mds_type names)) s
      (reached-IsLinked s r)
reached-IsLinked _ (mon_map {s = s} fsid names r) =
    without_bound (on_mon_map fsid names)
      (forget_missing-IsLinked 0 fsid mon_type (ids_of fsid mon_type names)) s
      (reached-IsLinked s r)
reached-IsLinked _ (server_deleted {s = s} fqdn r) =
    without_bound (delete fqdn) (delete-IsLinked 0 fqdn) s (reached-IsLinked s r)
reached-IsLinked _ (cluster_deleted {s = s} fsid r) =
    without_bound (delete_cluster fsid) (delete_cluster-IsLinked 0 fsid) s (reached-IsLinked s r)
reached-IsLinked _ (cluster_read {s = s} fsid r) =
    without_bound (get_all_cluster fsid)
      (bind-Keeps (Holds 0) (services_of fsid) (λ l. gets (λ s. servers_of s l))
        (services_of-IsLinked 0 fsid) (λ l s h. h))
      s (reached-IsLinked s r)
reached-IsLinked _ (period_read {s = s} pillar fqdn r) =
    get_contact_period-IsLinked pillar fqdn s (reached-IsLinked s r)

-- In any state that the monitor reaches, a service that it knows runs on one server: the one that
-- `get_by_service` names, which lists the service, and no other server lists it.
pub one_server :
    (s : State) (id : ServiceId) (p : ℕ)
    → Reached s
    → find id s.services ≡ some p
    → (server : ℕ) × (get_by_service s id ≡ some server)
      × (find id (s.server_at server).services ≡ some p)
      × ((other : ℕ) → find id (s.server_at other).services ≡ some p → other ≡ server)
unfolding get_by_service
one_server s id p r e =
    let h = reached-IsLinked s r in
    elim (Option-cases (s.service_at p).server) [
      | inl u ↦ elim (h.manned id p e u) [ ]
      | inr (n, u) ↦ (
        n,
        rw (e, get_by_service) u,
        h.placed id p n e u,
        λ other f. ground (arith, h.owned id p other e f),
      )
    ]
