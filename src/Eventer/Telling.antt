-- ===== src/Eventer/Telling.antt =====
-- Each of the Eventer's methods keeps what was told in turns.
use calamari.Prelude.{
  ◌≡◌, without_all, with_all, ℕ, refl, Bool, true, false, not, Option, none, some, List, ◌*◌,
  if◌then◌else◌, ltb, inl, inr, Option-cases,
}
use calamari.Prelude.Dict.{Dict, lookup}
use calamari.Exec.{each, or_raise, type_error, key_error, ◌>>=◌, ◌>>◌}
use calamari.Exec.Rules.{
  Keeps, bind-Keeps, then-Keeps, when-Keeps, if-Keeps, each-Keeps, or_raise-Keeps,
}
use calamari.ServerMonitor.{State as MonitorState, Osd, get_contact_period, same_bool}
use calamari.Eventer.{
  State, Event, Message, Cluster, HealthStatus, emit, flush, event, info, warning, recovery,
  complain_server, recover_server, contact_period, check_server, check_cluster, cluster_is_late,
  is_late, server_fsid, on_tick, osd_removed, osd_added, osd_up, osd_down, mon_joined, mon_left,
  health_degraded, health_recovered,
}
use calamari.Eventer.Maps.{
  Update, osd_map_update, health_update, mon_status_update, other_update, on_sync_object,
  on_osd_map, on_mon_status, on_health, osd_event, osd_changed, mon_event, MonStatus, cluster_name,
  up_of, osd_ids, health_severity, same_status,
}
use calamari.Eventer.Contact.{
  IsTold, IsNews, is_contact, is_contact-IsNews, emit-IsTold, flush-IsTold, complain_server-IsTold,
  recover_server-IsTold, complain_cluster-IsTold, recover_cluster-IsTold,
}

-- News of other components leave what was told.
pub others-IsTold :
    (m : MonitorState) (c : Dict Cluster) (s : State)
    → IsTold s
    → IsTold (record s { servers = m; clusters = c })
others-IsTold m c s h = record { of_servers = h.of_servers; of_clusters = h.of_clusters }

contact_period-IsTold :
    (pillar : ℕ → Option ℕ) (fqdn : ℕ) → Keeps IsTold (contact_period pillar fqdn)
unfolding contact_period
contact_period-IsTold pillar fqdn s h =
    others-IsTold (get_contact_period pillar fqdn s.servers).1 s.clusters s h

check_server-IsTold :
    (pillar : ℕ → Option ℕ) (factor now : ℕ) (item : ℕ × ℕ)
    → Keeps IsTold (check_server pillar factor now item)
unfolding check_server
check_server-IsTold pillar factor now (fqdn, server) s =
    let x = s.servers.server_at server in
    let judge = λ (period last : ℕ).
      if is_late (factor * period) now last
      then complain_server fqdn last (server_fsid x)
      else recover_server fqdn (server_fsid x) in
    let read = λ (period : ℕ). or_raise type_error x.last_contact >>= λ last. judge period last in
    when-Keeps IsTold x.managed (contact_period pillar fqdn >>= read)
      (bind-Keeps IsTold (contact_period pillar fqdn) read (contact_period-IsTold pillar fqdn)
        (λ period.
          bind-Keeps IsTold (or_raise type_error x.last_contact) (judge period)
            (or_raise-Keeps IsTold type_error x.last_contact)
            (λ last.
              if-Keeps IsTold (is_late (factor * period) now last) _ _
                (complain_server-IsTold fqdn last (server_fsid x))
                (recover_server-IsTold fqdn (server_fsid x)))))
      s

check_cluster-IsTold :
    (threshold now : ℕ) (item : ℕ × Cluster) → Keeps IsTold (check_cluster threshold now item)
unfolding check_cluster
check_cluster-IsTold threshold now (fsid, c) =
    if-Keeps IsTold (cluster_is_late threshold now c.update_time) _ _
      (complain_cluster-IsTold fsid c.name) (recover_cluster-IsTold fsid c.name)

pub on_tick-IsTold :
    (pillar : ℕ → Option ℕ) (factor threshold now : ℕ)
    → Keeps IsTold (on_tick pillar factor threshold now)
unfolding on_tick
on_tick-IsTold pillar factor threshold now s =
    let clusters = each (check_cluster threshold now) s.clusters >> flush in
    then-Keeps IsTold (each (check_server pillar factor now) s.servers.servers) clusters
      (each-Keeps IsTold (check_server pillar factor now) (check_server-IsTold pillar factor now)
        s.servers.servers)
      (then-Keeps IsTold (each (check_cluster threshold now) s.clusters) flush
        (each-Keeps IsTold (check_cluster threshold now) (check_cluster-IsTold threshold now)
          s.clusters)
        flush-IsTold)
      s

-- A message about a service of the cluster
abbrev IsServiceNews : (ℕ → ℕ → Option ℕ → Message) → Type 0
IsServiceNews msg = (a b : ℕ) (o : Option ℕ) → is_contact (msg a b o) ≡ false

cluster_name-IsTold : (fsid : ℕ) → Keeps IsTold (cluster_name fsid)
cluster_name-IsTold fsid s h = elim (Option-cases (lookup fsid s.clusters)) [
  | inl e ↦ rw (e, cluster_name) h
  | inr (c, e) ↦ rw (e, cluster_name) h
]

osd_event-IsTold :
    (fsid severity : ℕ) (msg : ℕ → ℕ → Option ℕ → Message) (id : ℕ)
    → IsServiceNews msg
    → Keeps IsTold (osd_event fsid severity msg id)
unfolding osd_event
osd_event-IsTold fsid severity msg id n =
    bind-Keeps IsTold (cluster_name fsid) _ (cluster_name-IsTold fsid)
      (λ name s h. emit-IsTold _ (is_contact-IsNews _ (n name id _)) s h)

mon_event-IsTold :
    (fsid : ℕ) (new : MonStatus) (severity : ℕ) (msg : ℕ → ℕ → Option ℕ → Message) (rank : ℕ)
    → IsServiceNews msg
    → Keeps IsTold (mon_event fsid new severity msg rank)
unfolding mon_event
mon_event-IsTold fsid new severity msg rank n =
    bind-Keeps IsTold (or_raise key_error (lookup rank new.mons_by_rank)) _
      (or_raise-Keeps IsTold key_error (lookup rank new.mons_by_rank))
      (λ name.
        bind-Keeps IsTold (cluster_name fsid) _ (cluster_name-IsTold fsid)
          (λ cluster s h. emit-IsTold _ (is_contact-IsNews _ (n cluster name _)) s h))

osd_changed-IsTold :
    (fsid : ℕ) (new old : List Osd) (id : ℕ) → Keeps IsTold (osd_changed fsid new old id)
unfolding osd_changed
osd_changed-IsTold fsid new old id =
    bind-Keeps IsTold (or_raise key_error (up_of id old)) _
      (or_raise-Keeps IsTold key_error (up_of id old))
      (λ a.
        bind-Keeps IsTold (or_raise key_error (up_of id new)) _
          (or_raise-Keeps IsTold key_error (up_of id new))
          (λ b. when-Keeps IsTold (not (same_bool a b)) _ (
            if-Keeps IsTold b (osd_event fsid recovery osd_up id)
              (osd_event fsid warning osd_down id)
              (osd_event-IsTold fsid recovery osd_up id (λ i j o. refl))
              (osd_event-IsTold fsid warning osd_down id (λ i j o. refl)))))

on_osd_map-IsTold : (fsid : ℕ) (new old : List Osd) → Keeps IsTold (on_osd_map fsid new old)
unfolding on_osd_map
on_osd_map-IsTold fsid new old =
    then-Keeps IsTold (each (osd_event fsid info osd_removed) removed)
      (each (osd_event fsid info osd_added) added >> each (osd_changed fsid new old) kept)
      (each-Keeps IsTold (osd_event fsid info osd_removed)
        (λ id. osd_event-IsTold fsid info osd_removed id (λ i j o. refl)) removed)
      (then-Keeps IsTold (each (osd_event fsid info osd_added) added)
        (each (osd_changed fsid new old) kept)
        (each-Keeps IsTold (osd_event fsid info osd_added)
          (λ id. osd_event-IsTold fsid info osd_added id (λ i j o. refl)) added)
        (each-Keeps IsTold (osd_changed fsid new old) (osd_changed-IsTold fsid new old) kept))
  where
    removed : List ℕ
    removed = without_all (osd_ids old) (osd_ids new)

    added : List ℕ
    added = without_all (osd_ids new) (osd_ids old)

    kept : List ℕ
    kept = with_all (osd_ids old) (osd_ids new)

on_mon_status-IsTold : (fsid : ℕ) (new old : MonStatus) → Keeps IsTold (on_mon_status fsid new old)
unfolding on_mon_status
on_mon_status-IsTold fsid new old =
    then-Keeps IsTold (each (mon_event fsid new recovery mon_joined) joined)
      (each (mon_event fsid new warning mon_left) left)
      (each-Keeps IsTold (mon_event fsid new recovery mon_joined)
        (λ r. mon_event-IsTold fsid new recovery mon_joined r (λ i j o. refl)) joined)
      (each-Keeps IsTold (mon_event fsid new warning mon_left)
        (λ r. mon_event-IsTold fsid new warning mon_left r (λ i j o. refl)) left)
  where
    joined : List ℕ
    joined = without_all new.quorum old.quorum

    left : List ℕ
    left = without_all old.quorum new.quorum

pub either : (b : Bool) (x y : Event) → IsNews x → IsNews y → IsNews (if b then x else y)
either true x y m n = m
either false x y m n = n

on_health-IsTold : (fsid : ℕ) (new old : HealthStatus) → Keeps IsTold (on_health fsid new old)
unfolding on_health
on_health-IsTold fsid new old = when-Keeps IsTold (not (same_status old new)) _ (
    bind-Keeps IsTold (or_raise key_error (health_severity new)) _
      (or_raise-Keeps IsTold key_error (health_severity new))
      (λ a.
        bind-Keeps IsTold (or_raise key_error (health_severity old)) _
          (or_raise-Keeps IsTold key_error (health_severity old))
          (λ b.
            bind-Keeps IsTold (cluster_name fsid) _ (cluster_name-IsTold fsid)
              (λ name. said a b name))))
  where
    degraded : ℕ → ℕ → Event
    degraded a name = event a (health_degraded name old new) none (some fsid)

    recovered : ℕ → Event
    recovered name = event recovery (health_recovered name old new) none (some fsid)

    said :
        (a b name : ℕ) → Keeps IsTold (emit (if ltb a b then degraded a name else recovered name))
    said a b name = emit-IsTold _ (
        either (ltb a b) (degraded a name) (recovered name) (is_contact-IsNews _ refl)
          (is_contact-IsNews _ refl))

pub on_sync_object-IsTold : (fsid : ℕ) (u : Update) → Keeps IsTold (on_sync_object fsid u)
unfolding on_sync_object
on_sync_object-IsTold fsid (osd_map_update new none) s h = h
on_sync_object-IsTold fsid (osd_map_update new (some old)) s h =
    then-Keeps IsTold (on_osd_map fsid new old) flush (on_osd_map-IsTold fsid new old) flush-IsTold
      s h
on_sync_object-IsTold fsid (health_update new none) s h = h
on_sync_object-IsTold fsid (health_update new (some old)) s h =
    then-Keeps IsTold (on_health fsid new old) flush (on_health-IsTold fsid new old) flush-IsTold s
      h
on_sync_object-IsTold fsid (mon_status_update new none) s h = h
on_sync_object-IsTold fsid (mon_status_update new (some old)) s h =
    then-Keeps IsTold (on_mon_status fsid new old) flush (on_mon_status-IsTold fsid new old)
      flush-IsTold s h
on_sync_object-IsTold fsid (other_update had_data) s h =
    when-Keeps IsTold had_data flush flush-IsTold s h
