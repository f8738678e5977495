-- ===== src/Eventer/Turns.antt =====
-- The Eventer's calls in any order, and the single results of its checks.
use calamari.Prelude.{
  elem-without_all, ◌∙◌, without_all, ℕ, ◌≡◌, ◌<◌, ap, refl, Bool, true, false, Option, none, some,
  List, [], ◌∷◌, ◌++◌, ◌*◌, ◌==◌, if◌then◌else◌, elem, ltb, inl, inr, arith, Bool-cases,
}
use calamari.Prelude.Dict.{Dict, lookup}
use calamari.Prelude.Keyed.{map_keys}
use calamari.Exec.{Exception, Result-cases, each, ok, err, key_error}
use calamari.Exec.Rules.{then-Keeps}
use calamari.ServerMonitor.{
  State as MonitorState, Server, get_contact_period, new_state as new_monitor,
}
use calamari.Eventer.{
  State, Handler, Event, Cluster, Request, HealthStatus, emit, flush, event, info, warning,
  recovery, check_server, complain_server, recover_server, contact_period, is_late, server_fsid,
  are_human, on_tick, on_user_request_begin, on_user_request_complete, on_server, on_reboot,
  on_new_version, version_message, request_started, request_failed, request_succeeded, mon_left,
  mon_joined, health_degraded, health_recovered, health_ok, health_warn, health_err, other_health,
  error,
}
use calamari.Eventer.Maps.{Update, on_sync_object, on_health, on_mon_status, mon_event, MonStatus}
use calamari.Eventer.Contact.{
  IsTold, IsNews, is_contact-IsNews, emit-IsTold, flush-IsTold, contact, elem-discard,
}
use calamari.Eventer.Telling.{others-IsTold, on_tick-IsTold, on_sync_object-IsTold, either}

abbrev pub new_state : State
new_state = record {
  servers = new_monitor;
  clusters = [];
  servers_complained = [];
  clusters_complained = [];
  events = [];
  saved = [];
}

-- `others` is what the servers' and the clusters' monitors do in between.
pub data Reached : State → Type 0 where
  start : Reached new_state
  others :
      {s : State} (m : MonitorState) (c : Dict Cluster)
      → Reached s
      → Reached (record s { servers = m; clusters = c })
  tick :
      {s : State} (pillar : ℕ → Option ℕ) (factor threshold now : ℕ)
      → Reached s
      → Reached (on_tick pillar factor threshold now s).1
  synced : {s : State} (fsid : ℕ) (u : Update) → Reached s → Reached (on_sync_object fsid u s).1
  begun : {s : State} (r : Request) → Reached s → Reached (on_user_request_begin r s).1
  completed : {s : State} (r : Request) → Reached s → Reached (on_user_request_complete r s).1
  added : {s : State} (x : Server) → Reached s → Reached (on_server x s).1
  rebooted :
      {s : State} (x : Server) (expected : Bool) → Reached s → Reached (on_reboot x expected s).1
  installed : {s : State} (x : Server) → Reached s → Reached (on_new_version x s).1

version-IsNews :
    (fqdn : ℕ) (v fsid o : Option ℕ) → IsNews (event info (version_message fqdn v) o fsid)
version-IsNews fqdn none fsid o = is_contact-IsNews _ refl
version-IsNews fqdn (some v) fsid o = is_contact-IsNews _ refl

-- From a start without events, and whatever calls are made in whatever order, the events about
-- contact with one server, saved or
-- not, are complaints and recoveries in turns that begin with a complaint, and the last one is a
-- complaint exactly where the server is in the set of those complained about. The same holds for
-- each cluster.
pub reached-IsTold : (s : State) → Reached s → IsTold s
unfolding on_user_request_begin on_user_request_complete on_server on_reboot on_new_version contact
reached-IsTold _ start = record { of_servers = λ f. refl; of_clusters = λ f. refl }
reached-IsTold _ (others {s = s} m c r) = others-IsTold m c s (reached-IsTold s r)
reached-IsTold _ (tick {s = s} pillar factor threshold now r) =
    on_tick-IsTold pillar factor threshold now s (reached-IsTold s r)
reached-IsTold _ (synced {s = s} fsid u r) = on_sync_object-IsTold fsid u s (reached-IsTold s r)
reached-IsTold _ (begun {s = s} q r) =
    then-Keeps IsTold (emit (event info (request_started q.headline) q.fqdn q.fsid)) flush
      (emit-IsTold (event info (request_started q.headline) q.fqdn q.fsid)
        (is_contact-IsNews _ refl))
      flush-IsTold s (reached-IsTold s r)
reached-IsTold _ (completed {s = s} q r) =
    let bad = event warning (request_failed q.headline q.error_message) q.fqdn q.fsid in
    let good = event info (request_succeeded q.headline) q.fqdn q.fsid in
    then-Keeps IsTold (emit (if q.error then bad else good)) flush
      (emit-IsTold (if q.error then bad else good)
        (either q.error bad good (is_contact-IsNews _ refl) (is_contact-IsNews _ refl)))
      flush-IsTold s (reached-IsTold s r)
reached-IsTold _ (added {s = s} x r) = elim (Bool-cases (are_human (map_keys x.services))) [
  | inl named ↦ rw (named) (emit-IsTold _ (is_contact-IsNews _ refl) s (reached-IsTold s r))
  | inr unnamed ↦ rw (unnamed) (reached-IsTold s r)
]
reached-IsTold _ (rebooted {s = s} x expected r) =
    emit-IsTold _ (is_contact-IsNews _ refl) s (reached-IsTold s r)
reached-IsTold _ (installed {s = s} x r) =
    emit-IsTold _ (version-IsNews x.fqdn x.ceph_version (server_fsid x) (some x.fqdn)) s
      (reached-IsTold s r)

-- Where a managed server was last heard from at `last`, its check returns and leaves it in the set of
-- those complained about exactly where its silence is longer than the threshold, and leaves every
-- other server in or out of the set as it was.
pub check_server_lem :
    (pillar : ℕ → Option ℕ) (factor now fqdn server last period f : ℕ) (s : State)
    → (s.servers.server_at server).managed ≡ true
    → (s.servers.server_at server).last_contact ≡ some last
    → (get_contact_period pillar fqdn s.servers).0 ≡ ok period
    → ((check_server pillar factor now (fqdn, server) s).0 ≡ ok tt)
      × (elem f (check_server pillar factor now (fqdn, server) s).1.servers_complained
          ≡ (if fqdn == f then is_late (factor * period) now last else elem f s.servers_complained))
unfolding check_server contact_period complain_server recover_server emit
check_server_lem pillar factor now fqdn server last period f s m c p =
    elim (Bool-cases (is_late (factor * period) now last)) [
      | inl e ↦ elim (Bool-cases (elem fqdn s.servers_complained)) [
        | inl u ↦ rw (m, c, p, e, u) (refl, ground arith)
        | inr u ↦ rw (m, c, p, e, u) (refl, ground arith)
      ]
      | inr e ↦ elim (Bool-cases (elem fqdn s.servers_complained)) [
        | inl u ↦
            rw (m, c, p, e, u) (refl, rw (elem-discard fqdn f s.servers_complained) (ground arith))
        | inr u ↦ rw (m, c, p, e, u) (refl, ground arith)
      ]
    ]

-- A call that ends with an exception from any state
abbrev Raises : Handler (Unit {0}) → Type 0
Raises m = (s : State) → (e : Exception) × ((m s).0 ≡ err e)

each-Raises :
    (f : ℕ → Handler (Unit {0})) (l : List ℕ) (a : ℕ)
    → elem a l ≡ true
    → Raises (f a)
    → Raises (each f l)
each-Raises f [] a h r s = ground arith
each-Raises f (x ∷ l) a h r s = elim (Result-cases (f x s).0) [
  | inr (e, u) ↦ (e, rw (u) refl)
  | inl (t, u) ↦ elim (Bool-cases (x == a)) [
    | inr w ↦ rw (u) (each-Raises f l a (ground (arith, h)) r (f x s).1)
    | inl w ↦ let (e, v) = r s in let same : x ≡ a = ground arith in (e, rw (same, v) refl)
  ]
]

-- Where a monitor was in the quorum, is no longer in it, and is not listed in the new status either,
-- `on_mon_status` ends with an exception, in every state.
pub on_mon_status-removed :
    (fsid : ℕ) (new old : MonStatus) (rank : ℕ) (s : State)
    → elem rank old.quorum ≡ true
    → elem rank new.quorum ≡ false
    → lookup rank new.mons_by_rank ≡ none
    → (e : Exception) × ((on_mon_status fsid new old s).0 ≡ err e)
unfolding on_mon_status mon_event
on_mon_status-removed fsid new old rank s h n u =
    let left = each (mon_event fsid new warning mon_left) in
    let gone = without_all old.quorum new.quorum in
    elim (Result-cases
      (each (mon_event fsid new recovery mon_joined) (without_all new.quorum old.quorum) s).0) [
        | inr (e, w) ↦ (e, rw (w) refl)
        | inl (t, w) ↦ rw (w) (
            each-Raises (mon_event fsid new warning mon_left) gone rank
              (elem-without_all rank old.quorum new.quorum ∙ rw (h, n) refl)
              (λ s. (key_error, rw (u) refl))
              (each (mon_event fsid new recovery mon_joined) (without_all new.quorum old.quorum)
                s).1)
      ]

append_nil : (l : List Event) → l ++ [] ≡ l
append_nil [] = refl
append_nil (x ∷ l) = ap (λ k. x ∷ k) (append_nil l)

-- How bad a health state is; the code's severities are smaller for worse states.
abbrev pub badness : HealthStatus → ℕ
badness health_ok = 0
badness health_warn = 1
badness health_err = 2
badness (other_health n) = 3

abbrev pub degraded_severity : HealthStatus → ℕ
degraded_severity health_err = error
degraded_severity _ = warning

abbrev pub health_event : (fsid name : ℕ) (new old : HealthStatus) → List Event
health_event fsid name new old =
    if badness new == badness old
    then []
    else if ltb (badness old) (badness new)
    then event (degraded_severity new) (health_degraded name old new) none (some fsid) ∷ []
    else event recovery (health_recovered name old new) none (some fsid) ∷ []

-- Between two of the states OK, WARN and ERR of a known cluster, the report returns and adds at most
-- one event: none where the state is the same, a degradation where the new one is worse, an error for
-- ERR and a warning for WARN, and else a recovery.
pub on_health_lem :
    (fsid : ℕ) (new old : HealthStatus) (s : State) (c : Cluster)
    → lookup fsid s.clusters ≡ some c
    → badness new < 3
    → badness old < 3
    → on_health fsid new old s
      ≡ (ok tt, record s { events = s.events ++ health_event fsid c.name new old })
unfolding on_health emit lookup
on_health_lem fsid health_ok health_ok s c e f g = rw (append_nil s.events) refl
on_health_lem fsid health_ok health_warn s c e f g = rw (e) refl
on_health_lem fsid health_ok health_err s c e f g = rw (e) refl
on_health_lem fsid health_warn health_ok s c e f g = rw (e) refl
on_health_lem fsid health_warn health_warn s c e f g = rw (append_nil s.events) refl
on_health_lem fsid health_warn health_err s c e f g = rw (e) refl
on_health_lem fsid health_err health_ok s c e f g = rw (e) refl
on_health_lem fsid health_err health_warn s c e f g = rw (e) refl
on_health_lem fsid health_err health_err s c e f g = rw (append_nil s.events) refl
on_health_lem fsid (other_health n) old s c e f g = ground arith
on_health_lem fsid new (other_health n) s c e f g = ground arith
