-- ===== src/Tests/Events.antt =====
-- The Eventer's complaints and its news of maps.
use calamari.Prelude.{ℕ, ◌≡◌, refl, true, Option, none, some, [], ◌∷◌, ◌++◌, arith}
use calamari.Prelude.Dict.{lookup, insert}
use calamari.Prelude.Keyed.{find, put, remove}
use calamari.Exec.{Exception, ok, err}
use calamari.ServerMonitor.{
  on_server_heartbeat, find_server, ensure_server, find_by_hostname, on_report, set_last_contact,
  set_boot_time, set_version, mark_stopped, mark_unseen, announce, inject_server, inject_service,
  link, services_of, find_or_create, set_running, set_status, associate, move, register_service,
  get_contact_period,
}
use calamari.Eventer.{State, Cluster, on_tick, health_warn, health_ok}
use calamari.Eventer.Maps.{MonStatus, on_mon_status, on_health}
use calamari.Eventer.Contact.{IsTold}
use calamari.Eventer.Turns.{
  new_state, Reached, start, others, tick, reached-IsTold, on_mon_status-removed, on_health_lem,
  health_event,
}
use calamari.Tests.Servers.{one_beat}

abbrev no_pillar : ℕ → Option ℕ
no_pillar fqdn = none

abbrev cluster : Cluster
cluster = record { name = 3; update_time = some 1900 }

abbrev watching : State
watching = record new_state { servers = one_beat; clusters = (9, cluster) ∷ [] }

watching-Reached : Reached watching
watching-Reached = others one_beat ((9, cluster) ∷ []) start

-- Two ticks, of which the second comes after a long silence.
abbrev silent : State
silent = (on_tick no_pillar 3 600 9000 (on_tick no_pillar 3 600 2010 watching).1).1

reached-IsTold_example : IsTold silent
reached-IsTold_example =
    reached-IsTold silent (tick no_pillar 3 600 9000 (tick no_pillar 3 600 2010 watching-Reached))

heard_of :
    ((one_beat.server_at 0).managed ≡ true)
    × ((one_beat.server_at 0).last_contact ≡ some 2000)
    × ((get_contact_period no_pillar 7 one_beat).0 ≡ ok 60)
unfolding on_server_heartbeat find_server ensure_server find_by_hostname on_report set_last_contact
    set_boot_time set_version mark_stopped mark_unseen announce inject_server inject_service link
    services_of find_or_create set_running set_status associate move register_service find put
    remove lookup insert get_contact_period
heard_of = (refl, refl, refl)

abbrev three_mons : MonStatus
three_mons = record { quorum = 0 ∷ 1 ∷ 2 ∷ []; mons_by_rank = (0, 20) ∷ (1, 21) ∷ (2, 22) ∷ [] }

-- The third monitor was removed from the cluster.
abbrev two_mons : MonStatus
two_mons = record { quorum = 0 ∷ 1 ∷ []; mons_by_rank = (0, 20) ∷ (1, 21) ∷ [] }

no_rank_2 : lookup 2 two_mons.mons_by_rank ≡ none
unfolding lookup
no_rank_2 = refl

on_mon_status-removed_example :
    (e : Exception) × ((on_mon_status 9 two_mons three_mons watching).0 ≡ err e)
on_mon_status-removed_example =
    on_mon_status-removed 9 two_mons three_mons 2 watching refl refl no_rank_2

has_cluster : lookup 9 watching.clusters ≡ some cluster
unfolding lookup
has_cluster = refl

on_health_lem_example : on_health 9 health_warn health_ok watching ≡ (
  ok tt,
  record watching { events = watching.events ++ health_event 9 3 health_warn health_ok },
)
on_health_lem_example =
    on_health_lem 9 health_warn health_ok watching cluster has_cluster (ground arith) (ground arith)
