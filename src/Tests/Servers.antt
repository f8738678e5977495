-- ===== src/Tests/Servers.antt =====
-- Servers, their services, and the events about them.
use calamari.Prelude.{ℕ, ◌≡◌, ◌+◌, refl, Option, none, some, [], ◌∷◌}
use calamari.Prelude.Dict.{lookup, insert}
use calamari.Prelude.Keyed.{find, put, remove}
use calamari.ServerMonitor.{
  ServiceId, service_eq, State, new_state, osd_type, mon_type, int_eq, ServerHeartbeat,
  on_server_heartbeat, find_server, ensure_server, find_by_hostname, on_report, set_last_contact,
  set_boot_time, set_version, mark_stopped, mark_unseen, announce, inject_server, inject_service,
  link, services_of, find_or_create, set_running, set_status, associate, move, register_service,
  get_by_service,
}
use calamari.ServerMonitor.Linked.{IsLinked}
use calamari.ServerMonitor.Linked.Reachable.{
  Reached, start, heartbeat, reached-IsLinked, one_server,
}

abbrev grains : ℕ → Option ℕ
grains fqdn = some (fqdn + 100)

abbrev osd_1 : ServiceId
osd_1 = record { fsid = 9; service_type = osd_type; service_id = 1 }

abbrev mon_2 : ServiceId
mon_2 = record { fsid = 9; service_type = mon_type; service_id = 2 }

abbrev beat : ServerHeartbeat
beat = record {
  boot_time = 1000;
  ceph_version = some 94;
  services = record { id = osd_1; status = none } ∷ record { id = mon_2; status = some 5 } ∷ [];
}

-- One server has reported two services.
abbrev pub one_beat : State
one_beat = (on_server_heartbeat grains 2000 7 beat new_state).1

one_beat-Reached : Reached one_beat
one_beat-Reached = heartbeat grains 2000 7 beat start

reached-IsLinked_example : IsLinked one_beat
reached-IsLinked_example = reached-IsLinked one_beat one_beat-Reached

osd_1_known : find osd_1 one_beat.services ≡ some 1
unfolding on_server_heartbeat find_server ensure_server find_by_hostname on_report set_last_contact
    set_boot_time set_version mark_stopped mark_unseen announce inject_server inject_service link
    services_of find_or_create set_running set_status associate move register_service find put
    remove lookup insert
osd_1_known = refl

one_server_example :
    (server : ℕ) × (get_by_service one_beat osd_1 ≡ some server)
    × (find osd_1 (one_beat.server_at server).services ≡ some 1)
    × ((other : ℕ) → find osd_1 (one_beat.server_at other).services ≡ some 1 → other ≡ server)
one_server_example = one_server one_beat osd_1 1 one_beat-Reached osd_1_known

abbrev no_services : ServerHeartbeat
no_services = record { boot_time = 1000; ceph_version = some 94; services = [] }
