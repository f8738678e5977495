-- ===== src/Tests/Crush.antt =====
-- Commands for CRUSH nodes.
use calamari.Prelude.{inr, none, ◌≡◌, refl, Option, some, List, [], ◌∷◌}
use calamari.Prelude.Int.{pos, negsuc}
use calamari.Prelude.Keyed.{find, put, remove}
use calamari.Prelude.Dict.{lookup, insert}
use calamari.Exec.{ok}
use calamari.ServerMonitor.{
  int_eq, get_by_service, on_server_heartbeat, find_server, ensure_server, find_by_hostname,
  on_report, set_last_contact, set_boot_time, set_version, mark_stopped, mark_unseen, announce,
  inject_server, inject_service, link, services_of, find_or_create, set_running, set_status,
  associate, move, register_service,
}
use calamari.CrushNodeRequestFactory.{
  Item, Bucket, Source, Attributes, CrushCommand, update, node_list,
}
use calamari.CrushNodeRequestFactory.Placing.{Place, apply_all, IsKnown, update_lem}
use calamari.Tests.Servers.{one_beat}

abbrev osd_item : Item
osd_item = record { id = pos 1; weight = 20; position = 0 }

abbrev old_item : Item
old_item = record { id = pos 6; weight = 10; position = 1 }

abbrev host : Bucket
host = record { name = 50; type_name = 1; items = old_item ∷ [] }

abbrev source : Source
source = record {
  crush_node_by_id = (negsuc 0, host) ∷ [];
  parent_bucket_by_node_id = (negsuc 0, node_list (70 ∷ [])) ∷ [];
  monitor = one_beat;
  fsid = 9;
}

-- The host with another OSD
abbrev with_osd : Attributes
with_osd = record { name = 50; bucket_type = 1; items = osd_item ∷ [] }

osd_item-IsKnown : IsKnown source (pos 1)
unfolding get_by_service on_server_heartbeat find_server ensure_server find_by_hostname on_report
    set_last_contact set_boot_time set_version mark_stopped mark_unseen announce inject_server
    inject_service link services_of find_or_create set_running set_status associate move
    register_service find put remove lookup insert
osd_item-IsKnown = (0, refl)

host_found : find (negsuc 0) source.crush_node_by_id ≡ some host
unfolding find
host_found = refl

update_lem_example :
    (cs : List CrushCommand) × (update (negsuc 0) with_osd source ≡ (ok cs, source))
    × ((p : Option Place) → apply_all 6 cs p ≡ none)
update_lem_example =
    update_lem 6 (negsuc 0) with_osd source host host_found refl (inr tt, tt) (osd_item-IsKnown, tt)
