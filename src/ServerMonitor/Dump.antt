-- ===== src/ServerMonitor/Dump.antt =====
-- `dump` and `dump_cluster`: a server as the other components are shown it. An address is given
-- without its port, and the cluster's maps are arguments, `none` before they came.
use calamari.Prelude.{ℕ, Bool, ◌&&◌, ◌||◌, Option, none, some, List, [], ◌∷◌, ◌==◌, if◌then◌else◌}
use calamari.Prelude.Dict.{Dict, lookup}
use calamari.Prelude.Keyed.{map_values}
use calamari.Exec.{Result, ok, err, index_error}
use calamari.ServerMonitor.Objects.{ServiceId, Server, State, osd_type, mon_type}
use calamari.ServerMonitor.Services.{same_option}

-- The attributes of a server and its services that are shown
pub record Shown : Type 0 where
  pub fqdn : ℕ
  pub hostname : ℕ
  pub managed : Bool
  pub last_contact : Option ℕ
  pub boot_time : Option ℕ
  pub ceph_version : Option ℕ
  pub services : List (ServiceId × Bool)

abbrev pub show_services : State → List ℕ → List (ServiceId × Bool)
show_services s [] = []
show_services s (p ∷ ps) = ((s.service_at p).id, (s.service_at p).running) ∷ show_services s ps

abbrev pub show : State → Server → List ℕ → Shown
show s x services = record {
  fqdn = x.fqdn;
  hostname = x.hostname;
  managed = x.managed;
  last_contact = x.last_contact;
  boot_time = x.boot_time;
  ceph_version = x.ceph_version;
  services = show_services s services;
}

unfoldable pub dump : State → Server → Shown
dump s x = show s x (map_values x.services)

-- An item of `osd_map['osds']`: its number, and its addresses
pub record OsdAddresses : Type 0 where
  pub osd : ℕ
  pub public_addr : ℕ
  pub cluster_addr : ℕ

-- The frontend's and the backend's address, as far as they are known
abbrev pub Addresses : Type 0
Addresses = Option ℕ × Option ℕ

-- The first OSD of that number, `none` where the map has none
abbrev pub find_osd_addresses : ℕ → List OsdAddresses → Option OsdAddresses
find_osd_addresses id [] = none
find_osd_addresses id (o ∷ os) = if o.osd == id then some o else find_osd_addresses id os

-- A monitor's part, with the addresses by name: the map must have the monitor.
abbrev pub add_mon : Option (Dict ℕ) → ServiceId → Addresses → Result Addresses
add_mon none id a = ok a
add_mon (some mons) id (front, back) = elim (lookup id.service_id mons) [
  | none ↦ err index_error
  | some addr ↦ ok (some addr, back)
]

-- An OSD's part: the map need not have the OSD.
abbrev pub add_osd_addresses : Option (List OsdAddresses) → ServiceId → Addresses → Addresses
add_osd_addresses none id a = a
add_osd_addresses (some osds) id a = elim (find_osd_addresses id.service_id osds) [
  | none ↦ a
  | some o ↦ (some o.public_addr, some o.cluster_addr)
]

-- One service of the loop; a service is a monitor or an OSD, not both.
unfoldable pub add_service :
    Option (Dict ℕ) → Option (List OsdAddresses) → ServiceId → Addresses → Result Addresses
add_service mon_map osd_map id (front, back) =
    if same_option front none && id.service_type == mon_type
    then add_mon mon_map id (front, back)
    else if (same_option front none || same_option back none) && id.service_type == osd_type
    then ok (add_osd_addresses osd_map id (front, back))
    else ok (front, back)

unfoldable pub addresses :
    State → Option (Dict ℕ) → Option (List OsdAddresses) → List ℕ → Addresses → Result Addresses
addresses s mon_map osd_map [] a = ok a
addresses s mon_map osd_map (p ∷ ps) a = elim (add_service mon_map osd_map (s.service_at p).id a) [
  | err e ↦ err e
  | ok b ↦ addresses s mon_map osd_map ps b
]

-- `[s for s in services if s.fsid == cluster.fsid]`
abbrev pub of_cluster : State → ℕ → List ℕ → List ℕ
of_cluster s fsid [] = []
of_cluster s fsid (p ∷ ps) =
    let rest = of_cluster s fsid ps in if (s.service_at p).id.fsid == fsid then p ∷ rest else rest

unfoldable pub dump_cluster :
    State → Server → ℕ → Option (Dict ℕ) → Option (List OsdAddresses) → Result (Shown × Addresses)
dump_cluster s x fsid mon_map osd_map =
    let services = of_cluster s fsid (map_values x.services) in
    elim (addresses s mon_map osd_map services (none, none)) [
      | err e ↦ err e
      | ok a ↦ ok (show s x services, a)
    ]
