-- ===== src/ServerMonitor/Maps.antt =====
-- What new OSD, MDS and mon maps tell of servers and services.
use calamari.Prelude.{ℕ, false, not, Option, none, some, List, [], ◌∷◌, ◌++◌, ◌==◌, if◌then◌else◌}
use calamari.Prelude.Dict.{lookup, contains}
use calamari.Prelude.Keyed.{Map, find, put, map_keys, minus, add_key}
use calamari.Exec.{
  ok, err, pure, ◌>>=◌, ◌>>◌, gets, when, each, or_raise, key_error, attribute_error,
}
use calamari.ServerMonitor.Objects.{
  ServiceId, service_eq, Server, State, Handler, tell, new_server, services_of, osd_type, mds_type,
  mon_type, create_server,
}
use calamari.ServerMonitor.Services.{inject_server, forget_service, register_service}
use calamari.ServerMonitor.Tree.{OsdData, Osd, get_hostname_to_osds}

-- The ids of the services of the cluster with that type, as a set
abbrev pub known_ids : State → ℕ → List ℕ → List ServiceId
known_ids s service_type [] = []
known_ids s service_type (p ∷ ps) =
    let rest = known_ids s service_type ps in
    let id = (s.service_at p).id in
    if id.service_type == service_type then add_key id rest else rest

-- Python visits the stale ids, a set, in an order of its own.
unfoldable pub forget_id : ServiceId → Handler (Unit {0})
forget_id id = do service ← (λ s. or_raise key_error (find id s.services) s); forget_service service

-- The services of that type which the map does not have are forgotten.
unfoldable pub forget_missing : ℕ → ℕ → List ServiceId → Handler (Unit {0})
forget_missing fsid service_type in_map = do
  listed ← services_of fsid
  known ← gets (λ s. known_ids s service_type listed)
  each forget_id (minus known in_map)

-- The ids that the map gives its services, by their names
abbrev pub ids_of : ℕ → ℕ → List ℕ → List ServiceId
ids_of fsid service_type [] = []
ids_of fsid service_type (name ∷ names) =
    record { fsid = fsid; service_type = service_type; service_id = name }
    ∷ ids_of fsid service_type names

-- `on_mds_map`, with the names of `mds_map['info']`
unfoldable pub on_mds_map : ℕ → List ℕ → Handler (Unit {0})
on_mds_map fsid names = forget_missing fsid mds_type (ids_of fsid mds_type names)

-- `on_mon_map`, with the names of `mon_map['mons']`
unfoldable pub on_mon_map : ℕ → List ℕ → Handler (Unit {0})
on_mon_map fsid names = forget_missing fsid mon_type (ids_of fsid mon_type names)

-- `id_to_osd`
abbrev pub id_to_osd : ℕ → List Osd → Map ServiceId Osd
id_to_osd fsid osds = go [] osds
  where
    go : Map ServiceId Osd → List Osd → Map ServiceId Osd
    go m [] = m
    go m (o ∷ os) =
        go (put (record { fsid = fsid; service_type = osd_type; service_id = o.osd }) o m) os

-- The managed server that runs one of the services, the last one found.
unfoldable pub crush_alias_to : List ServiceId → Option ℕ → Handler (Option ℕ)
crush_alias_to [] alias s = (ok alias, s)
crush_alias_to (id ∷ ids) alias s = elim (find id s.services) [
  | none ↦ crush_alias_to ids alias s
  | some service ↦ elim (s.service_at service).server [
    | none ↦ (err attribute_error, s)
    | some server ↦
        crush_alias_to ids (if (s.server_at server).managed then some server else alias) s
  ]
]

abbrev pub unmanaged_server : ℕ → Server
unmanaged_server hostname = record {
  fqdn = hostname;
  hostname = hostname;
  managed = false;
  services = [];
  last_contact = none;
  boot_time = none;
  ceph_version = none;
}

-- The server that the CRUSH map names, which is made where there is none.
unfoldable pub find_or_create_server : ℕ → Handler ℕ
find_or_create_server hostname s = elim (lookup hostname s.hostname_to_server) [
  | some server ↦ (ok server, s)
  | none ↦
      (do
        server ← new_server (unmanaged_server hostname)
        inject_server server
        tell (create_server hostname hostname false)
        pure server)
        s
]

unfoldable pub register_osd : ℕ → ServiceId × Osd → Handler (Unit {0})
register_osd server (id, osd) = do
  x ← gets (λ s. s.server_at server)
  when (not x.managed) (register_service server id osd.up none)

abbrev pub find_alias : ℕ → List ServiceId → Handler (Option ℕ)
find_alias hostname ids = do
  s ← gets (λ s. s)
  if contains hostname s.hostname_to_server then pure none else crush_alias_to ids none

-- One hostname of the map
unfoldable pub on_host : ℕ → ℕ × List Osd → Handler (Unit {0})
on_host fsid (hostname, osds) = do
  alias ← find_alias hostname (map_keys (id_to_osd fsid osds))
  elim alias [
    | some _ ↦ pure tt
    | none ↦ do
      server ← find_or_create_server hostname
      each (register_osd server) (id_to_osd fsid osds)
  ]

abbrev pub osds_in_map : ℕ → List (ℕ × List Osd) → List ServiceId
osds_in_map fsid [] = []
osds_in_map fsid ((hostname, osds) ∷ hosts) =
    map_keys (id_to_osd fsid osds) ++ osds_in_map fsid hosts

unfoldable pub on_osd_map : ℕ → ℕ → ℕ → OsdData → Handler (Unit {0})
on_osd_map crush_host_type crush_osd_type limit m = do
  hosts ← (λ s. (get_hostname_to_osds crush_host_type crush_osd_type limit m, s))
  each (on_host m.fsid) hosts
  forget_missing m.fsid osd_type (osds_in_map m.fsid hosts)
