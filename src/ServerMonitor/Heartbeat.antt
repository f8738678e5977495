-- ===== src/ServerMonitor/Heartbeat.antt =====
-- `on_server_heartbeat`: what a server tells of itself. Salt's grains are a function from an FQDN to
-- the host's name, and the pillar one to the period of the heartbeats, where `none` is a missing item.
use calamari.Prelude.{
  ℕ, Bool, true, false, not, ◌&&◌, ◌||◌, Option, none, some, List, [], ◌∷◌, ◌++◌, ◌-◌,
  if◌then◌else◌, ltb, is_empty,
}
use calamari.Prelude.Dict.{lookup, insert, erase}
use calamari.Prelude.Keyed.{find, map_keys, minus, add_key}
use calamari.Exec.{
  ok, err, pure, ◌>>=◌, ◌>>◌, gets, modify, when, each, or_raise, key_error, grains_not_found,
}
use calamari.ServerMonitor.Objects.{
  ServiceId, service_eq, Handler, tell, new_server, change_server_at, change_service_at,
  create_server, change_server, on_reboot, on_new_version, on_server,
}
use calamari.ServerMonitor.Services.{inject_server, register_service, same_option}

-- An item of `server_heartbeat['services']`
pub record Reported : Type 0 where
  pub id : ServiceId
  pub status : Option ℕ

pub record ServerHeartbeat : Type 0 where
  pub boot_time : ℕ
  pub ceph_version : Option ℕ
  pub services : List Reported

abbrev pub reboot_threshold : ℕ
reboot_threshold = 10

-- `del self.servers[fqdn]`
abbrev pub drop_server : ℕ → Handler (Unit {0})
drop_server fqdn s = elim (lookup fqdn s.servers) [
  | none ↦ (err key_error, s)
  | some _ ↦ (ok tt, record s { servers = erase fqdn s.servers })
]

abbrev pub set_managed : ℕ → Handler (Unit {0})
set_managed server = change_server_at server (λ x. record x { managed = true })

-- A server that an OSD map named, and that now reports under its FQDN.
unfoldable pub take_over : ℕ → ℕ → ℕ → Handler (Unit {0})
take_over server old_fqdn fqdn = do
  set_managed server
  drop_server old_fqdn
  change_server_at server (λ x. record x { fqdn = fqdn })
  modify (λ s. record s { servers = insert fqdn server s.servers })
  tell (change_server old_fqdn)

-- The server that is known by its host's name. A managed one is another server of the same name.
unfoldable pub find_by_hostname : ℕ → ℕ → Handler (Option ℕ × Bool)
find_by_hostname fqdn hostname s = elim (lookup hostname s.hostname_to_server) [
  | none ↦ (ok (none, false), s)
  | some server ↦
      (if (s.server_at server).managed
          then pure (none, false)
          else (do take_over server (s.server_at server).fqdn fqdn; pure (some server, true)))
        s
]

unfoldable pub start_managing : ℕ → Handler (Option ℕ × Bool)
start_managing server = do
  x ← gets (λ s. s.server_at server)
  if x.managed
      then pure (some server, false)
      else (do set_managed server; tell (change_server x.fqdn); pure (some server, true))

-- The server that reports, `none` for a new one, and whether it has just become managed.
unfoldable pub find_server : (ℕ → Option ℕ) → ℕ → Handler (Option ℕ × Bool)
find_server grains fqdn s = elim (lookup fqdn s.servers) [
  | some server ↦ start_managing server s
  | none ↦ (or_raise grains_not_found (grains fqdn) >>= find_by_hostname fqdn) s
]

-- The server's object and whether it is new.
unfoldable pub ensure_server :
    (ℕ → Option ℕ) → ℕ → ℕ → ServerHeartbeat → Option ℕ → Handler (ℕ × Bool)
ensure_server grains now fqdn beat (some server) = pure (server, false)
ensure_server grains now fqdn beat none = do
  hostname ← or_raise grains_not_found (grains fqdn)
  server ← new_server (record {
    fqdn = fqdn;
    hostname = hostname;
    managed = true;
    services = [];
    last_contact = some now;
    boot_time = some beat.boot_time;
    ceph_version = beat.ceph_version;
  })
  inject_server server
  tell (create_server fqdn hostname true)
  pure (server, true)

unfoldable pub set_last_contact : ℕ → ℕ → Handler (Unit {0})
set_last_contact now server = do
  change_server_at server (λ x. record x { last_contact = some now })
  x ← gets (λ s. s.server_at server)
  tell (change_server x.fqdn)

-- Whether a change of the boot time is a reboot: forward, by the threshold or more.
abbrev pub is_reboot : Option ℕ → ℕ → Bool
is_reboot none new = false
is_reboot (some old) new = not (ltb new old) && not (ltb (new - old) reboot_threshold)

unfoldable pub set_boot_time : ℕ → ℕ → Handler (Unit {0})
set_boot_time boot_time server = do
  x ← gets (λ s. s.server_at server)
  when (not (same_option x.boot_time (some boot_time))) (do
    change_server_at server (λ x. record x { boot_time = some boot_time })
    tell (change_server x.fqdn)
    when (is_reboot x.boot_time boot_time) (tell (on_reboot x.fqdn)))

-- No package beside running services is an upgrade that goes on.
abbrev pub upgrading : ServerHeartbeat → Bool
upgrading beat = same_option beat.ceph_version none && not (is_empty beat.services)

unfoldable pub set_version : ServerHeartbeat → Bool → ℕ → Handler (Unit {0})
set_version beat is_new server = do
  x ← gets (λ s. s.server_at server)
  when (not (same_option x.ceph_version beat.ceph_version) && not (upgrading beat)) (do
    change_server_at server (λ x. record x { ceph_version = beat.ceph_version })
    tell (change_server x.fqdn)
    when (not is_new) (tell (on_new_version x.fqdn)))

abbrev pub register_reported : ℕ → Reported → Handler (Unit {0})
register_reported server r = register_service server r.id true r.status

-- `seen_id_tuples`
abbrev pub seen_ids : List Reported → List ServiceId
seen_ids [] = []
seen_ids (r ∷ rs) = add_key r.id (seen_ids rs)

unfoldable pub mark_stopped : ServiceId → Handler (Unit {0})
mark_stopped id = do
  service ← (λ s. or_raise key_error (find id s.services) s)
  x ← gets (λ s. s.service_at service)
  when x.running (change_service_at service (λ x. record x { running = false }))

-- The symmetric difference, whose order is Python's own.
unfoldable pub mark_unseen : ℕ → List ServiceId → Handler (Unit {0})
mark_unseen server seen = do
  x ← gets (λ s. s.server_at server)
  each mark_stopped (minus (map_keys x.services) seen ++ minus seen (map_keys x.services))

unfoldable pub announce : Bool → ℕ → Handler (Unit {0})
announce is_new server = do
  x ← gets (λ s. s.server_at server)
  when is_new (tell (on_server x.fqdn))

-- What follows once the server's object is there.
unfoldable pub on_report : ℕ → ServerHeartbeat → Bool → ℕ → Handler (Unit {0})
on_report now beat is_new server = do
  set_last_contact now server
  set_boot_time beat.boot_time server
  set_version beat is_new server
  each (register_reported server) beat.services
  mark_unseen server (seen_ids beat.services)
  announce is_new server

unfoldable pub on_server_heartbeat : (ℕ → Option ℕ) → ℕ → ℕ → ServerHeartbeat → Handler (Unit {0})
on_server_heartbeat grains now fqdn beat = do
  known ← find_server grains fqdn
  made ← ensure_server grains now fqdn beat known.0
  on_report now beat (made.1 || known.1) made.0

-- `_get_contact_period`, with a guess of 60 seconds
abbrev pub read_contact_period : Option ℕ → ℕ
read_contact_period none = 60
read_contact_period (some heartbeat_s) = heartbeat_s

-- `get_contact_period`, with its cache
unfoldable pub get_contact_period : (ℕ → Option ℕ) → ℕ → Handler ℕ
get_contact_period pillar fqdn s = elim (lookup fqdn s.contact_periods) [
  | some period ↦ (ok period, s)
  | none ↦
      let period = read_contact_period (pillar fqdn) in
      (ok period, record s { contact_periods = insert fqdn period s.contact_periods })
]
