-- ===== src/ServerMonitor/Removal.antt =====
-- `delete` and `delete_cluster`.
use calamari.Prelude.{ℕ, not, ◌&&◌, none, some, is_empty}
use calamari.Prelude.Dict.{lookup, erase, contains}
use calamari.Prelude.Keyed.{map_values}
use calamari.Exec.{pure, ◌>>=◌, ◌>>◌, gets, modify, when, each, or_raise, key_error}
use calamari.ServerMonitor.Objects.{Handler, tell, services_of, delete_server, delete_service}
use calamari.ServerMonitor.Services.{drop_service, drop_from, unlist_service, set_server}
use calamari.ServerMonitor.Heartbeat.{drop_server}

-- One service of a server that is deleted.
unfoldable pub delete_service_of : ℕ → Handler (Unit {0})
delete_service_of service = do
  set_server service none
  x ← gets (λ s. s.service_at service)
  drop_service x.id
  unlist_service x.id.fsid service
  tell (delete_service x.id)

-- The server's names leave both indexes; the host's name may be another server's, or be gone.
unfoldable pub delete_names : ℕ → ℕ → Handler (Unit {0})
delete_names server fqdn = do
  x ← gets (λ s. s.server_at server)
  modify (λ s. record s { hostname_to_server = erase x.hostname s.hostname_to_server })
  drop_server fqdn
  tell (delete_server fqdn)

-- `delete`
unfoldable pub delete : ℕ → Handler (Unit {0})
delete fqdn = do
  server ← (λ s. or_raise key_error (lookup fqdn s.servers) s)
  x ← gets (λ s. s.server_at server)
  each delete_service_of (map_values x.services)
  delete_names server fqdn

-- An inferred server without services goes too.
unfoldable pub delete_if_unused : ℕ → Handler (Unit {0})
delete_if_unused server = do
  x ← gets (λ s. s.server_at server)
  when (not x.managed && is_empty x.services) (delete x.fqdn)

-- One service of a cluster that is deleted.
unfoldable pub delete_service_in : ℕ → Handler (Unit {0})
delete_service_in service = do
  x ← gets (λ s. s.service_at service)
  drop_service x.id
  elim x.server [ none ↦ pure tt | some server ↦ drop_from server x.id ]
  tell (delete_service x.id)
  elim x.server [ none ↦ pure tt | some server ↦ delete_if_unused server ]

unfoldable pub delete_cluster : ℕ → Handler (Unit {0})
delete_cluster fsid = do
  s ← gets (λ s. s)
  when (contains fsid s.fsid_services) (do
    listed ← services_of fsid
    each delete_service_in listed
    modify (λ s. record s { fsid_services = erase fsid s.fsid_services }))
