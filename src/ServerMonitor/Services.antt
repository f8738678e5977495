-- ===== src/ServerMonitor/Services.antt =====
-- `inject_server`, `inject_service`, `forget_service` and `_register_service`.
use calamari.Prelude.{
  ℕ, Bool, true, false, not, ◌&&◌, Option, none, some, List, [], ◌∷◌, ◌++◌, ◌==◌, if◌then◌else◌,
  is_empty,
}
use calamari.Prelude.Dict.{lookup, insert, erase, contains}
use calamari.Prelude.Keyed.{find, put, remove}
use calamari.Exec.{
  ok, err, pure, ◌>>=◌, ◌>>◌, gets, modify, when, or_raise, key_error, value_error, attribute_error,
}
use calamari.ServerMonitor.Objects.{
  ServiceId, service_eq, Service, Handler, change_server_at, change_service_at, tell, new_service,
  services_of, create_service, change_service, delete_service, move_service, delete_server,
}

-- Equality of optional references and values
abbrev pub same_option : Option ℕ → Option ℕ → Bool
same_option none none = true
same_option (some a) (some b) = a == b
same_option _ _ = false

abbrev pub same_bool : Bool → Bool → Bool
same_bool true b = b
same_bool false b = not b

unfoldable pub inject_server : ℕ → Handler (Unit {0})
inject_server server = modify (λ s.
    let x = s.server_at server in
    record s {
      hostname_to_server = insert x.hostname server s.hostname_to_server;
      servers = insert x.fqdn server s.servers;
    })

-- `del self.services[id]`
abbrev pub drop_service : ServiceId → Handler (Unit {0})
drop_service id s = elim (find id s.services) [
  | none ↦ (err key_error, s)
  | some _ ↦ (ok tt, record s { services = remove id s.services })
]

-- `del server_state.services[id]`
abbrev pub drop_from : ℕ → ServiceId → Handler (Unit {0})
drop_from server id s = elim (find id (s.server_at server).services) [
  | none ↦ (err key_error, s)
  | some _ ↦ change_server_at server (λ x. record x { services = remove id x.services }) s
]

-- `server_state.services[id] = service_state`
abbrev pub add_to : ℕ → ServiceId → ℕ → Handler (Unit {0})
add_to server id service =
    change_server_at server (λ x. record x { services = put id service x.services })

abbrev pub set_server : ℕ → Option ℕ → Handler (Unit {0})
set_server service server = change_service_at service (λ x. record x { server = server })

-- `self.fsid_services[fsid].append(service)`
abbrev pub list_service : ℕ → ℕ → Handler (Unit {0})
list_service fsid service = do
  l ← services_of fsid
  modify (λ s. record s { fsid_services = insert fsid (l ++ service ∷ []) s.fsid_services })

abbrev pub has : ℕ → List ℕ → Bool
has x [] = false
has x (y ∷ ys) = if y == x then true else has x ys

-- `list.remove`
abbrev pub without : ℕ → List ℕ → List ℕ
without x [] = []
without x (y ∷ ys) = let rest = without x ys in if y == x then ys else y ∷ rest

-- `self.fsid_services[fsid].remove(service)`
abbrev pub unlist_service : ℕ → ℕ → Handler (Unit {0})
unlist_service fsid service = do
  l ← services_of fsid
  if has service l
      then modify
          (λ s. record s { fsid_services = insert fsid (without service l) s.fsid_services })
      else (λ s. (err value_error, s))

-- What `inject_service` does once the server is found.
unfoldable pub link : ℕ → ℕ → ServiceId → Handler (Unit {0})
link server service id = do
  modify (λ s. record s { services = put id service s.services })
  set_server service (some server)
  add_to server id service
  list_service id.fsid service

unfoldable pub inject_service : ℕ → ℕ → Handler (Unit {0})
inject_service service fqdn = do
  server ← (λ s. or_raise key_error (lookup fqdn s.servers) s)
  x ← gets (λ s. s.service_at service)
  link server service x.id

-- `forget_service`
unfoldable pub forget_service : ℕ → Handler (Unit {0})
forget_service service = do
  x ← gets (λ s. s.service_at service)
  unlist_service x.id.fsid service
  drop_service x.id
  elim x.server [ none ↦ pure tt | some server ↦ drop_from server x.id ]
  tell (delete_service x.id)

abbrev pub new_service_state : ServiceId → Service
new_service_state id = record { id = id; server = none; running = true; status = none }

-- The service's object, which is made where the service is seen for the first time.
unfoldable pub find_or_create : ℕ → ServiceId → Handler ℕ
find_or_create server id s = elim (find id s.services) [
  | some service ↦ (ok service, s)
  | none ↦
      (do
        service ← new_service (new_service_state id)
        x ← gets (λ s. s.server_at server)
        inject_service service x.fqdn
        tell (create_service id x.fqdn)
        pure service)
        s
]

unfoldable pub set_running : ℕ → Bool → Handler (Unit {0})
set_running service running = do
  x ← gets (λ s. s.service_at service)
  when (not (same_bool running x.running)) (do
    change_service_at service (λ x. record x { running = running })
    tell (change_service x.id))

unfoldable pub set_status : ℕ → Option ℕ → Handler (Unit {0})
set_status service status = do
  x ← gets (λ s. s.service_at service)
  when (not (same_option status x.status))
      (do change_service_at service (λ x. record x { status = status }); tell (change_service x.id))

-- A server inferred from a map goes with its last service.
unfoldable pub expunge : ℕ → Handler (Unit {0})
expunge server = do
  x ← gets (λ s. s.server_at server)
  when (not x.managed && is_empty x.services) (do
    s ← gets (λ s. s)
    if contains x.fqdn s.servers
        then modify (λ s. record s { servers = erase x.fqdn s.servers })
        else (λ s. (err key_error, s))
    tell (delete_server x.fqdn))

-- The service's server is another than before.
unfoldable pub move : ℕ → ServiceId → ℕ → Option ℕ → Handler (Unit {0})
move server id service old = do
  set_server service (some server)
  elim old [ none ↦ pure tt | some o ↦ drop_from o id ]
  add_to server id service
  x ← gets (λ s. s.server_at server)
  tell (move_service id x.fqdn)
  elim old [ none ↦ (λ s. (err attribute_error, s)) | some o ↦ expunge o ]

unfoldable pub associate : ℕ → ServiceId → ℕ → Handler (Unit {0})
associate server id service = do
  x ← gets (λ s. s.service_at service)
  when (not (same_option x.server (some server))) (move server id service x.server)

-- `_register_service`
unfoldable pub register_service : ℕ → ServiceId → Bool → Option ℕ → Handler (Unit {0})
register_service server id running status = do
  service ← find_or_create server id
  set_running service running
  set_status service status
  associate server id service
