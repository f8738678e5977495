-- ===== src/ServerMonitor/Objects.antt =====
-- The monitor's objects and indexes. Names (an FQDN or a host's name) are opaque numbers, and so are
-- a service's id and its status. Objects are shared, so they live on a heap, and the indexes hold
-- references.
use calamari.Prelude.{
  ℕ, ◌+◌, ◌≡◌, ◌↔◌, Bool, true, Option, none, some, List, [], ◌∷◌, ◌&&◌, ◌==◌, if◌then◌else◌, arith,
}
use calamari.Prelude.Dict.{Dict, lookup, insert}
use calamari.Prelude.Keyed.{Eq, Map}
use calamari.Exec.{ok, Exec, modify}

-- `ServiceId`, a named tuple; the types 'osd', 'mds' and 'mon' are the first three numbers.
pub record ServiceId : Type 0 where
  pub fsid : ℕ
  pub service_type : ℕ
  pub service_id : ℕ

abbrev pub osd_type : ℕ
osd_type = 0

abbrev pub mds_type : ℕ
mds_type = 1

abbrev pub mon_type : ℕ
mon_type = 2

abbrev pub same_service : ServiceId → ServiceId → Bool
same_service a b =
    a.fsid == b.fsid && a.service_type == b.service_type && a.service_id == b.service_id

pub same_service_iff : (a b : ServiceId) → (same_service a b ≡ true) ↔ (a ≡ b)
same_service_iff a b = ground arith

instance abbrev pub service_eq : Eq ServiceId
service_eq = record { same = same_service; same_iff = same_service_iff }

-- An index of references by service.
abbrev pub Services : Type 0
Services = Map ServiceId ℕ

-- `ServerState`
pub record Server : Type 0 where
  pub fqdn : ℕ
  pub hostname : ℕ
  pub managed : Bool
  pub services : Services
  pub last_contact : Option ℕ
  pub boot_time : Option ℕ
  pub ceph_version : Option ℕ

-- `ServiceState`
pub record Service : Type 0 where
  pub id : ServiceId
  pub server : Option ℕ
  pub running : Bool
  pub status : Option ℕ

-- What the persister and the Eventer are told; a `change_server` names the server by its FQDN.
pub data Notice : Type 0 where
  create_server : (fqdn hostname : ℕ) → Bool → Notice
  change_server delete_server : (fqdn : ℕ) → Notice
  create_service : ServiceId → (fqdn : ℕ) → Notice
  change_service delete_service : ServiceId → Notice
  move_service : ServiceId → (fqdn : ℕ) → Notice
  on_reboot on_new_version on_server : (fqdn : ℕ) → Notice

pub record State : Type 0 where
  pub server_at : ℕ → Server
  pub service_at : ℕ → Service
  pub next : ℕ
  pub servers : Dict ℕ
  pub hostname_to_server : Dict ℕ
  pub fsid_services : Dict (List ℕ)
  pub services : Services
  pub contact_periods : Dict ℕ
  pub told : List Notice

abbrev pub Handler : Type 0 → Type 0
Handler A = Exec State A

abbrev pub set_at : {A : Type 0} → (ℕ → A) → ℕ → A → ℕ → A
set_at f p a q = if p == q then a else f q

abbrev pub change_server_at : ℕ → (Server → Server) → Handler (Unit {0})
change_server_at p f =
    modify (λ s. record s { server_at = set_at s.server_at p (f (s.server_at p)) })

abbrev pub change_service_at : ℕ → (Service → Service) → Handler (Unit {0})
change_service_at p f =
    modify (λ s. record s { service_at = set_at s.service_at p (f (s.service_at p)) })

abbrev pub tell : Notice → Handler (Unit {0})
tell n = modify (λ s. record s { told = n ∷ s.told })

-- A new object, and its reference.
abbrev pub new_server : Server → Handler ℕ
new_server x s =
    (ok s.next, record s { server_at = set_at s.server_at s.next x; next = s.next + 1 })

abbrev pub new_service : Service → Handler ℕ
new_service x s =
    (ok s.next, record s { service_at = set_at s.service_at s.next x; next = s.next + 1 })

-- `self.fsid_services[fsid]`, a defaultdict: reading adds an empty list.
unfoldable pub services_of : ℕ → Handler (List ℕ)
services_of fsid s = elim (lookup fsid s.fsid_services) [
  | some l ↦ (ok l, s)
  | none ↦ (ok [], record s { fsid_services = insert fsid [] s.fsid_services })
]

abbrev pub blank_server : Server
blank_server = record {
  fqdn = 0;
  hostname = 0;
  managed = true;
  services = [];
  last_contact = none;
  boot_time = none;
  ceph_version = none;
}

abbrev pub blank_service : Service
blank_service = record {
  id = record { fsid = 0; service_type = 0; service_id = 0 };
  server = none;
  running = true;
  status = none;
}

-- A new monitor: no object is on its heap.
abbrev pub new_state : State
new_state = record {
  server_at = λ p. blank_server;
  service_at = λ p. blank_service;
  next = 0;
  servers = [];
  hostname_to_server = [];
  fsid_services = [];
  services = [];
  contact_periods = [];
  told = [];
}
