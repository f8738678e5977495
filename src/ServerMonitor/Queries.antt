-- ===== src/ServerMonitor/Queries.antt =====
-- The look-ups that other components make.
use calamari.Prelude.{ℕ, Option, none, some, List, [], ◌∷◌, add}
use calamari.Prelude.Dict.{lookup, values}
use calamari.Prelude.Keyed.{find, map_keys}
use calamari.Exec.{◌>>=◌, gets, or_raise, key_error}
use calamari.ServerMonitor.Objects.{ServiceId, service_eq, State, Server, Handler, services_of}

-- `ServerState.clusters`
abbrev pub clusters : Server → List ℕ
clusters x = go (map_keys x.services)
  where
    go : List ServiceId → List ℕ
    go [] = []
    go (id ∷ ids) = add id.fsid (go ids)

abbrev pub servers_of : State → List ℕ → List ℕ
servers_of s [] = []
servers_of s (service ∷ rest) = elim (s.service_at service).server [
  | none ↦ servers_of s rest
  | some server ↦ add server (servers_of s rest)
]

unfoldable pub get_all_cluster : ℕ → Handler (List ℕ)
get_all_cluster fsid = do listed ← services_of fsid; gets (λ s. servers_of s listed)

abbrev pub get_all : State → List ℕ
get_all s = values s.servers

abbrev pub get_one : ℕ → Handler ℕ
get_one fqdn s = or_raise key_error (lookup fqdn s.servers) s

unfoldable pub get_by_service : State → ServiceId → Option ℕ
get_by_service s id = elim (find id s.services) [
  | none ↦ none
  | some service ↦ (s.service_at service).server
]

unfoldable pub list_by_service : State → List ServiceId → List (ServiceId × Option ℕ)
list_by_service s [] = []
list_by_service s (id ∷ ids) =
    (id, elim (get_by_service s id) [ none ↦ none | some server ↦ some (s.server_at server).fqdn ])
    ∷ list_by_service s ids

unfoldable pub get_services : State → List ServiceId → List (Option ℕ)
get_services s [] = []
get_services s (id ∷ ids) = find id s.services ∷ get_services s ids
