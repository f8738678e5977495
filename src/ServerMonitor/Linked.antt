-- ===== src/ServerMonitor/Linked.antt =====
-- The indexes of servers and services agree.
pub mod Changes
pub mod Steps
pub mod Registering
pub mod Forgetting
pub mod Reporting
pub mod Mapping
pub mod Reachable
use calamari.Prelude.{
  ℕ, ◌≡◌, ◌≢◌, ◌<◌, ◌≤◌, ◌+◌, refl, Bool, true, false, Option, none, some, List, [], ◌∷◌, inl, inr,
  arith, ◌==◌, if◌then◌else◌, Bool-cases, Option-cases, is_empty, not, ◌&&◌,
}
use calamari.Prelude.Dict.{lookup, insert, erase, contains}
use calamari.Prelude.Keyed.{find, put, remove, find-put, find-remove, find-nil}
use calamari.Exec.{ok, err, pure, gets, ◌>>=◌, ◌>>◌, modify, when, Result, Exec}
use calamari.ServerMonitor.Objects.{
  ServiceId, service_eq, same_service, same_service_iff, Server, Service, State, Handler, set_at,
  new_service, new_server, services_of, new_state,
}
use calamari.ServerMonitor.Services.{
  new_service_state, link, drop_service, drop_from, move, expunge,
}

-- An index leads to a service that was made with that id. A service's server lists it, and only that
-- server does. Objects are made before they are referred to.
pub record IsLinked (s : State) : Type 0 where
  pub named : (id : ServiceId) (p : ℕ) → find id s.services ≡ some p → (s.service_at p).id ≡ id
  pub placed :
      (id : ServiceId) (p server : ℕ)
      → find id s.services ≡ some p
      → (s.service_at p).server ≡ some server
      → find id (s.server_at server).services ≡ some p
  pub owned :
      (id : ServiceId) (p server : ℕ)
      → find id s.services ≡ some p
      → find id (s.server_at server).services ≡ some p
      → (s.service_at p).server ≡ some server
  pub manned :
      (id : ServiceId) (p : ℕ) → find id s.services ≡ some p → (s.service_at p).server ≢ none
  pub made : (id : ServiceId) (p : ℕ) → find id s.services ≡ some p → p < s.next
  pub made_server :
      (id : ServiceId) (p server : ℕ)
      → find id s.services ≡ some p
      → (s.service_at p).server ≡ some server
      → server < s.next
  pub made_listed :
      (id : ServiceId) (p server : ℕ) → find id (s.server_at server).services ≡ some p → p < s.next
  pub found : (fqdn p : ℕ) → lookup fqdn s.servers ≡ some p → p < s.next
  pub hosted : (hostname p : ℕ) → lookup hostname s.hostname_to_server ≡ some p → p < s.next

-- A later state with the same services on the same servers.
pub record Agree (s t : State) : Type 0 where
  pub same_services : t.services ≡ s.services
  pub later : s.next ≤ t.next
  pub same_id : (p : ℕ) → (t.service_at p).id ≡ (s.service_at p).id
  pub same_server : (p : ℕ) → (t.service_at p).server ≡ (s.service_at p).server
  pub same_listed : (p : ℕ) → (t.server_at p).services ≡ (s.server_at p).services

abbrev pub Found : State → Type 0
Found t = (fqdn p : ℕ) → lookup fqdn t.servers ≡ some p → p < t.next

abbrev pub Hosted : State → Type 0
Hosted t = (hostname p : ℕ) → lookup hostname t.hostname_to_server ≡ some p → p < t.next

pub Agree-IsLinked : (s t : State) → Agree s t → Found t → Hosted t → IsLinked s → IsLinked t
Agree-IsLinked s t a f g h = record {
  named = λ id p e. ground (arith, a.same_services, a.same_id p, h.named id p);
  placed = λ id p n e k.
      ground (arith, a.same_services, a.same_server p, a.same_listed n, h.placed id p n);
  owned = λ id p n e k.
      ground (arith, a.same_services, a.same_server p, a.same_listed n, h.owned id p n);
  manned = λ id p e. ground (arith, a.same_services, a.same_server p, h.manned id p);
  made = λ id p e. ground (arith, a.same_services, a.later, h.made id p);
  made_server =
      λ id p n e k. ground (arith, a.same_services, a.same_server p, a.later, h.made_server id p n);
  made_listed = λ id p n e. ground (arith, a.same_listed n, a.later, h.made_listed id p n);
  found = f;
  hosted = g;
}

module _ (s : State) (h : IsLinked s) (id : ServiceId) (p o n : ℕ)
    (known : find id s.services ≡ some p) (from : (s.service_at p).server ≡ some o)
    (other : (o == n) ≡ false) (made : n < s.next) where
  abbrev pub moved : State
  moved =
      let services₁ = set_at s.service_at p (record (s.service_at p) { server = some n }) in
      let x = s.server_at o in
      let servers₁ = set_at s.server_at o (record x { services = remove id x.services }) in
      let y = servers₁ n in
      record s {
        service_at = services₁;
        server_at = set_at servers₁ n (record y { services = put id p y.services });
      }

  moved-named :
      (j : ServiceId) (q : ℕ) → find j moved.services ≡ some q → (moved.service_at q).id ≡ j
  moved-named j q f = ground (arith, h.named j q f)

  moved-placed :
      (j : ServiceId) (q server : ℕ)
      → find j moved.services ≡ some q
      → (moved.service_at q).server ≡ some server
      → find j (moved.server_at server).services ≡ some q
  moved-placed j q server f g = ground (
    arith,
    h.named j q f,
    h.named id p known,
    h.placed j q server f,
    same_service_iff id j,
    find-put id j p (s.server_at n).services,
    find-remove id j (s.server_at o).services,
  )

  moved-owned :
      (j : ServiceId) (q server : ℕ)
      → find j moved.services ≡ some q
      → find j (moved.server_at server).services ≡ some q
      → (moved.service_at q).server ≡ some server
  moved-owned j q server f g = ground (
    arith,
    h.named j q f,
    h.named id p known,
    h.owned j q server f,
    same_service_iff id j,
    find-put id j p (s.server_at n).services,
    find-remove id j (s.server_at o).services,
  )

  pub moved-IsLinked : IsLinked moved
  moved-IsLinked = record {
    named = moved-named;
    placed = moved-placed;
    owned = moved-owned;
    manned = λ j q f. ground (arith, h.manned j q f);
    made = h.made;
    made_server = λ j q k f g. ground (arith, h.made_server j q k f);
    made_listed = λ j q k f. ground (
      arith,
      same_service_iff id j,
      h.made id p known,
      h.made_listed j q k,
      find-put id j p (s.server_at n).services,
      find-remove id j (s.server_at o).services,
    );
    found = h.found;
    hosted = h.hosted;
  }
