-- ===== src/ServerMonitor/Registered.antt =====
-- What `_register_service` leaves of a known service.
use calamari.Prelude.{
  ℕ, ◌≡◌, refl, sym, ◌∙◌, Bool, not, ◌&&◌, Option, some, List, ◌∷◌, inl, inr, arith, ◌==◌,
  Option-cases, Bool-cases, is_empty,
}
use calamari.Prelude.Dict.{Dict, lookup}
use calamari.Prelude.Keyed.{find, put, remove, find-put}
use calamari.Exec.{ok}
use calamari.Exec.Rules.{Keeps}
use calamari.ServerMonitor.Objects.{
  ServiceId, service_eq, same_service_iff, State, Notice, set_at, change_service, move_service,
}
use calamari.ServerMonitor.Services.{
  find_or_create, set_running, set_status, associate, move, expunge, register_service, same_option,
  same_bool,
}
use calamari.ServerMonitor.Linked.{IsLinked}
use calamari.ServerMonitor.Linked.Registering.{same_option_iff}

-- The service runs on the server, and both say so.
pub record RunsOn (id : ServiceId) (p server : ℕ) (running : Bool) (status : Option ℕ) (s : State)
    : Type 0 where
  pub its_server : (s.service_at p).server ≡ some server
  pub its_running : (s.service_at p).running ≡ running
  pub its_status : (s.service_at p).status ≡ status
  pub listed : find id (s.server_at server).services ≡ some p

keep-RunsOn :
    (id : ServiceId) (p n : ℕ) (running : Bool) (status : Option ℕ) (s : State) (d : Dict ℕ)
    (l : List Notice)
    → RunsOn id p n running status s
    → RunsOn id p n running status (record s { servers = d; told = l })
keep-RunsOn id p n running status s d l h = record {
  its_server = h.its_server;
  its_running = h.its_running;
  its_status = h.its_status;
  listed = h.listed;
}

expunge-RunsOn :
    (id : ServiceId) (p n : ℕ) (running : Bool) (status : Option ℕ) (o : ℕ)
    → Keeps (RunsOn id p n running status) (expunge o)
unfolding expunge lookup
expunge-RunsOn id p n running status o s h =
    let x = s.server_at o in
    elim (Bool-cases (not x.managed && is_empty x.services)) [
      | inr e ↦ rw (e) h
      | inl e ↦ elim (Option-cases (lookup x.fqdn s.servers)) [
        | inl u ↦ rw (e, u) h
        | inr (m, u) ↦ rw (e, u) (keep-RunsOn id p n running status s _ _ h)
      ]
    ]

expunge-ok :
    (o q : ℕ) (s : State) → lookup (s.server_at o).fqdn s.servers ≡ some q → (expunge o s).0 ≡ ok tt
unfolding expunge lookup
expunge-ok o q s u =
    elim (Bool-cases (not (s.server_at o).managed && is_empty (s.server_at o).services)) [
      | inr e ↦ rw (e) refl
      | inl e ↦ rw (e, u) refl
    ]

-- A later state in which one service may have other flags
record IsMarked (p : ℕ) (s t : State) : Type 0 where
  servers_as : t.servers ≡ s.servers
  server_as : (n : ℕ) → t.server_at n ≡ s.server_at n
  placed_as : (t.service_at p).server ≡ (s.service_at p).server

set_running_eq :
    (p : ℕ) (b : Bool) (s : State)
    → (t : State) × (set_running p b s ≡ (ok tt, t))
      × IsMarked p s t
      × ((t.service_at p).running ≡ b)
unfolding set_running
set_running_eq p b s = elim (Bool-cases (same_bool b (s.service_at p).running)) [
  | inl e ↦ (
    s,
    rw (e, set_running) refl,
    record { servers_as = refl; server_as = λ n. refl; placed_as = refl },
    ground arith,
  )
  | inr e ↦ (
    record s {
      service_at = set_at s.service_at p (record (s.service_at p) { running = b });
      told = change_service (s.service_at p).id ∷ s.told;
    },
    rw (e, set_running) refl,
    record { servers_as = refl; server_as = λ n. refl; placed_as = ground arith },
    ground arith,
  )
]

set_status_eq :
    (p : ℕ) (v : Option ℕ) (s : State)
    → (t : State) × (set_status p v s ≡ (ok tt, t))
      × IsMarked p s t
      × ((t.service_at p).status ≡ v)
      × ((t.service_at p).running ≡ (s.service_at p).running)
unfolding set_status
set_status_eq p v s = elim (Bool-cases (same_option v (s.service_at p).status)) [
  | inl e ↦ (
    s,
    rw (e, set_status) refl,
    record { servers_as = refl; server_as = λ n. refl; placed_as = refl },
    sym (same_option_iff v (s.service_at p).status e),
    refl,
  )
  | inr e ↦ (
    record s {
      service_at = set_at s.service_at p (record (s.service_at p) { status = v });
      told = change_service (s.service_at p).id ∷ s.told;
    },
    rw (e, set_status) refl,
    record { servers_as = refl; server_as = λ n. refl; placed_as = ground arith },
    ground arith,
    ground arith,
  )
]

-- The state before a server that may be left is checked.
abbrev after_move : ℕ → ServiceId → ℕ → ℕ → State → State
after_move server id p o s =
    let x = s.server_at o in
    let left = set_at s.server_at o (record x { services = remove id x.services }) in
    let y = left server in
    let servers₁ = set_at left server (record y { services = put id p y.services }) in
    record s {
      service_at = set_at s.service_at p (record (s.service_at p) { server = some server });
      server_at = servers₁;
      told = move_service id (servers₁ server).fqdn ∷ s.told;
    }

after_move-RunsOn :
    (server : ℕ) (id : ServiceId) (p o : ℕ) (s : State)
    → RunsOn id p server
        (s.service_at p).running
        (s.service_at p).status
        (after_move server id p o s)
after_move-RunsOn server id p o s = record {
  its_server = ground arith;
  its_running = ground arith;
  its_status = ground arith;
  listed = ground (
    arith,
    same_service_iff id id,
    find-put id id p
        (set_at s.server_at o
          (record (s.server_at o) { services = remove id (s.server_at o).services })
          server).services,
  );
}

associate-RunsOn :
    (server : ℕ) (id : ServiceId) (p o q : ℕ) (s : State)
    → (s.service_at p).server ≡ some o
    → find id (s.server_at o).services ≡ some p
    → RunsOn id p server
        (s.service_at p).running
        (s.service_at p).status
        (associate server id p s).1
      × (lookup (s.server_at o).fqdn s.servers ≡ some q → (associate server id p s).0 ≡ ok tt)
unfolding associate move find
associate-RunsOn server id p o q s e f = elim (Bool-cases (o == server)) [
  | inl u ↦
      rw (e, u)
        (
          record {
            its_server = ground arith;
            its_running = refl;
            its_status = refl;
            listed = ground arith;
          },
          λ w. refl,
        )
  | inr u ↦
      let t = after_move server id p o s in
      rw (e, u, f)
        (
          expunge-RunsOn id p server (s.service_at p).running (s.service_at p).status o t
              (after_move-RunsOn server id p o s),
          λ w. expunge-ok o q t (ground arith),
        )
]

-- Where the indexes agree, and a known service's server is in the index of servers, registering the
-- service raises nothing and puts it on the server that reports it: the service's server, its flag
-- and its status are the ones given, and the server lists it.
pub register_service_lem :
    (server : ℕ) (id : ServiceId) (running : Bool) (status : Option ℕ) (s : State) (p o q : ℕ)
    → IsLinked s
    → find id s.services ≡ some p
    → (s.service_at p).server ≡ some o
    → lookup (s.server_at o).fqdn s.servers ≡ some q
    → ((register_service server id running status s).0 ≡ ok tt)
      × RunsOn id p server running status (register_service server id running status s).1
unfolding register_service find_or_create
register_service_lem server id running status s p o q h e w k =
    let (t₁, eq₁, m₁, r₁) = set_running_eq p running s in
    let (t₂, eq₂, m₂, v₂, r₂) = set_status_eq p status t₁ in
    let (a, b) =
      associate-RunsOn server id p o q t₂ (m₂.placed_as ∙ m₁.placed_as ∙ w)
        (ground (arith, h.placed id p o e w, m₂.server_as o, m₁.server_as o)) in
    rw (e, find_or_create, eq₁, eq₂)
      (
        b (ground (arith, k, m₂.server_as o, m₁.server_as o, m₂.servers_as, m₁.servers_as)),
        rw (r₂ ∙ r₁, v₂) at a,
      )
