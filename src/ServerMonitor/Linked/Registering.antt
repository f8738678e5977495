-- ===== src/ServerMonitor/Linked/Registering.antt =====
-- The registration of a service keeps the indexes in agreement.
use calamari.Prelude.{
  ℕ, suc, ◌≡◌, ◌<◌, refl, Bool, true, Option, none, some, List, [], ◌∷◌, ◌++◌, ◌&&◌, inl, inr,
  arith, ◌==◌, ==_refl, Bool-cases, Option-cases, not, is_empty,
}
use calamari.Prelude.Dict.{Dict, lookup, insert, erase, lookup-erase}
use calamari.Prelude.Keyed.{find, put, find-put}
use calamari.Exec.{ok, ◌>>◌}
use calamari.Exec.Rules.{Keeps, when-Keeps, Ends, Keeps-Ends, after-Ends}
use calamari.ServerMonitor.Objects.{
  ServiceId, service_eq, same_service_iff, Server, Service, State, Notice, set_at,
  change_service_at, tell, services_of, change_service, delete_server, move_service,
}
use calamari.ServerMonitor.Services.{
  link, inject_service, find_or_create, set_running, set_status, expunge, move, associate,
  register_service, same_option, same_bool, new_service_state,
}
use calamari.ServerMonitor.Linked.{IsLinked, moved, moved-IsLinked}
use calamari.ServerMonitor.Linked.Changes.{linked-IsLinked, with_service, with_service-IsLinked}
use calamari.ServerMonitor.Linked.Steps.{
  Holds, changed_service-IsLinked, tell-IsLinked, names-IsLinked, others-IsLinked,
}

pub set_running-IsLinked : (m p : ℕ) (b : Bool) → Keeps (Holds m) (set_running p b)
unfolding set_running
set_running-IsLinked m p b s =
    let x = s.service_at p in
    let f = λ (x : Service). record x { running = b } in
    when-Keeps (Holds m) (not (same_bool b x.running))
      (change_service_at p f >> tell (change_service x.id))
      (changed_service-IsLinked p m f (change_service x.id) (λ x. refl) (λ x. refl)) s

pub set_status-IsLinked : (m p : ℕ) (v : Option ℕ) → Keeps (Holds m) (set_status p v)
unfolding set_status
set_status-IsLinked m p v s =
    let x = s.service_at p in
    let f = λ (x : Service). record x { status = v } in
    when-Keeps (Holds m) (not (same_option v x.status))
      (change_service_at p f >> tell (change_service x.id))
      (changed_service-IsLinked p m f (change_service x.id) (λ x. refl) (λ x. refl)) s

pub expunge-IsLinked : (m n : ℕ) → Keeps (Holds m) (expunge n)
unfolding expunge lookup
expunge-IsLinked m n s (h, k) = elim (Bool-cases (not x.managed && is_empty x.services)) [
  | inl e ↦ elim (Option-cases (lookup x.fqdn s.servers)) [
    | inl u ↦ rw (e, u) (h, k)
    | inr (o, u) ↦
        rw (e, u)
          (tell-IsLinked m (delete_server x.fqdn) (record s { servers = erase x.fqdn s.servers })
            (
              names-IsLinked s _ _ h
                  (λ j p f. ground (arith, lookup-erase x.fqdn j s.servers, h.found j p)) h.hosted,
              k,
            ))
  ]
  | inr e ↦ rw (e) (h, k)
]
  where
    x : Server
    x = s.server_at n

-- What is known once the service's object is at hand
abbrev pub HoldsKnown : ℕ → ServiceId → ℕ → State → Type 0
HoldsKnown m id p s = Holds m s × (find id s.services ≡ some p)

pub set_running-Known :
    (m p q : ℕ) (id : ServiceId) (b : Bool) → Keeps (HoldsKnown m id q) (set_running p b)
unfolding set_running
set_running-Known m p q id b s (h, k) = elim (Bool-cases (same_bool b (s.service_at p).running)) [
  | inl e ↦ (set_running-IsLinked m p b s h, rw (e) k)
  | inr e ↦ (set_running-IsLinked m p b s h, rw (e) k)
]

pub set_status-Known :
    (m p q : ℕ) (id : ServiceId) (v : Option ℕ) → Keeps (HoldsKnown m id q) (set_status p v)
unfolding set_status
set_status-Known m p q id v s (h, k) = elim (Bool-cases (same_option v (s.service_at p).status)) [
  | inl e ↦ (set_status-IsLinked m p v s h, rw (e) k)
  | inr e ↦ (set_status-IsLinked m p v s h, rw (e) k)
]

pub same_option_iff : (a b : Option ℕ) → same_option a b ≡ true → a ≡ b
same_option_iff none none h = refl
same_option_iff (some a) (some b) h = ground arith
same_option_iff none (some b) h = ground arith
same_option_iff (some a) none h = ground arith

pub associate-IsLinked :
    (n : ℕ) (id : ServiceId) (p : ℕ) (s : State)
    → HoldsKnown (suc n) id p s
    → Holds (suc n) (associate n id p s).1
unfolding associate move find
associate-IsLinked n id p s ((h, k), f) = elim (Option-cases (s.service_at p).server) [
  | inl e ↦ elim (h.manned id p f e) [ ]
  | inr (o, e) ↦ elim (Bool-cases (o == n)) [
    | inl u ↦ rw (e, u) (h, k)
    | inr u ↦
        let t = moved s h id p o n f e u k in
        rw (e, u, h.placed id p o f e)
          (expunge-IsLinked (suc n) o _ (
            others-IsLinked t t.fsid_services t.contact_periods
                (move_service id (t.server_at n).fqdn ∷ t.told)
                (moved-IsLinked s h id p o n f e u k),
            k,
          ))
  ]
]

-- A link changes two objects, the index of services and some list of services.
abbrev linked_with : ℕ → ℕ → ServiceId → Dict (List ℕ) → State → State
linked_with o p id d s =
    let x = s.server_at o in
    record s {
      service_at = set_at s.service_at p (record (s.service_at p) { server = some o });
      server_at = set_at s.server_at o (record x { services = put id p x.services });
      services = put id p s.services;
      fsid_services = d;
    }

link_eq :
    (o p : ℕ) (id : ServiceId) (s : State)
    → (d : Dict (List ℕ)) × (link o p id s ≡ (ok tt, linked_with o p id d s))
unfolding link services_of
link_eq o p id s = elim (Option-cases (lookup id.fsid s.fsid_services)) [
  | inl e ↦ (insert id.fsid (p ∷ []) (insert id.fsid [] s.fsid_services), rw (e, services_of) refl)
  | inr (l, e) ↦ (insert id.fsid (l ++ p ∷ []) s.fsid_services, rw (e, services_of) refl)
]

linked-Known :
    (n : ℕ) (s : State) (h : IsLinked s) (id : ServiceId) (o : ℕ)
    → find id s.services ≡ none
    → o < s.next
    → n < s.next
    → (d : Dict (List ℕ)) (l : List Notice)
    → HoldsKnown
        (suc n)
        id
        s.next
        (record (linked_with o s.next id d (with_service s h (new_service_state id))) { told = l })
linked-Known n s h id o e u k d l =
    let t = with_service s h (new_service_state id) in
    (
      (
        others-IsLinked _ d t.contact_periods l (
            linked-IsLinked t (with_service-IsLinked s h (new_service_state id)) id o s.next e
              (ground arith) (ground arith) (ground arith) (λ j q f. ground (arith, h.made j q f))
              (λ j q k f. ground (arith, h.made_listed j q k f))),
        ground arith,
      ),
      ground (arith, find-put id id s.next s.services, same_service_iff id id),
    )

pub find_or_create-Ends :
    (n : ℕ) (id : ServiceId)
    → Ends (Holds (suc n)) (λ p s. HoldsKnown (suc n) id p s) (Holds (suc n)) (find_or_create n id)
unfolding find_or_create inject_service find lookup
find_or_create-Ends n id s (h, k) =
    let x = s.server_at n in
    elim (Option-cases (find id s.services)) [
      | inr (p, e) ↦ rw (e, find_or_create) ((h, k), e)
      | inl e ↦ elim (Option-cases (lookup x.fqdn s.servers)) [
        | inl u ↦
            rw (e, u, find_or_create)
              (with_service-IsLinked s h (new_service_state id), ground arith)
        | inr (o, u) ↦
            let (d, l) = link_eq o s.next id (with_service s h (new_service_state id)) in
            rw (e, u, find_or_create, ==_refl s.next, l)
              (linked-Known n s h id o e (h.found x.fqdn o u) k d _)
      ]
    ]

pub register_service-IsLinked :
    (n : ℕ) (id : ServiceId) (running : Bool) (status : Option ℕ)
    → Keeps (Holds (suc n)) (register_service n id running status)
unfolding register_service
register_service-IsLinked n id running status =
    after-Ends (Holds (suc n)) (λ p. HoldsKnown (suc n) id p) (Holds (suc n)) (find_or_create n id)
      (λ p. set_running p running >> (set_status p status >> associate n id p))
      (find_or_create-Ends n id) known
  where
    weaken : (p : ℕ) (s : State) → HoldsKnown (suc n) id p s → Holds (suc n) s
    weaken p s h = h.0

    known :
        (p : ℕ) (s : State)
        → HoldsKnown (suc n) id p s
        → Holds (suc n) ((set_running p running >> (set_status p status >> associate n id p)) s).1
    known p =
        let P = HoldsKnown (suc n) id p in
        after-Ends P (λ _. P) (Holds (suc n)) (set_running p running)
          (λ _. set_status p status >> associate n id p)
          (Keeps-Ends P (Holds (suc n)) (set_running p running) (weaken p)
            (set_running-Known (suc n) p p id running))
          (λ _.
            after-Ends P (λ _. P) (Holds (suc n)) (set_status p status) (λ _. associate n id p)
              (Keeps-Ends P (Holds (suc n)) (set_status p status) (weaken p)
                (set_status-Known (suc n) p p id status))
              (λ _. associate-IsLinked n id p))
