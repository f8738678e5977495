-- ===== src/ServerMonitor/Linked/Reporting.antt =====
-- A server's report leaves the indexes in agreement.
use calamari.Prelude.{
  ℕ, suc, ◌≡◌, refl, Bool, true, false, Option, none, some, List, [], ◌++◌, ◌&&◌, ◌||◌, inl, inr,
  arith, Bool-cases, Option-cases, not,
}
use calamari.Prelude.Dict.{lookup, insert, lookup-insert}
use calamari.Prelude.Keyed.{find, map_keys, minus}
use calamari.Exec.{◌>>=◌, ◌>>◌, modify, when, each, Result-cases}
use calamari.Exec.Rules.{Keeps, then-Keeps, when-Keeps, each-Keeps, Ends, after-Ends}
use calamari.ServerMonitor.Objects.{
  ServiceId, service_eq, Server, Service, State, Handler, Notice, tell, change_server_at,
  change_service_at, create_server, change_server, on_reboot, on_new_version, on_server,
}
use calamari.ServerMonitor.Services.{inject_server, same_option}
use calamari.ServerMonitor.Heartbeat.{
  ServerHeartbeat, drop_server, set_managed, take_over, find_by_hostname, start_managing,
  find_server, ensure_server, set_last_contact, set_boot_time, is_reboot, set_version, upgrading,
  register_reported, seen_ids, mark_stopped, mark_unseen, announce, on_report, on_server_heartbeat,
}
use calamari.ServerMonitor.Linked.{IsLinked}
use calamari.ServerMonitor.Linked.Changes.{with_server, with_server-IsLinked}
use calamari.ServerMonitor.Linked.Steps.{
  Holds, change_server-IsLinked, change_service-IsLinked, tell-IsLinked, names-IsLinked,
  inject_server-IsLinked,
}
use calamari.ServerMonitor.Linked.Registering.{register_service-IsLinked}
use calamari.ServerMonitor.Linked.Forgetting.{drop_server-IsLinked}

pub lower : (n : ℕ) (s : State) → Holds (suc n) s → Holds 0 s
lower n s (h, k) = (h, ground arith)

-- A new server joins the indexes.
pub joined-IsLinked :
    (x : Server) (e : x.services ≡ []) (l : Notice) (s : State) (h : IsLinked s)
    → Holds (suc s.next) ((inject_server s.next >> tell l) (with_server s h x e)).1
joined-IsLinked x e l s h =
    then-Keeps (Holds (suc s.next)) (inject_server s.next) (tell l) (inject_server-IsLinked s.next)
      (tell-IsLinked (suc s.next) l) (with_server s h x e)
      (with_server-IsLinked s h x e, ground arith)

set_managed-IsLinked : (m n : ℕ) → Keeps (Holds m) (set_managed n)
set_managed-IsLinked m n = change_server-IsLinked n m (λ x. record x { managed = true }) (λ x. refl)

-- The server `n` is known by its new name.
rename-IsLinked :
    (n fqdn : ℕ)
    → Keeps (Holds (suc n)) (modify (λ s. record s { servers = insert fqdn n s.servers }))
rename-IsLinked n fqdn s (h, k) = (
  names-IsLinked s _ _ h (λ j p e. ground (arith, lookup-insert fqdn j n s.servers, h.found j p))
      h.hosted,
  k,
)

take_over-IsLinked : (n old fqdn : ℕ) → Keeps (Holds (suc n)) (take_over n old fqdn)
unfolding take_over
take_over-IsLinked n old fqdn =
    then-Keeps P (set_managed n) (drop_server old >> rest) (set_managed-IsLinked (suc n) n) (
      then-Keeps P (drop_server old) rest (drop_server-IsLinked (suc n) old) (
        then-Keeps P (change_server_at n (λ x. record x { fqdn = fqdn })) names
          (change_server-IsLinked n (suc n) (λ x. record x { fqdn = fqdn }) (λ x. refl))
          (then-Keeps P insert_name (tell (change_server old)) (rename-IsLinked n fqdn)
            (tell-IsLinked (suc n) (change_server old)))))
  where
    P : State → Type 0
    P = Holds (suc n)

    insert_name : Handler (Unit {0})
    insert_name = modify (λ s. record s { servers = insert fqdn n s.servers })

    names : Handler (Unit {0})
    names = insert_name >> tell (change_server old)

    rest : Handler (Unit {0})
    rest = change_server_at n (λ x. record x { fqdn = fqdn }) >> names

-- The server that was found is on the heap.
abbrev HoldsFound : Option ℕ × Bool → State → Type 0
HoldsFound (none, b) s = Holds 0 s
HoldsFound (some n, b) s = Holds (suc n) s

find_by_hostname-Ends :
    (fqdn hostname : ℕ) → Ends (Holds 0) HoldsFound (Holds 0) (find_by_hostname fqdn hostname)
unfolding find_by_hostname
find_by_hostname-Ends fqdn hostname s (h, k) =
    elim (Option-cases (lookup hostname s.hostname_to_server)) [
      | inl e ↦ rw (e, find_by_hostname) (h, k)
      | inr (n, e) ↦
          let old = (s.server_at n).fqdn in
          elim (Bool-cases (s.server_at n).managed) [
            | inl u ↦ rw (e, u, find_by_hostname) (h, k)
            | inr u ↦ elim (Result-cases (take_over n old fqdn s).0) [
              | inl (a, w) ↦
                  rw (e, u, find_by_hostname, w)
                    (take_over-IsLinked n old fqdn s (h, h.hosted hostname n e))
              | inr (x, w) ↦
                  rw (e, u, find_by_hostname, w)
                    (lower n _ (take_over-IsLinked n old fqdn s (h, h.hosted hostname n e)))
            ]
          ]
    ]

start_managing-Ends : (n : ℕ) → Ends (Holds (suc n)) HoldsFound (Holds 0) (start_managing n)
unfolding start_managing
start_managing-Ends n s h = elim (Bool-cases (s.server_at n).managed) [
  | inl e ↦ rw (e, start_managing) h
  | inr e ↦
      rw (e, start_managing)
        (then-Keeps (Holds (suc n)) (set_managed n) (tell (change_server (s.server_at n).fqdn))
          (set_managed-IsLinked (suc n) n)
          (tell-IsLinked (suc n) (change_server (s.server_at n).fqdn)) s h)
]

find_server-Ends :
    (grains : ℕ → Option ℕ) (fqdn : ℕ)
    → Ends (Holds 0) HoldsFound (Holds 0) (find_server grains fqdn)
unfolding find_server
find_server-Ends grains fqdn s (h, k) = elim (Option-cases (lookup fqdn s.servers)) [
  | inr (n, e) ↦ rw (e, find_server) (start_managing-Ends n s (h, h.found fqdn n e))
  | inl e ↦ elim (Option-cases (grains fqdn)) [
    | inl u ↦ rw (e, u, find_server) (h, k)
    | inr (hostname, u) ↦ rw (e, u, find_server) (find_by_hostname-Ends fqdn hostname s (h, k))
  ]
]

ensure_server-Ends :
    (grains : ℕ → Option ℕ) (now fqdn : ℕ) (beat : ServerHeartbeat) (found : Option ℕ × Bool)
    → Ends
        (HoldsFound found)
        (λ made. Holds (suc made.0))
        (Holds 0)
        (ensure_server grains now fqdn beat found.0)
unfolding ensure_server inject_server
ensure_server-Ends grains now fqdn beat (some n, b) s h = h
ensure_server-Ends grains now fqdn beat (none, b) s (h, k) = elim (Option-cases (grains fqdn)) [
  | inl e ↦ rw (e, ensure_server) (h, k)
  | inr (hostname, e) ↦
      rw (e, ensure_server) (joined-IsLinked _ refl (create_server fqdn hostname true) s h)
]

set_last_contact-IsLinked : (m now n : ℕ) → Keeps (Holds m) (set_last_contact now n)
unfolding set_last_contact
set_last_contact-IsLinked m now n s h =
    tell-IsLinked m _ _
      (change_server-IsLinked n m (λ x. record x { last_contact = some now }) (λ x. refl) s h)

set_boot_time-IsLinked : (m t n : ℕ) → Keeps (Holds m) (set_boot_time t n)
unfolding set_boot_time
set_boot_time-IsLinked m t n s =
    let x = s.server_at n in
    let f = λ (x : Server). record x { boot_time = some t } in
    let event = when (is_reboot x.boot_time t) (tell (on_reboot x.fqdn)) in
    when-Keeps (Holds m) (not (same_option x.boot_time (some t)))
      (change_server_at n f >> (tell (change_server x.fqdn) >> event))
      (then-Keeps (Holds m) (change_server_at n f) (tell (change_server x.fqdn) >> event)
        (change_server-IsLinked n m f (λ x. refl))
        (then-Keeps (Holds m) (tell (change_server x.fqdn)) event
          (tell-IsLinked m (change_server x.fqdn))
          (when-Keeps (Holds m) (is_reboot x.boot_time t) (tell (on_reboot x.fqdn))
            (tell-IsLinked m (on_reboot x.fqdn)))))
      s

set_version-IsLinked :
    (m : ℕ) (beat : ServerHeartbeat) (b : Bool) (n : ℕ) → Keeps (Holds m) (set_version beat b n)
unfolding set_version
set_version-IsLinked m beat b n s =
    let x = s.server_at n in
    let f = λ (x : Server). record x { ceph_version = beat.ceph_version } in
    let event = when (not b) (tell (on_new_version x.fqdn)) in
    when-Keeps (Holds m)
      (not (same_option x.ceph_version beat.ceph_version) && not (upgrading beat))
      (change_server_at n f >> (tell (change_server x.fqdn) >> event))
      (then-Keeps (Holds m) (change_server_at n f) (tell (change_server x.fqdn) >> event)
        (change_server-IsLinked n m f (λ x. refl))
        (then-Keeps (Holds m) (tell (change_server x.fqdn)) event
          (tell-IsLinked m (change_server x.fqdn))
          (when-Keeps (Holds m) (not b) (tell (on_new_version x.fqdn))
            (tell-IsLinked m (on_new_version x.fqdn)))))
      s

mark_stopped-IsLinked : (m : ℕ) (id : ServiceId) → Keeps (Holds m) (mark_stopped id)
unfolding mark_stopped
mark_stopped-IsLinked m id s h = elim (Option-cases (find id s.services)) [
  | inl e ↦ rw (e) h
  | inr (p, e) ↦
      let f = λ (x : Service). record x { running = false } in
      rw (e) (
        when-Keeps (Holds m) (s.service_at p).running (change_service_at p f)
          (change_service-IsLinked p m f (λ x. refl) (λ x. refl)) s h)
]

mark_unseen-IsLinked : (m n : ℕ) (seen : List ServiceId) → Keeps (Holds m) (mark_unseen n seen)
unfolding mark_unseen
mark_unseen-IsLinked m n seen s =
    let x = s.server_at n in
    each-Keeps (Holds m) mark_stopped (mark_stopped-IsLinked m)
      (minus (map_keys x.services) seen ++ minus seen (map_keys x.services)) s

announce-IsLinked : (m : ℕ) (b : Bool) (n : ℕ) → Keeps (Holds m) (announce b n)
unfolding announce
announce-IsLinked m b n s =
    let x = s.server_at n in
    when-Keeps (Holds m) b (tell (on_server x.fqdn)) (tell-IsLinked m (on_server x.fqdn)) s

on_report-IsLinked :
    (now : ℕ) (beat : ServerHeartbeat) (b : Bool) (n : ℕ)
    → Keeps (Holds (suc n)) (on_report now beat b n)
unfolding on_report
on_report-IsLinked now beat b n =
    let P = Holds (suc n) in
    let last = mark_unseen n (seen_ids beat.services) >> announce b n in
    let services = each (register_reported n) beat.services >> last in
    let version = set_version beat b n >> services in
    then-Keeps P (set_last_contact now n) (set_boot_time beat.boot_time n >> version)
      (set_last_contact-IsLinked (suc n) now n)
      (then-Keeps P (set_boot_time beat.boot_time n) version
        (set_boot_time-IsLinked (suc n) beat.boot_time n)
        (then-Keeps P (set_version beat b n) services (set_version-IsLinked (suc n) beat b n) (
          then-Keeps P (each (register_reported n) beat.services) last
            (each-Keeps P (register_reported n)
              (λ r. register_service-IsLinked n r.id true r.status) beat.services)
            (then-Keeps P (mark_unseen n (seen_ids beat.services)) (announce b n)
              (mark_unseen-IsLinked (suc n) n (seen_ids beat.services))
              (announce-IsLinked (suc n) b n)))))

pub on_server_heartbeat-IsLinked :
    (grains : ℕ → Option ℕ) (now fqdn : ℕ) (beat : ServerHeartbeat)
    → Keeps (Holds 0) (on_server_heartbeat grains now fqdn beat)
unfolding on_server_heartbeat
on_server_heartbeat-IsLinked grains now fqdn beat =
    after-Ends (Holds 0) HoldsFound (Holds 0) (find_server grains fqdn) report
      (find_server-Ends grains fqdn)
      (λ found.
        after-Ends (HoldsFound found) (λ made. Holds (suc made.0)) (Holds 0)
          (ensure_server grains now fqdn beat found.0)
          (λ made. on_report now beat (made.1 || found.1) made.0)
          (ensure_server-Ends grains now fqdn beat found)
          (λ made s h. lower made.0 _ (on_report-IsLinked now beat (made.1 || found.1) made.0 s h)))
  where
    report : Option ℕ × Bool → Handler (Unit {0})
    report found = ensure_server grains now fqdn beat found.0 >>= λ made.
        on_report now beat (made.1 || found.1) made.0
