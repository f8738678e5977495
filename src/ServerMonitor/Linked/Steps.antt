-- ===== src/ServerMonitor/Linked/Steps.antt =====
-- Single steps of the methods keep the indexes in agreement, and a reference to a server valid.
use calamari.Prelude.{
  ℕ, suc, ◌≡◌, ◌<◌, ◌≤◌, refl, inl, inr, some, List, [], ◌∷◌, ◌++◌, arith, Option-cases,
}
use calamari.Prelude.Dict.{Dict, lookup, insert, lookup-insert}
use calamari.Exec.{◌>>◌, modify}
use calamari.Exec.Rules.{Keeps, bind-Keeps, then-Keeps}
use calamari.ServerMonitor.Objects.{
  Server, Service, State, Notice, change_server_at, change_service_at, tell, services_of,
}
use calamari.ServerMonitor.Services.{list_service, inject_server}
use calamari.ServerMonitor.Linked.{IsLinked, Agree-IsLinked}

-- A server's reference is below such a bound.
abbrev pub Holds : ℕ → State → Type 0
Holds n s = IsLinked s × (n ≤ s.next)

pub change_server-IsLinked :
    (n m : ℕ) (f : Server → Server)
    → ((x : Server) → (f x).services ≡ x.services)
    → Keeps (Holds m) (change_server_at n f)
change_server-IsLinked n m f e s (h, k) = (
  Agree-IsLinked s _
      (record {
        same_services = refl;
        later = ground arith;
        same_id = λ p. refl;
        same_server = λ p. refl;
        same_listed = λ p. ground (arith, e (s.server_at n));
      })
      h.found h.hosted h,
  k,
)

pub change_service-IsLinked :
    (n m : ℕ) (f : Service → Service)
    → ((x : Service) → (f x).id ≡ x.id)
    → ((x : Service) → (f x).server ≡ x.server)
    → Keeps (Holds m) (change_service_at n f)
change_service-IsLinked n m f e d s (h, k) = (
  Agree-IsLinked s _
      (record {
        same_services = refl;
        later = ground arith;
        same_id = λ p. ground (arith, e (s.service_at n));
        same_server = λ p. ground (arith, d (s.service_at n));
        same_listed = λ p. refl;
      })
      h.found h.hosted h,
  k,
)

-- Other lists of services, cached periods and notices
pub others-IsLinked :
    (s : State) (d : Dict (List ℕ)) (c : Dict ℕ) (l : List Notice)
    → IsLinked s
    → IsLinked (record s { fsid_services = d; contact_periods = c; told = l })
others-IsLinked s d c l h =
    Agree-IsLinked s _
      (record {
        same_services = refl;
        later = ground arith;
        same_id = λ p. refl;
        same_server = λ p. refl;
        same_listed = λ p. refl;
      })
      h.found h.hosted h

pub tell-IsLinked : (m : ℕ) (n : Notice) → Keeps (Holds m) (tell n)
tell-IsLinked m n s (h, k) = (others-IsLinked s s.fsid_services s.contact_periods (n ∷ s.told) h, k)

-- A change of a service, and the notice of it
pub changed_service-IsLinked :
    (n m : ℕ) (f : Service → Service) (l : Notice)
    → ((x : Service) → (f x).id ≡ x.id)
    → ((x : Service) → (f x).server ≡ x.server)
    → Keeps (Holds m) (change_service_at n f >> tell l)
changed_service-IsLinked n m f l e d =
    then-Keeps (Holds m) (change_service_at n f) (tell l) (change_service-IsLinked n m f e d)
      (tell-IsLinked m l)

-- Other indexes of servers
pub names-IsLinked :
    (s : State) (d e : Dict ℕ)
    → IsLinked s
    → ((k p : ℕ) → lookup k d ≡ some p → p < s.next)
    → ((k p : ℕ) → lookup k e ≡ some p → p < s.next)
    → IsLinked (record s { servers = d; hostname_to_server = e })
names-IsLinked s d e h f g =
    Agree-IsLinked s _
      (record {
        same_services = refl;
        later = ground arith;
        same_id = λ p. refl;
        same_server = λ p. refl;
        same_listed = λ p. refl;
      })
      f g h

pub services_of-IsLinked : (m fsid : ℕ) → Keeps (Holds m) (services_of fsid)
unfolding services_of
services_of-IsLinked m fsid s (h, k) = elim (Option-cases (lookup fsid s.fsid_services)) [
  | inl e ↦
      rw (e, services_of)
        (others-IsLinked s (insert fsid [] s.fsid_services) s.contact_periods s.told h, k)
  | inr (l, e) ↦ rw (e, services_of) (h, k)
]

pub modify_services-IsLinked :
    (m : ℕ) (f : State → Dict (List ℕ))
    → Keeps (Holds m) (modify (λ s. record s { fsid_services = f s }))
modify_services-IsLinked m f s (h, k) = (others-IsLinked s (f s) s.contact_periods s.told h, k)

pub list_service-IsLinked : (m fsid service : ℕ) → Keeps (Holds m) (list_service fsid service)
list_service-IsLinked m fsid service =
    bind-Keeps (Holds m) (services_of fsid) _ (services_of-IsLinked m fsid)
      (λ l. modify_services-IsLinked m (λ s. insert fsid (l ++ service ∷ []) s.fsid_services))

pub inject_server-IsLinked : (n : ℕ) → Keeps (Holds (suc n)) (inject_server n)
unfolding inject_server
inject_server-IsLinked n s (h, k) =
    let x = s.server_at n in
    (
      names-IsLinked s _ _ h
          (λ j p e. ground (arith, lookup-insert x.fqdn j n s.servers, h.found j p))
          (λ j p e.
            ground (arith, lookup-insert x.hostname j n s.hostname_to_server, h.hosted j p)),
      k,
    )
