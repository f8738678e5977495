-- ===== src/ServerMonitor/Linked/Changes.antt =====
-- Changes of the heap and the indexes that leave them in agreement.
use calamari.Prelude.{ℕ, ◌≡◌, ◌<◌, ◌+◌, false, none, some, [], arith, ◌==◌}
use calamari.Prelude.Keyed.{find, put, remove, find-put, find-remove, find-nil}
use calamari.ServerMonitor.Objects.{
  ServiceId, service_eq, same_service_iff, Server, Service, State, set_at,
}
use calamari.ServerMonitor.Linked.{IsLinked}

-- A service that no index refers to yet, on the server `n`.
module _ (s : State) (h : IsLinked s) (id : ServiceId) (n p : ℕ)
    (unknown : find id s.services ≡ none) (made_n : n < s.next) (made_p : p < s.next)
    (own : (s.service_at p).id ≡ id)
    (fresh : (j : ServiceId) (q : ℕ) → find j s.services ≡ some q → (p == q) ≡ false)
    (free : (j : ServiceId) (q k : ℕ)
      → find j (s.server_at k).services ≡ some q
      → (p == q) ≡ false) where
  abbrev pub linked : State
  linked =
      let x = s.server_at n in
      record s {
        service_at = set_at s.service_at p (record (s.service_at p) { server = some n });
        server_at = set_at s.server_at n (record x { services = put id p x.services });
        services = put id p s.services;
      }

  linked-placed :
      (j : ServiceId) (q server : ℕ)
      → find j linked.services ≡ some q
      → (linked.service_at q).server ≡ some server
      → find j (linked.server_at server).services ≡ some q
  linked-placed j q server f g = ground (
    arith,
    find-put id j p s.services,
    find-put id j p (s.server_at n).services,
    same_service_iff id j,
    h.placed j q server,
    fresh j q,
  )

  linked-owned :
      (j : ServiceId) (q server : ℕ)
      → find j linked.services ≡ some q
      → find j (linked.server_at server).services ≡ some q
      → (linked.service_at q).server ≡ some server
  linked-owned j q server f g = ground (
    arith,
    find-put id j p s.services,
    find-put id j p (s.server_at n).services,
    same_service_iff id j,
    h.owned j q server,
    fresh j q,
    free j q server,
  )

  pub linked-IsLinked : IsLinked linked
  linked-IsLinked = record {
    named = λ j q f.
        ground
          (arith, find-put id j p s.services, same_service_iff id j, h.named j q, fresh j q, own);
    placed = linked-placed;
    owned = linked-owned;
    manned = λ j q f. ground (arith, find-put id j p s.services, h.manned j q, fresh j q);
    made = λ j q f. ground (arith, find-put id j p s.services, h.made j q);
    made_server =
        λ j q k f g. ground (arith, find-put id j p s.services, h.made_server j q k, fresh j q);
    made_listed =
        λ j q k f. ground (arith, find-put id j p (s.server_at n).services, h.made_listed j q k);
    found = h.found;
    hosted = h.hosted;
  }

-- A service that leaves the index, and whatever server lists it.
module _ (s : State) (h : IsLinked s) (id : ServiceId) where
  abbrev pub dropped : State
  dropped = record s { services = remove id s.services }

  pub dropped-IsLinked : IsLinked dropped
  dropped-IsLinked = record {
    named = λ j q f. ground (arith, find-remove id j s.services, h.named j q);
    placed = λ j q k f g. ground (arith, find-remove id j s.services, h.placed j q k);
    owned = λ j q k f g. ground (arith, find-remove id j s.services, h.owned j q k);
    manned = λ j q f. ground (arith, find-remove id j s.services, h.manned j q);
    made = λ j q f. ground (arith, find-remove id j s.services, h.made j q);
    made_server = λ j q k f g. ground (arith, find-remove id j s.services, h.made_server j q k);
    made_listed = h.made_listed;
    found = h.found;
    hosted = h.hosted;
  }

-- A service that no index knows leaves its server.
module _ (s : State) (h : IsLinked s) (id : ServiceId) (n : ℕ)
    (unknown : find id s.services ≡ none) where
  abbrev pub unlisted : State
  unlisted =
      let x = s.server_at n in
      record s { server_at = set_at s.server_at n (record x { services = remove id x.services }) }

  pub unlisted-IsLinked : IsLinked unlisted
  unlisted-IsLinked = record {
    named = h.named;
    placed = λ j q k f g.
        ground
          (arith, find-remove id j (s.server_at n).services, same_service_iff id j, h.placed j q k);
    owned = λ j q k f g. ground (arith, find-remove id j (s.server_at n).services, h.owned j q k);
    manned = h.manned;
    made = h.made;
    made_server = h.made_server;
    made_listed =
        λ j q k f. ground (arith, find-remove id j (s.server_at n).services, h.made_listed j q k);
    found = h.found;
    hosted = h.hosted;
  }

-- A new server, with no service yet.
module _ (s : State) (h : IsLinked s) (x : Server) (empty : x.services ≡ []) where
  abbrev pub with_server : State
  with_server = record s { server_at = set_at s.server_at s.next x; next = s.next + 1 }

  pub with_server-IsLinked : IsLinked with_server
  with_server-IsLinked = record {
    named = h.named;
    placed = λ j q k f g. ground (arith, empty, h.made_server j q k, h.placed j q k);
    owned = λ j q k f g. ground (arith, empty, find-nil {V = ℕ} j, h.owned j q k);
    manned = h.manned;
    made = λ j q f. ground (arith, h.made j q);
    made_server = λ j q k f g. ground (arith, h.made_server j q k);
    made_listed = λ j q k f. ground (arith, empty, find-nil {V = ℕ} j, h.made_listed j q k);
    found = λ k q f. ground (arith, h.found k q);
    hosted = λ k q f. ground (arith, h.hosted k q);
  }

-- A service that no index knows may lose its server.
module _ (s : State) (h : IsLinked s) (p : ℕ) (id : ServiceId) (own : (s.service_at p).id ≡ id)
    (unknown : find id s.services ≡ none) where
  abbrev pub stranded : State
  stranded = record s {
    service_at = set_at s.service_at p (record (s.service_at p) { server = none });
  }

  pub stranded-IsLinked : IsLinked stranded
  stranded-IsLinked = record {
    named = λ j q f. ground (arith, h.named j q f);
    placed = λ j q k f g. ground (arith, h.named j q f, h.placed j q k f);
    owned = λ j q k f g. ground (arith, h.named j q f, h.owned j q k f);
    manned = λ j q f. ground (arith, h.named j q f, h.manned j q f);
    made = h.made;
    made_server = λ j q k f g. ground (arith, h.made_server j q k f);
    made_listed = h.made_listed;
    found = h.found;
    hosted = h.hosted;
  }

-- A service that leaves the index and its server's reference together.
module _ (s : State) (h : IsLinked s) (p : ℕ) (id : ServiceId)
    (own : (s.service_at p).id ≡ id) where
  abbrev pub deleted : State
  deleted =
      let x = s.service_at p in
      record s {
        service_at = set_at s.service_at p (record x { server = none });
        services = remove id s.services;
      }

  pub deleted-IsLinked : IsLinked deleted
  deleted-IsLinked = record {
    named = λ j q f. ground (arith, find-remove id j s.services, h.named j q);
    placed = λ j q k f g. ground (
      arith,
      find-remove id j s.services,
      same_service_iff id j,
      h.named j q,
      own,
      h.placed j q k,
    );
    owned = λ j q k f g. ground (
      arith,
      find-remove id j s.services,
      same_service_iff id j,
      h.named j q,
      own,
      h.owned j q k,
    );
    manned = λ j q f.
        ground (
          arith,
          find-remove id j s.services,
          same_service_iff id j,
          h.named j q,
          own,
          h.manned j q,
        );
    made = λ j q f. ground (arith, find-remove id j s.services, h.made j q);
    made_server = λ j q k f g. ground (arith, find-remove id j s.services, h.made_server j q k);
    made_listed = h.made_listed;
    found = h.found;
    hosted = h.hosted;
  }

-- A new service's object that no index refers to yet.
module _ (s : State) (h : IsLinked s) (x : Service) where
  abbrev pub with_service : State
  with_service = record s { service_at = set_at s.service_at s.next x; next = s.next + 1 }

  pub with_service-IsLinked : IsLinked with_service
  with_service-IsLinked = record {
    named = λ j q f. ground (arith, h.made j q f, h.named j q f);
    placed = λ j q k f g. ground (arith, h.made j q f, h.placed j q k f);
    owned = λ j q k f g. ground (arith, h.made j q f, h.owned j q k f);
    manned = λ j q f. ground (arith, h.made j q f, h.manned j q f);
    made = λ j q f. ground (arith, h.made j q);
    made_server = λ j q k f g. ground (arith, h.made j q f, h.made_server j q k f);
    made_listed = λ j q k f. ground (arith, h.made_listed j q k);
    found = λ k q f. ground (arith, h.found k q);
    hosted = λ k q f. ground (arith, h.hosted k q);
  }
