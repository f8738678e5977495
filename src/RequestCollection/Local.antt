-- ===== src/RequestCollection/Local.antt =====
-- Operations on one request: they change no other request's object.
use calamari.Prelude.{◌∙◌, ℕ, ◌≡◌, ◌≢◌, Option, some, inl, inr, arith, ==_refl}
use calamari.Prelude.Dict.{Dict, lookup, insert, lookup-insert}
use calamari.Exec.{Result-cases}
use calamari.UserRequest.{Request, Method}
use calamari.RequestCollection.Index.{Collection, run_on, on_request, reindex, update_index}

-- From `c` to `c'` only the object of `id` has changed, and it now meets `G`.
pub record Local (G : Request → Type 0) (id : ℕ) (c c' : Collection) : Type 0 where
  pub frame : (j : ℕ) → id ≢ j → lookup j c'.by_request_id ≡ lookup j c.by_request_id
  pub own : (r : Request) × (lookup id c'.by_request_id ≡ some r) × G r

-- The method's outcome on an object of the collection.
abbrev pub outcome : Method (Unit {0}) → Request → Collection → Request
outcome m r c = (m (record { self = r; sent = c.sent })).1.self

pub lookup-insert_self {ℓ} :
    {V : Type ℓ} (k : ℕ) (v : V) (d : Dict V) → lookup k (insert k v d) ≡ some v
lookup-insert_self k v d = rw (lookup-insert, ==_refl)

pub lookup-insert_ne {ℓ} :
    {V : Type ℓ} (k j : ℕ) (v : V) (d : Dict V) → k ≢ j → lookup j (insert k v d) ≡ lookup j d
lookup-insert_ne k j v d h = ground (arith, lookup-insert k j v d)

pub insert-Local :
    (G : Request → Type 0) (id : ℕ) (r' : Request) (c c' : Collection)
    → c'.by_request_id ≡ insert id r' c.by_request_id
    → G r'
    → Local G id c c'
insert-Local G id r' c c' e g = record {
  frame = λ j ne. rw e (lookup-insert_ne id j r' c.by_request_id ne);
  own = (r', rw e (lookup-insert_self id r' c.by_request_id), g);
}

pub Local-trans :
    (G H : Request → Type 0) (id : ℕ) (c c' c'' : Collection)
    → Local G id c c'
    → Local H id c' c''
    → Local H id c c''
Local-trans G H id c c' c'' p q = record {
  frame = λ j ne. q.frame j ne ∙ p.frame j ne;
  own = q.own;
}

pub reindex_requests :
    (id : ℕ) (old new : Option ℕ) (c : Collection)
    → (reindex id old new c).1.by_request_id ≡ c.by_request_id
unfolding reindex
reindex_requests id old new c = ground arith

module _ (id : ℕ) (m : Method (Unit {0})) (r : Request) (c : Collection)
    (found : lookup id c.by_request_id ≡ some r) where
  pub on_request_eq : on_request id m c ≡ run_on id m r c
  unfolding on_request
  on_request_eq = rw found

  pub on_request_requests :
      (on_request id m c).1.by_request_id ≡ insert id (outcome m r c) c.by_request_id
  on_request_requests = rw on_request_eq

  pub update_index_requests :
      (update_index id (on_request id m) c).1.by_request_id
      ≡ insert id (outcome m r c) c.by_request_id
  unfolding update_index
  update_index_requests = elim (Result-cases (m (record { self = r; sent = c.sent })).0) [
    | inl (a, e) ↦ rw (found, on_request_eq, e, lookup-insert_self) (reindex_requests _ _ _ _)
    | inr (x, e) ↦ rw (found, on_request_eq, e)
  ]
