-- ===== src/RequestCollection/Sound.antt =====
-- What holds of every stored request, and the rules by which an operation keeps it.
use calamari.Prelude.{
  ℕ, ◌≡◌, ◌≢◌, refl, some, List, [], ◌∷◌, inl, inr, arith, Option-cases, Bool, true, false,
  if◌then◌else◌,
}
use calamari.Prelude.Dict.{lookup, insert, lookup-insert, IsUnique, insert-IsUnique}
use calamari.Exec.{Exception, ok, err, Exec, ◌>>=◌, continue, Result-cases, catch, when, Result}
use calamari.UserRequest.{Request, fresh, Running, Method}
use calamari.UserRequest.Lifecycle.{IsSettled}
use calamari.RequestCollection.Index.{
  Collection, Operation, for_each, request_of, on_request, update_index,
}
use calamari.RequestCollection.Local.{outcome, reindex_requests}

-- A stored request stands under its own id and has been submitted; if it is complete, it has no
-- job under way.
pub record IsGood (id : ℕ) (r : Request) : Type 0 where
  pub own_id : r.id ≡ id
  pub begun : r.state ≢ fresh
  pub settled : IsSettled r

pub record IsSound (c : Collection) : Type 0 where
  pub unique : IsUnique c.by_request_id
  pub good : (id : ℕ) (r : Request) → lookup id c.by_request_id ≡ some r → IsGood id r

pub same_requests-IsSound :
    (c c' : Collection) → c'.by_request_id ≡ c.by_request_id → IsSound c → IsSound c'
same_requests-IsSound c c' e s = record {
  unique = rw e s.unique;
  good = λ id r h. s.good id r (rw e at h);
}

abbrev pub KeepsSound : {A : Type 0} → Exec Collection A → Type 0
KeepsSound m = (c : Collection) → IsSound c → IsSound (m c).1

pub insert-IsSound :
    (id : ℕ) (r : Request) (c c' : Collection)
    → c'.by_request_id ≡ insert id r c.by_request_id
    → IsGood id r
    → IsSound c
    → IsSound c'
insert-IsSound id r c c' e g s = record {
  unique = rw e (insert-IsUnique id r c.by_request_id s.unique);
  good = λ j q h. stored j q (rw e at h);
}
  where
    stored : (j : ℕ) (q : Request) → lookup j (insert id r c.by_request_id) ≡ some q → IsGood j q
    stored j q h = ground (arith, lookup-insert id j r c.by_request_id, s.good j q)

module _ {A B : Type 0} where
  pub bind-KeepsSound :
      (m : Exec Collection A) (f : A → Exec Collection B)
      → KeepsSound m
      → ((a : A) → KeepsSound (f a))
      → KeepsSound (m >>= f)
  bind-KeepsSound m f km kf c s = go (m c).0 (m c).1 (km c s)
    where
      go : (r : Result A) (c' : Collection) → IsSound c' → IsSound (continue r f c').1
      go (ok a) c' s' = kf a c' s'
      go (err e) c' s' = s'

pub for_each-KeepsSound {ℓ} :
    {A : Type ℓ} (xs : List A) (f : A → Operation)
    → ((a : A) → KeepsSound (f a))
    → KeepsSound (for_each xs f)
unfolding for_each
for_each-KeepsSound [] f k c s = s
for_each-KeepsSound (x ∷ xs) f k c s =
    bind-KeepsSound (f x) (λ _. for_each xs f) (k x) (λ _. for_each-KeepsSound xs f k) c s

pub request_of_unchanged : (id : ℕ) (c : Collection) → (request_of id c).1 ≡ c
request_of_unchanged id c = ground arith

pub request_of-KeepsSound : (id : ℕ) → KeepsSound (request_of id)
request_of-KeepsSound id c s = rw request_of_unchanged s

pub update_index-KeepsSound :
    (id : ℕ) (body : Operation) → KeepsSound body → KeepsSound (update_index id body)
unfolding update_index
update_index-KeepsSound id body k =
    bind-KeepsSound (request_of id) _ (request_of-KeepsSound id) λ before.
      bind-KeepsSound body _ k λ _.
        bind-KeepsSound (request_of id) _ (request_of-KeepsSound id)
          λ after c s. same_requests-IsSound c _ (reindex_requests id before.jid after.jid c) s

-- A method that keeps its object as it has to be.
abbrev pub KeepsGood : ℕ → Method (Unit {0}) → Type 0
KeepsGood id m = (w : Running) → IsGood id w.self → IsGood id (m w).1.self

pub on_request-KeepsSound :
    (id : ℕ) (m : Method (Unit {0})) → KeepsGood id m → KeepsSound (on_request id m)
unfolding on_request
on_request-KeepsSound id m k c s = elim (Option-cases (lookup id c.by_request_id)) [
  | inl e ↦ rw e s
  | inr (r, e) ↦ rw e (
      insert-IsSound id (outcome m r c) c _ refl
        (k (record { self = r; sent = c.sent }) (s.good id r e)) s)
]

pub catch-KeepsSound :
    (m : Operation) (h : Exception → Operation)
    → KeepsSound m
    → ((e : Exception) → KeepsSound (h e))
    → KeepsSound (catch m h)
catch-KeepsSound m h km kh c s = elim (Result-cases (m c).0) [
  | inl (a, e) ↦ rw (e, catch) (km c s)
  | inr (x, e) ↦ rw (e, catch) (kh x (m c).1 (km c s))
]

pub when-KeepsSound : (b : Bool) (m : Operation) → KeepsSound m → KeepsSound (when b m)
when-KeepsSound true m k c s = k c s
when-KeepsSound false m k c s = s

pub if-KeepsSound :
    {A : Type 0} (b : Bool) (m n : Exec Collection A)
    → KeepsSound m
    → KeepsSound n
    → KeepsSound (if b then m else n)
if-KeepsSound true m n km kn c s = km c s
if-KeepsSound false m n km kn c s = kn c s
