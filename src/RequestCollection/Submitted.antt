-- ===== src/RequestCollection/Submitted.antt =====
-- Operations on requests that are submitted, and the loops over all of them.
use calamari.Prelude.{
  ℕ, ◌≡◌, ◌≢◌, ◌∙◌, refl, none, some, List, [], ◌∷◌, inl, inr, arith, Option-cases, Bool-cases, All,
  Bool, true, false,
}
use calamari.Prelude.Dict.{Dict, lookup, lookup-cons_self, IsUnique}
use calamari.Exec.{Result, Exception, ok, err, Exec, ◌>>=◌, continue, Result-cases, catch, when}
use calamari.UserRequest.{Request, submitted, Method, is_submitted}
use calamari.UserRequest.Lifecycle.{Keeps, Advances}
use calamari.RequestCollection.{
  Collection, Operation, for_each, request_of, on_request, update_index, reindex, submitted_ids,
}
use calamari.RequestCollection.Local.{
  outcome, on_request_requests, update_index_requests, reindex_requests, lookup-insert_ne,
}
use calamari.RequestCollection.Sound.{
  IsGood, IsSound, KeepsSound, insert-IsSound, bind-KeepsSound, request_of-KeepsSound,
  request_of_unchanged, same_requests-IsSound,
}

abbrev pub IsSubmittedAt : ℕ → Collection → Type 0
IsSubmittedAt id c = (r : Request) × (lookup id c.by_request_id ≡ some r) × (r.state ≡ submitted)

-- The operation keeps the collection sound where the request of `id` is submitted.
abbrev pub KeepsAt : ℕ → Operation → Type 0
KeepsAt id m = (c : Collection) → IsSound c → IsSubmittedAt id c → IsSound (m c).1

-- The operation changes no other request.
abbrev pub Frames : {A : Type 0} → ℕ → Exec Collection A → Type 0
Frames id m =
    (c : Collection) (j : ℕ) → id ≢ j → lookup j (m c).1.by_request_id ≡ lookup j c.by_request_id

Advances-IsGood :
    (id : ℕ) (r r' : Request) → r.state ≡ submitted → IsGood id r → Advances r r' → IsGood id r'
Advances-IsGood id r r' h g a = ground arith

module _ (id : ℕ) (m : Method (Unit {0})) (k : Keeps m) where
  outcome-IsGood :
      (r : Request) (c : Collection) → r.state ≡ submitted → IsGood id r → IsGood id (outcome m r c)
  outcome-IsGood r c h g = Advances-IsGood id r _ h g (k (record { self = r; sent = c.sent }) h)

  pub on_request-KeepsAt : KeepsAt id (on_request id m)
  on_request-KeepsAt c s (r, found, h) =
      insert-IsSound id (outcome m r c) c _ (on_request_requests id m r c found)
        (outcome-IsGood r c h (s.good id r found)) s

  pub update_index-KeepsAt : KeepsAt id (update_index id (on_request id m))
  update_index-KeepsAt c s (r, found, h) =
      insert-IsSound id (outcome m r c) c _ (update_index_requests id m r c found)
        (outcome-IsGood r c h (s.good id r found)) s

pub unchanged-Frames :
    {A : Type 0} (id : ℕ) (m : Exec Collection A)
    → ((c : Collection) → (m c).1.by_request_id ≡ c.by_request_id)
    → Frames id m
unchanged-Frames id m e c j ne = rw (e c)

pub bind-Frames :
    {A B : Type 0} (id : ℕ) (m : Exec Collection A) (f : A → Exec Collection B)
    → Frames id m
    → ((a : A) → Frames id (f a))
    → Frames id (m >>= f)
bind-Frames {A} id m f km kf c j ne = go (m c).0 (m c).1 (km c j ne)
  where
    go :
        (r : Result A) (c' : Collection)
        → lookup j c'.by_request_id ≡ lookup j c.by_request_id
        → lookup j (continue r f c').1.by_request_id ≡ lookup j c.by_request_id
    go (ok a) c' e = kf a c' j ne ∙ e
    go (err x) c' e = e

pub request_of-Frames : (id k : ℕ) → Frames id (request_of k)
request_of-Frames id k c j ne = rw request_of_unchanged

pub on_request-Frames : (id : ℕ) (m : Method (Unit {0})) → Frames id (on_request id m)
unfolding on_request
on_request-Frames id m c j ne = elim (Option-cases (lookup id c.by_request_id)) [
  | inl e ↦ rw e
  | inr (r, e) ↦ rw e (lookup-insert_ne id j (outcome m r c) c.by_request_id ne)
]

pub update_index-Frames :
    (id : ℕ) (body : Operation) → Frames id body → Frames id (update_index id body)
unfolding update_index
update_index-Frames id body k = bind-Frames id (request_of id) _ (request_of-Frames id id) λ before.
    bind-Frames id body _ k λ _. bind-Frames id (request_of id) _ (request_of-Frames id id) λ after.
      unchanged-Frames id (reindex id before.jid after.jid)
        (reindex_requests id before.jid after.jid)

pub catch-Frames :
    (id : ℕ) (m : Operation) (h : Exception → Operation)
    → Frames id m
    → ((e : Exception) → Frames id (h e))
    → Frames id (catch m h)
catch-Frames id m h km kh c j ne = elim (Result-cases (m c).0) [
  | inl (a, e) ↦ rw (e, catch) (km c j ne)
  | inr (x, e) ↦ rw (e, catch) (kh x (m c).1 j ne ∙ km c j ne)
]

abbrev pub IsDistinct : List ℕ → Type 0
IsDistinct [] = Unit
IsDistinct (x ∷ xs) = All (λ y. x ≢ y) xs × IsDistinct xs

abbrev pub AllSubmitted : List ℕ → Collection → Type 0
AllSubmitted ids c = All (λ id. IsSubmittedAt id c) ids

AllSubmitted-Frames :
    (id : ℕ) (ids : List ℕ) (m : Operation) (c : Collection)
    → Frames id m
    → All (λ y. id ≢ y) ids
    → AllSubmitted ids c
    → AllSubmitted ids (m c).1
AllSubmitted-Frames id [] m c k d a = tt
AllSubmitted-Frames id (y ∷ ys) m c k d ((r, found, h), a) =
    ((r, k c y d.0 ∙ found, h), AllSubmitted-Frames id ys m c k d.1 a)

-- A loop over submitted requests, whose body changes each request only in its own round.
pub for_each-KeepsAt :
    (ids : List ℕ) (f : ℕ → Operation)
    → ((id : ℕ) → KeepsAt id (f id))
    → ((id : ℕ) → Frames id (f id))
    → IsDistinct ids
    → (c : Collection) → AllSubmitted ids c
    → IsSound c
    → IsSound (for_each ids f c).1
unfolding for_each
for_each-KeepsAt [] f kf ff d c a s = s
for_each-KeepsAt (x ∷ xs) f kf ff d c a s = elim (Result-cases (f x c).0) [
  | inl (_, e) ↦
      rw (e, continue)
        (for_each-KeepsAt xs f kf ff d.1 (f x c).1 (AllSubmitted-Frames x xs (f x) c (ff x) d.0 a.1)
          (kf x c s a.0))
  | inr (_, e) ↦ rw (e, continue) (kf x c s a.0)
]

-- What `get_all(SUBMITTED)` gives, of any part `d` of the dict.
abbrev InDict : Dict Request → ℕ → Type 0
InDict d id = (r : Request) × (lookup id d ≡ some r) × (r.state ≡ submitted)

InDict-cons :
    (k : ℕ) (v : Request) (d : Dict Request) (ids : List ℕ)
    → lookup k d ≡ none
    → All (InDict d) ids
    → All (InDict ((k, v) ∷ d)) ids × All (λ y. k ≢ y) ids
unfolding lookup
InDict-cons k v d [] e a = (tt, tt)
InDict-cons k v d (id ∷ ids) e ((r, found, h), a) =
    let rest = InDict-cons k v d ids e a in
    let ne : k ≢ id = λ same. cc in (((r, ground arith, h), rest.0), (ne, rest.1))

pub is_submitted-eq : (r : Request) → is_submitted r ≡ true → r.state ≡ submitted
is_submitted-eq r h = ground arith

pub submitted_ids_lem :
    (d : Dict Request)
    → IsUnique d
    → All (InDict d) (submitted_ids d) × IsDistinct (submitted_ids d)
unfolding submitted_ids
submitted_ids_lem [] u = (tt, tt)
submitted_ids_lem ((k, v) ∷ d) u =
    let (within, distinct) = submitted_ids_lem d u.1 in
    let (kept, apart) = InDict-cons k v d (submitted_ids d) u.0 within in
    elim (Bool-cases (is_submitted v)) [
      | inl yes_it_is ↦
          rw yes_it_is
            (((v, lookup-cons_self k v d, is_submitted-eq v yes_it_is), kept), (apart, distinct))
      | inr not_it ↦ rw not_it (kept, distinct)
    ]

pub bind-KeepsAt :
    {A : Type 0} (id : ℕ) (m : Exec Collection A) (f : A → Operation)
    → ((c : Collection) → IsSound c → IsSubmittedAt id c → IsSound (m c).1)
    → ((a : A) → KeepsSound (f a))
    → KeepsAt id (m >>= f)
bind-KeepsAt {A} id m f km kf c s at = go (m c).0 (m c).1 (km c s at)
  where
    go : (r : Result A) (c' : Collection) → IsSound c' → IsSound (continue r f c').1
    go (ok a) c' s' = kf a c' s'
    go (err e) c' s' = s'

pub skip-KeepsSound : KeepsSound (λ c. (ok tt, c))
skip-KeepsSound c s = s

pub catch-KeepsAt :
    (id : ℕ) (m : Operation) (h : Exception → Operation)
    → KeepsAt id m
    → ((e : Exception) → KeepsSound (h e))
    → KeepsAt id (catch m h)
catch-KeepsAt id m h km kh c s at = elim (Result-cases (m c).0) [
  | inl (a, e) ↦ rw (e, catch) (km c s at)
  | inr (x, e) ↦ rw (e, catch) (kh x (m c).1 (km c s at))
]

pub when-Frames : (id : ℕ) (b : Bool) (m : Operation) → Frames id m → Frames id (when b m)
when-Frames id true m k c j ne = k c j ne
when-Frames id false m k c j ne = refl

pub for_each-Frames {ℓ} :
    {A : Type ℓ} (id : ℕ) (xs : List A) (f : A → Operation)
    → ((a : A) → Frames id (f a))
    → Frames id (for_each xs f)
unfolding for_each
for_each-Frames id [] f k c j ne = refl
for_each-Frames id (x ∷ xs) f k c j ne =
    bind-Frames id (f x) (λ _. for_each xs f) (k x) (λ _. for_each-Frames id xs f k) c j ne

-- A first part that ends in a state that meets `P`, whether it returns or raises.
pub bind-IsSound :
    {A : Type 0} (P : Collection → Type 0) (m : Exec Collection A) (f : A → Operation)
    (c : Collection)
    → P (m c).1
    → ((c' : Collection) → P c' → IsSound c')
    → ((a : A) (c' : Collection) → P c' → IsSound (f a c').1)
    → IsSound ((m >>= f) c).1
bind-IsSound {A} P m f c p ends goes_on = go (m c).0 (m c).1 p
  where
    go : (r : Result A) (c' : Collection) → P c' → IsSound (continue r f c').1
    go (ok a) c' p' = goes_on a c' p'
    go (err e) c' p' = ends c' p'

-- A first part that leaves the requests alone.
pub unchanged-KeepsAt :
    {A : Type 0} (id : ℕ) (m : Exec Collection A) (f : A → Operation)
    → ((c : Collection) → (m c).1.by_request_id ≡ c.by_request_id)
    → ((a : A) → KeepsAt id (f a))
    → KeepsAt id (m >>= f)
unchanged-KeepsAt id m f same kf c s (r, found, h) =
    bind-IsSound (λ c'. IsSound c' × IsSubmittedAt id c') m f c
      (same_requests-IsSound c _ (same c) s, (r, rw (same c) found, h)) (λ c' p. p.0)
      (λ a c' p. kf a c' p.0 p.1)

pub update_index-KeepsAt_body :
    (id : ℕ) (body : Operation) → KeepsAt id body → KeepsAt id (update_index id body)
unfolding update_index
update_index-KeepsAt_body id body k =
    unchanged-KeepsAt id (request_of id) _ (λ c. rw request_of_unchanged)
      λ before. bind-KeepsAt id body _ k λ _.
        bind-KeepsSound (request_of id) _ (request_of-KeepsSound id)
          λ after c s. same_requests-IsSound c _ (reindex_requests id before.jid after.jid c) s
