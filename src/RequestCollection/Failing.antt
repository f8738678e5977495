-- ===== src/RequestCollection/Failing.antt =====
-- Losing a minion fails the submitted requests, and only those.
use mathlib.Core.Option
use calamari.Prelude.{
  ℕ, ◌≡◌, ◌≢◌, ◌∙◌, refl, true, false, Option, none, some, List, [], ◌∷◌, inl, inr, arith,
  Option-cases, elem, All, if◌then◌else◌,
}
use calamari.Prelude.Dict.{Dict, lookup, insert, erase, lookup-insert, lookup-erase}
use calamari.Exec.{ok}
use calamari.UserRequest.{Request, submitted, complete, lost_server, is_submitted, complete_request}
use calamari.RequestCollection.{
  Collection, for_each, on_request, reindex, update_index, submitted_ids, give_up, fail_all,
}
use calamari.RequestCollection.Local.{lookup-insert_self}
use calamari.RequestCollection.Sound.{IsSound}
use calamari.RequestCollection.Submitted.{IsDistinct, AllSubmitted, submitted_ids_lem}

-- Every running job leads to its request.
pub record IsIndexed (c : Collection) : Type 0 where
  pub indexed :
      (id j : ℕ) (r : Request)
      → lookup id c.by_request_id ≡ some r
      → r.jid ≡ some j
      → lookup j c.by_jid ≡ some id

-- The request has failed for want of the minion.
abbrev pub lose : ℕ → ℕ → Request → Request
lose t minion r = record r {
  error = true;
  error_message = lost_server minion;
  jid = none;
  state = complete;
  completed_at = some t;
}

abbrev pub drop : Option ℕ → Dict ℕ → Dict ℕ
drop none d = d
drop (some j) d = erase j d

-- A request without a job takes the place of `r`, and the job of `r` leaves the index.
abbrev pub retired : ℕ → (r r' : Request) → Collection → Collection
retired id r r' c = record c {
  by_request_id = insert id r' c.by_request_id;
  by_jid = drop r.jid c.by_jid;
}

pub retired-IsIndexed :
    (id : ℕ) (r r' : Request) (c : Collection)
    → IsIndexed c
    → lookup id c.by_request_id ≡ some r
    → r'.jid ≡ none
    → IsIndexed (retired id r r' c)
retired-IsIndexed id r r' c i found idle = record { indexed = λ k j q f g. go k j q f g }
  where
    go :
        (k j : ℕ) (q : Request)
        → lookup k (insert id r' c.by_request_id) ≡ some q
        → q.jid ≡ some j
        → lookup j (drop r.jid c.by_jid) ≡ some k
    go k j q f g = elim (Option-cases r.jid) [
      | inl e ↦ rw e (ground (arith, lookup-insert id k r' c.by_request_id, i.indexed k j q))
      | inr (j', e) ↦ rw e (
          ground (
            arith,
            lookup-insert id k r' c.by_request_id,
            lookup-erase j' j c.by_jid,
            i.indexed k j q,
            i.indexed id j' r found e,
          ))
    ]

module _ (t minion : ℕ) where
  give_up_eq :
      (id : ℕ) (r : Request) (c : Collection)
      → IsIndexed c
      → lookup id c.by_request_id ≡ some r
      → r.state ≡ submitted
      → give_up t minion id c ≡ (ok tt, retired id r (lose t minion r) c)
  unfolding give_up update_index on_request complete_request reindex
  give_up_eq id r c i found h = elim (Option-cases r.jid) [
    | inl e ↦ ground (arith, lookup-insert_self id (lose t minion r) c.by_request_id)
    | inr (j, e) ↦
        ground
          (arith, lookup-insert_self id (lose t minion r) c.by_request_id, i.indexed id j r found e)
  ]

  abbrev pub lose_if_submitted : Request → Request
  lose_if_submitted r = if is_submitted r then lose t minion r else r

  abbrev Lost : List ℕ → Collection → Collection → Type 0
  Lost ids c c' =
      (k : ℕ)
      → lookup k c'.by_request_id ≡ (
          if elem k ids
          then Option.map lose_if_submitted (lookup k c.by_request_id)
          else lookup k c.by_request_id)

  still_submitted :
      (id : ℕ) (r : Request) (ids : List ℕ) (c : Collection)
      → All (λ y. id ≢ y) ids
      → AllSubmitted ids c
      → AllSubmitted ids (retired id r (lose t minion r) c)
  still_submitted id r [] c d a = tt
  still_submitted id r (y ∷ ys) c d ((q, found, h), a) = (
    (q, ground (arith, lookup-insert id y (lose t minion r) c.by_request_id), h),
    still_submitted id r ys c d.1 a,
  )

  not_elem : (id : ℕ) (ids : List ℕ) → All (λ y. id ≢ y) ids → elem id ids ≡ false
  not_elem id [] d = refl
  not_elem id (y ∷ ys) d = ground (arith, not_elem id ys d.1)

  lose_all :
      (ids : List ℕ) (c : Collection)
      → IsDistinct ids
      → AllSubmitted ids c
      → IsIndexed c
      → ((for_each ids (give_up t minion) c).0 ≡ ok tt)
        × Lost ids c (for_each ids (give_up t minion) c).1
        × IsIndexed (for_each ids (give_up t minion) c).1
  unfolding for_each
  lose_all [] c d a i = (refl, λ k. refl, i)
  lose_all (id ∷ ids) c d ((r, found, h), a) i =
      let c' = retired id r (lose t minion r) c in
      let (fine, lost, indexed) =
        lose_all ids c' d.1 (still_submitted id r ids c d.0 a)
          (retired-IsIndexed id r (lose t minion r) c i found refl) in
      rw (give_up_eq id r c i found h) (
        fine,
        λ k. ground (
          arith,
          lost k,
          lookup-insert id k (lose t minion r) c.by_request_id,
          not_elem id ids d.0,
        ),
        indexed,
      )

  listed :
      (k : ℕ) (r : Request) (d : Dict Request)
      → lookup k d ≡ some r
      → is_submitted r ≡ true
      → elem k (submitted_ids d) ≡ true
  unfolding lookup submitted_ids
  listed k r [] e h = cc
  listed k r ((j, q) ∷ d) e h = ground (arith, listed k r d)

  lost_or_kept :
      (k : ℕ) (d : Dict Request)
      → (if elem k (submitted_ids d) then Option.map lose_if_submitted (lookup k d) else lookup k d)
        ≡ Option.map lose_if_submitted (lookup k d)
  lost_or_kept k d = elim (Option-cases (lookup k d)) [
    | inl e ↦ rw e (ground arith)
    | inr (r, e) ↦ rw e (ground (arith, listed k r d e))
  ]

  -- In a sound collection whose running jobs are indexed, `fail_all` returns; it completes each
  -- submitted request, of every cluster, with the error that the server of the given name was lost
  -- and without a job, and it leaves every other request as it was. The jobs that still run stay
  -- indexed.
  pub fail_all_lem :
      (c : Collection)
      → IsSound c
      → IsIndexed c
      → let (result, c') = fail_all t minion c in
        (result ≡ ok tt)
        × ((k : ℕ)
            → lookup k c'.by_request_id ≡ Option.map lose_if_submitted (lookup k c.by_request_id))
        × IsIndexed c'
  unfolding fail_all
  fail_all_lem c s i =
      let (at_hand, distinct) = submitted_ids_lem c.by_request_id s.unique in
      let (fine, lost, indexed) = lose_all (submitted_ids c.by_request_id) c distinct at_hand i in
      (fine, λ k. lost k ∙ lost_or_kept k c.by_request_id, indexed)
