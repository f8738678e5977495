-- ===== src/RequestCollection/Stale.antt =====
-- A job that ends with a Ceph error leaves its entry in the index of jobs behind, and the walltime
-- check then raises.
use calamari.Prelude.{
  ℕ, ◌+◌, ◌-◌, ◌<◌, ◌==◌, ltb, lt→ltb, is_empty, if◌then◌else◌, ◌≡◌, ◌≢◌, refl, String, Option,
  none, some, List, [], ◌∷◌, inl, inr, arith, Option-cases, true, false, Bool-cases, elem, add,
}
use calamari.Prelude.Dict.{Dict, lookup, insert, values}
use calamari.Exec.{Result, ok, err, Exec, ◌>>=◌, continue, Result-cases}
use calamari.Types.{Salt, Version}
use calamari.UserRequest.{Request, submitted, complete, remote, dict, complete_request}
use calamari.RequestCollection.{
  Collection, Operation, JobEvent, for_each, on_request, update_index, find_stale, expire, ping,
  tick, on_rados_error, rados_completion, on_rados_completion, on_return, on_completion,
}
use calamari.RequestCollection.Local.{lookup-insert_self}
use calamari.RequestCollection.Safety.{find_stale_unchanged}
use calamari.RequestCollection.Submitted.{Frames, update_index-Frames, on_request-Frames}

-- The index leads to a completed request, last heard of over a minute before `t`.
pub record IsStaleAt (t id : ℕ) (c : Collection) : Type 0 where
  pub request : Request
  pub found : lookup id c.by_request_id ≡ some request
  pub done : request.state ≡ complete
  pub heard_at : ℕ
  pub heard : request.alive_at ≡ some heard_at
  pub late : heard_at + 60 < t

elem-values : (j id : ℕ) (d : Dict ℕ) → lookup j d ≡ some id → elem id (values d) ≡ true
unfolding lookup
elem-values j id [] e = cc
elem-values j id ((k, v) ∷ d) e = ground (arith, elem-values j id d)

elem-add : (x id : ℕ) (l : List ℕ) → elem id l ≡ true → elem id (add x l) ≡ true
elem-add x id l e = ground arith

elem-add_self : (x : ℕ) (l : List ℕ) → elem x (add x l) ≡ true
elem-add_self x l = ground arith

not_ok :
    {A : Type 0} (m : Exec Collection A) (f : A → Operation) (c : Collection)
    → ((a : A) → (m c).0 ≢ ok a)
    → ((m >>= f) c).0 ≢ ok tt
not_ok m f c ne = elim (Result-cases (m c).0) [
  | inl (a, e) ↦ absurd (ne a e)
  | inr (x, e) ↦ rw (e, continue) (λ p. cc)
]

not_empty : (id : ℕ) (l : List ℕ) → elem id l ≡ true → is_empty l ≡ false
not_empty id [] e = cc
not_empty id (x ∷ l) e = refl

module _ (t id : ℕ) where
  -- What `find_stale` returns, if it returns.
  abbrev Holds : Result (List ℕ) → Type 0
  Holds (ok l) = elem id l ≡ true
  Holds (err x) = Unit

  find_stale-keeps :
      (ids stale : List ℕ) (c : Collection)
      → elem id stale ≡ true
      → Holds (find_stale t ids stale c).0
  unfolding find_stale
  find_stale-keeps [] stale c e = e
  find_stale-keeps (x ∷ ids) stale c e = elim (Option-cases (lookup x c.by_request_id)) [
    | inl none_there ↦ rw none_there tt
    | inr (r, there) ↦ rw there (elim (Option-cases r.alive_at) [
      | inl unheard ↦ rw unheard tt
      | inr (at, heard) ↦ rw heard (elim (Bool-cases (ltb 60 (t - at))) [
        | inl late ↦ rw late (find_stale-keeps ids (add x stale) c (elem-add x id stale e))
        | inr early ↦ rw early (find_stale-keeps ids stale c e)
      ])
    ])
  ]

  find_stale-finds :
      (ids stale : List ℕ) (c : Collection)
      → IsStaleAt t id c
      → elem id ids ≡ true
      → Holds (find_stale t ids stale c).0
  unfolding find_stale
  find_stale-finds [] stale c s e = cc
  find_stale-finds (x ∷ ids) stale c s e = elim (Bool-cases (x == id)) [
    | inl same ↦ here (ground arith)
    | inr other ↦ elim (Option-cases (lookup x c.by_request_id)) [
      | inl none_there ↦ rw none_there tt
      | inr (r, there) ↦ rw there (elim (Option-cases r.alive_at) [
        | inl unheard ↦ rw unheard tt
        | inr (at, heard) ↦ rw heard (
            find_stale-finds ids (if ltb 60 (t - at) then add x stale else stale) c s
              (ground arith))
      ])
    ]
  ]
    where
      here : x ≡ id → Holds (find_stale t (x ∷ ids) stale c).0
      here same =
          let late : ltb 60 (t - s.heard_at) ≡ true = lt→ltb _ _ (omega (arith, s.late)) in
          rw (same, s.found, s.heard, late)
            (find_stale-keeps ids (add id stale) c (elem-add_self id stale))

  expire-Frames : (x : ℕ) → Frames x (expire t x)
  unfolding expire
  expire-Frames x = update_index-Frames x _ (on_request-Frames x _)

  expire_raises : (c : Collection) → IsStaleAt t id c → (expire t id c).0 ≢ ok tt
  unfolding expire update_index on_request complete_request
  expire_raises c s = ground (arith, s.found, s.done)

  expire_all_raises :
      (stale : List ℕ) (c : Collection)
      → IsStaleAt t id c
      → elem id stale ≡ true
      → (for_each stale (expire t) c).0 ≢ ok tt
  unfolding for_each
  expire_all_raises [] c s e = cc
  expire_all_raises (x ∷ xs) c s e = elim (Bool-cases (x == id)) [
    | inl same ↦ not_ok (expire t x) _ c (λ _. here (ground arith))
    | inr other ↦ elim (Result-cases (expire t x c).0) [
      | inl (tt, e') ↦
          rw (e', continue)
            (expire_all_raises xs (expire t x c).1 (kept (ground arith)) (ground arith))
      | inr (err_x, e') ↦ rw (e', continue) (λ p. cc)
    ]
  ]
    where
      here : x ≡ id → (expire t x c).0 ≢ ok tt
      here same = rw same (expire_raises c s)

      kept : x ≢ id → IsStaleAt t id (expire t x c).1
      kept ne = record {
        request = s.request;
        found = rw (expire-Frames x c id ne) s.found;
        done = s.done;
        heard_at = s.heard_at;
        heard = s.heard;
        late = s.late;
      }

  -- Where the index of jobs leads to a completed request that was last heard of over a minute ago,
  -- `tick` does not return: it raises.
  pub tick_raises :
      (j : ℕ) (c : Collection)
      → lookup j c.by_jid ≡ some id
      → IsStaleAt t id c
      → (tick t c).0 ≢ ok tt
  unfolding tick
  tick_raises j c e s =
      let there = elem-values j id c.by_jid e in
      rw (not_empty id (values c.by_jid) there)
        (elim (Result-cases (find_stale t (values c.by_jid) [] c).0) [
          | inl (stale, f) ↦
              rw (f, continue, find_stale_unchanged)
                (not_ok (for_each stale (expire t)) (λ _. ping) c
                  (λ _.
                    expire_all_raises stale c s
                      (found_there stale f (find_stale-finds (values c.by_jid) [] c s there))))
          | inr (x, f) ↦ rw (f, continue) (λ p. cc)
        ])
    where
      found_there : {r : Result (List ℕ)} (l : List ℕ) → r ≡ ok l → Holds r → elem id l ≡ true
      found_there l f h = rw f at h

module _ (salt : Salt) (t : ℕ) (ev : JobEvent) (message : String) (id : ℕ) (r : Request)
    (c : Collection) where
  -- The job of a submitted request ended within Ceph with an error.
  pub record EndsWithError : Type 0 where
    pub known : lookup ev.jid c.by_jid ≡ some id
    pub found : lookup id c.by_request_id ≡ some r
    pub open_ : r.state ≡ submitted
    pub ran : ev.success ≡ true
    pub rados : ev.is_rados ≡ true
    pub returned :
        (version : Option Version) × (ev.return
          ≡ dict (record {
            error = some true;
            error_status = some message;
            osd_map_version = version;
          }))

  abbrev after_error : Result (Unit {0}) × Collection
  after_error = on_completion salt t ev c

  errored : Request
  errored = record r {
    jid = none;
    error = true;
    error_message = remote message;
    state = complete;
    completed_at = some t;
  }

  rados_error_eq :
      EndsWithError
      → (after_error.0 ≡ ok tt)
        × (lookup id after_error.1.by_request_id ≡ some errored)
        × (after_error.1.by_jid ≡ c.by_jid)
  unfolding on_completion on_return on_rados_completion rados_completion on_rados_error on_request
      complete_request errored
  rados_error_eq h =
      let cleared : Request = record r { jid = none } in
      let d = insert id cleared c.by_request_id in
      ground (
        arith,
        h.returned.1,
        lookup-insert_self id cleared c.by_request_id,
        lookup-insert_self id errored d,
      )

  -- When a job of a submitted request, known to the index, has ended within Ceph with an error,
  -- `on_completion` returns, but the index still leads from the job's id to the request. Over a
  -- minute after the job was last heard of, `tick` then raises.
  pub rados_error-tick_raises :
      (at t' : ℕ)
      → EndsWithError
      → r.alive_at ≡ some at
      → at + 60 < t'
      → (after_error.0 ≡ ok tt)
        × (lookup ev.jid after_error.1.by_jid ≡ some id)
        × ((tick t' after_error.1).0 ≢ ok tt)
  unfolding errored
  rados_error-tick_raises at t' h heard late =
      let (fine, found, same_index) = rados_error_eq h in
      let indexed : lookup ev.jid after_error.1.by_jid ≡ some id = rw same_index h.known in
      (
        fine,
        indexed,
        tick_raises t' id ev.jid after_error.1 indexed (record {
          request = errored;
          found = found;
          done = refl;
          heard_at = at;
          heard = heard;
          late = late;
        }),
      )
