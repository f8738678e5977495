-- ===== src/RequestCollection/Jobs.antt =====
-- The end of a job: `on_completion` keeps the collection sound.
use calamari.Prelude.{
  ℕ, ◌≡◌, ◌⊎◌, refl, true, Option, none, some, List, [], ◌∷◌, inl, inr, arith, Option-cases,
  Bool-cases, is_empty, not, ◌&&◌, ◌||◌,
}
use calamari.Prelude.Dict.{lookup}
use calamari.Exec.{
  Exception, ◌>>=◌, ◌>>◌, when, require, gets, or_raise, assertion_error, key_error,
}
use calamari.Types.{SyncType, osd_map, pg_summary, Version, Salt, truthy, cmp, is_nonnegative}
use calamari.UserRequest.{
  Request, submitted, is_submitted, JobReturn, Running, awaiting_versions, complete_jid,
  complete_request, on_map,
}
use calamari.UserRequest.Lifecycle.{on_map-Keeps}
use calamari.RequestCollection.{
  Collection, Operation, JobEvent, for_each, request_of, on_request, update_index, same_jid,
  abandon, request_version, give_available, chase_versions, finish_job, error_of, rados_completion,
  on_rados_completion, on_return, on_completion,
}
use calamari.RequestCollection.Local.{outcome, on_request_requests, lookup-insert_self}
use calamari.RequestCollection.Sound.{
  IsSound, KeepsSound, bind-KeepsSound, if-KeepsSound, request_of_unchanged, on_request-KeepsSound,
}
use calamari.RequestCollection.Submitted.{
  KeepsAt, on_request-KeepsAt, bind-KeepsAt, skip-KeepsSound, catch-KeepsAt, is_submitted-eq,
  bind-IsSound, unchanged-KeepsAt, update_index-KeepsAt_body,
}
use calamari.RequestCollection.Safety.{
  abandon-KeepsSound, report-KeepsSound, on_rados_error-KeepsSound, on_salt_failure-KeepsSound,
  complete_return-KeepsSound, complete_jid-KeepsGood,
}
use calamari.RequestCollection.Maps.{FewAwaited, awaiting_versions_few}

is_empty-eq {ℓ} : {A : Type ℓ} (l : List A) → is_empty l ≡ true → l ≡ []
is_empty-eq [] h = refl
is_empty-eq (x ∷ l) h = cc

or_cases :
    (r : Request)
    → (is_submitted r || is_empty (awaiting_versions r)) ≡ true
    → (r.state ≡ submitted) ⊎ (awaiting_versions r ≡ [])
or_cases r h = elim (Bool-cases (is_submitted r)) [
  | inl e ↦ inl (is_submitted-eq r e)
  | inr e ↦ inr (is_empty-eq _ (ground arith))
]

module _ (salt : Salt) (t : ℕ) where
  request_version_unchanged :
      (minion fsid : ℕ) (a : SyncType × Version) (c : Collection)
      → (request_version salt t minion fsid a c).1.by_request_id ≡ c.by_request_id
  unfolding request_version
  request_version_unchanged minion fsid (typ, none) c = refl
  request_version_unchanged minion fsid (typ, some v) c = ground arith

  request_versions_unchanged :
      (minion fsid : ℕ) (l : List (SyncType × Version)) (c : Collection)
      → (for_each l (request_version salt t minion fsid) c).1.by_request_id ≡ c.by_request_id
  unfolding for_each
  request_versions_unchanged minion fsid [] c = refl
  request_versions_unchanged minion fsid (a ∷ l) c =
      let c' = (request_version salt t minion fsid a c).1 in
      ground (
        arith,
        request_version_unchanged minion fsid a c,
        request_versions_unchanged minion fsid l c',
      )

  give_available-KeepsAt :
      (fsid id : ℕ) (a : SyncType × Version) → KeepsAt id (give_available salt t fsid id a)
  unfolding give_available
  give_available-KeepsAt fsid id (typ, want) c s at = elim (Option-cases (lookup fsid c.clusters)) [
    | inl e ↦ rw (e, give_available) s
    | inr (maps, e) ↦
        let so = maps.objects typ in
        rw (e, give_available)
          (elim (Bool-cases (truthy want && is_nonnegative (cmp typ so.version want))) [
            | inl there ↦
                rw there
                  (on_request-KeepsAt id (on_map salt t typ so) (on_map-Keeps salt t typ so) c s at)
            | inr missing ↦ rw missing s
          ])
  ]

  -- A version that is not given is not handed over.
  give_none-KeepsSound :
      (fsid id : ℕ) (typ : SyncType) → KeepsSound (give_available salt t fsid id (typ, none))
  unfolding give_available
  give_none-KeepsSound fsid id typ c s = elim (Option-cases (lookup fsid c.clusters)) [
    | inl e ↦ rw (e, give_available) s
    | inr (maps, e) ↦ rw (e, give_available) s
  ]

  give_all-KeepsAt :
      (fsid id : ℕ) (l : List (SyncType × Version))
      → FewAwaited l
      → KeepsAt id (for_each l (give_available salt t fsid id))
  unfolding for_each
  give_all-KeepsAt fsid id l (inl e) c s at = rw e s
  give_all-KeepsAt fsid id l (inr (inl (a, e))) c s at = rw e (
      bind-KeepsAt id (give_available salt t fsid id a) _ (give_available-KeepsAt fsid id a)
        (λ _. skip-KeepsSound) c s at)
  give_all-KeepsAt fsid id l (inr (inr e)) c s at = rw e (
      bind-KeepsSound (give_available salt t fsid id (pg_summary, none)) _
        (give_none-KeepsSound fsid id pg_summary)
        (λ _.
          bind-KeepsSound (give_available salt t fsid id (osd_map, none)) _
            (give_none-KeepsSound fsid id osd_map) (λ _. skip-KeepsSound))
        c s)

  or_raise_unchanged :
      {A : Type 0} (x : Exception) (o : Option A) (c : Collection)
      → (or_raise x o c).1.by_request_id ≡ c.by_request_id
  or_raise_unchanged x none c = refl
  or_raise_unchanged x (some a) c = refl

  chase_versions-KeepsAt : (minion id : ℕ) → KeepsAt id (chase_versions salt t minion id)
  unfolding chase_versions
  chase_versions-KeepsAt minion id =
      unchanged-KeepsAt id (request_of id) _ (λ c. rw request_of_unchanged)
        λ r.
          unchanged-KeepsAt id (or_raise assertion_error r.fsid) _
            (or_raise_unchanged assertion_error r.fsid)
            λ fsid.
              unchanged-KeepsAt id (gets (λ c. lookup fsid c.clusters) >>= or_raise key_error) _
                (λ c. or_raise_unchanged key_error (lookup fsid c.clusters) c)
                λ _.
                  unchanged-KeepsAt id
                    (for_each (awaiting_versions r) (request_version salt t minion fsid)) _
                    (request_versions_unchanged minion fsid (awaiting_versions r))
                    λ _.
                      unchanged-KeepsAt id (request_of id) _ (λ c. rw request_of_unchanged)
                        λ r'.
                          give_all-KeepsAt fsid id (awaiting_versions r') (awaiting_versions_few r')

  complete_jid_test :
      (r : JobReturn) (w : Running)
      → w.self.state ≡ submitted
      → let r' = (complete_jid t r w).1.self in
        (is_submitted r' || is_empty (awaiting_versions r')) ≡ true
  unfolding complete_jid awaiting_versions complete_request
  complete_jid_test r w h = ground arith

  -- What `complete_jid` leaves of a submitted request is still submitted, or awaits nothing.
  complete_jid_awaits :
      (r : JobReturn) (w : Running)
      → w.self.state ≡ submitted
      → let r' = (complete_jid t r w).1.self in (r'.state ≡ submitted) ⊎ (awaiting_versions r' ≡ [])
  complete_jid_awaits r w h = or_cases _ (complete_jid_test r w h)

  abbrev Done : ℕ → Collection → Type 0
  Done id c =
      IsSound c
      × ((r : Request) × (lookup id c.by_request_id ≡ some r)
          × ((r.state ≡ submitted) ⊎ (awaiting_versions r ≡ [])))

  abbrev after_job : ℕ → ℕ → Option ℕ → Operation
  after_job minion id jid = do
    after ← request_of id
    require (not (same_jid after.jid jid)) assertion_error
    when (not (is_empty (awaiting_versions after))) (chase_versions salt t minion id)

  after_job-IsSound :
      (minion id : ℕ) (jid : Option ℕ) (c : Collection)
      → Done id c
      → IsSound (after_job minion id jid c).1
  after_job-IsSound minion id jid c (s, (r, found, d)) =
      rw found (elim (Bool-cases (not (same_jid r.jid jid))) [
        | inl e ↦ rw e (elim d [
          | inl h ↦ elim (Bool-cases (not (is_empty (awaiting_versions r)))) [
            | inl e' ↦ rw e' (chase_versions-KeepsAt minion id c s (r, found, h))
            | inr e' ↦ rw e' s
          ]
          | inr none_awaited ↦ rw none_awaited s
        ])
        | inr e ↦ rw e s
      ])

  finish_job-KeepsAt :
      (minion id : ℕ) (return : JobReturn) → KeepsAt id (finish_job salt t minion id return)
  unfolding finish_job
  finish_job-KeepsAt minion id return =
      unchanged-KeepsAt id (request_of id) _ (λ c. rw request_of_unchanged)
        (λ before c s (r, found, h).
          bind-IsSound (Done id) (on_request id (complete_jid t return)) _ c
            (
              on_request-KeepsSound id _ (complete_jid-KeepsGood id t return) c s,
              (
                outcome (complete_jid t return) r c,
                rw (on_request_requests id (complete_jid t return) r c found)
                    (lookup-insert_self _ _ _),
                complete_jid_awaits return (record { self = r; sent = c.sent }) h,
              ),
            )
            (λ c' d. d.0) (λ _ c' d. after_job-IsSound minion id before.jid c' d))

  error_of_unchanged :
      (r : JobReturn) (c : Collection) → (error_of r c).1.by_request_id ≡ c.by_request_id
  error_of_unchanged r c = ground arith

  rados_completion-KeepsAt :
      (minion id : ℕ) (return : JobReturn) → KeepsAt id (rados_completion salt t minion id return)
  unfolding rados_completion
  rados_completion-KeepsAt minion id return =
      unchanged-KeepsAt id (error_of return) _ (error_of_unchanged return) (λ is_error c s at.
        elim (Bool-cases is_error) [
          | inl e ↦ rw e (on_rados_error-KeepsSound salt t id return c s)
          | inr e ↦ rw e (
              catch-KeepsAt id (update_index id (finish_job salt t minion id return)) (abandon t id)
                (update_index-KeepsAt_body id _ (finish_job-KeepsAt minion id return))
                (abandon-KeepsSound t id) c s at)
        ])

  on_rados_completion-KeepsSound :
      (minion id : ℕ) (return : JobReturn)
      → KeepsSound (on_rados_completion salt t minion id return)
  unfolding on_rados_completion
  on_rados_completion-KeepsSound minion id return c s =
      elim (Option-cases (lookup id c.by_request_id)) [
        | inl e ↦ rw e s
        | inr (r, e) ↦ rw e (elim (Bool-cases (is_submitted r)) [
          | inl h ↦ rw h (rados_completion-KeepsAt minion id return c s (r, e, is_submitted-eq r h))
          | inr h ↦ rw h s
        ])
      ]

  on_return-KeepsSound : (ev : JobEvent) (id : ℕ) → KeepsSound (on_return salt t ev id)
  unfolding on_return
  on_return-KeepsSound ev id =
      if-KeepsSound (not ev.success) _ _ (on_salt_failure-KeepsSound salt t id ev.return) (
        if-KeepsSound ev.is_rados _ _ (on_rados_completion-KeepsSound ev.minion id ev.return)
          (complete_return-KeepsSound t id ev.return))

  pub on_completion-KeepsSound : (ev : JobEvent) → KeepsSound (on_completion salt t ev)
  unfolding on_completion
  on_completion-KeepsSound ev c s = elim (Option-cases (lookup ev.jid c.by_jid)) [
    | inl e ↦ rw (e, on_completion) s
    | inr (id, e) ↦
        rw (e, on_completion)
          (bind-KeepsSound (on_return salt t ev id) _ (on_return-KeepsSound ev id)
            (λ _. report-KeepsSound id) c s)
  ]
