-- ===== src/RequestCollection/Maps.antt =====
-- A new cluster map, and the end of a job: these run a request's own `on_map`.
use calamari.Prelude.{
  ℕ, ◌≡◌, ◌⊎◌, ◌&&◌, not, refl, false, none, List, [], ◌∷◌, inl, inr, Bool-cases,
}
use calamari.Exec.{Exception, catch}
use calamari.Types.{SyncType, osd_map, pg_summary, same_type, Version, SyncObject, Salt, truthy}
use calamari.SyncObjects.Versions.{same_type_eq}
use calamari.UserRequest.{
  Phase, jid_wait, osd_map_wait, pg_map_wait, Request, is_completed, Class, rados, salt_request,
  osd_map_modifying, pool_creating, pg_creating, awaiting_versions, awaiting_of, on_map,
}
use calamari.UserRequest.Lifecycle.{on_map-Keeps}
use calamari.RequestCollection.{
  Operation, for_each, request_of, on_request, update_index, submitted_ids, abandon, deliver,
  deliver_awaited, notify, on_map_all, completion_event,
}
use calamari.RequestCollection.Sound.{KeepsSound}
use calamari.RequestCollection.Submitted.{
  KeepsAt, Frames, unchanged-Frames, update_index-KeepsAt, bind-KeepsAt, skip-KeepsSound,
  catch-KeepsAt, for_each-Frames, when-Frames, bind-Frames, request_of-Frames, on_request-Frames,
  update_index-Frames, catch-Frames, for_each-KeepsAt, submitted_ids_lem,
}
use calamari.RequestCollection.Safety.{abandon-KeepsSound, report-KeepsSound}

-- A request awaits nothing, one map, or a summary and an OSD map of any version.
abbrev pub FewAwaited : List (SyncType × Version) → Type 0
FewAwaited l =
    (l ≡ [])
    ⊎ ((a : SyncType × Version) × (l ≡ a ∷ []))
    ⊎ (l ≡ (pg_summary, none) ∷ (osd_map, none) ∷ [])

awaiting_of_few : (r : Request) (k : Class) → FewAwaited (awaiting_of r k)
awaiting_of_few r (rados commands) = inl refl
awaiting_of_few r (salt_request cmd args) = inl refl
awaiting_of_few r (osd_map_modifying commands) =
    elim (Bool-cases (truthy r.await_version && not (is_completed r))) [
      | inl e ↦ rw e (inr (inl ((osd_map, r.await_version), refl)))
      | inr e ↦ rw e (inl refl)
    ]
awaiting_of_few r (pool_creating commands p) = elim (Bool-cases p.awaiting_pgs) [
  | inl e ↦ rw e (inr (inl ((pg_summary, none), refl)))
  | inr e ↦ rw e (elim (Bool-cases (truthy r.await_version)) [
    | inl e' ↦ rw e' (inr (inl ((osd_map, r.await_version), refl)))
    | inr e' ↦ rw e' (inl refl)
  ])
]
awaiting_of_few r (pg_creating commands p) = phase_few p.phase
  where
    phase_few :
        (q : Phase) → FewAwaited (awaiting_of r (pg_creating commands (record p { phase = q })))
    phase_few jid_wait = inl refl
    phase_few osd_map_wait = inr (inl ((osd_map, r.await_version), refl))
    phase_few pg_map_wait = inr (inr refl)

pub awaiting_versions_few : (r : Request) → FewAwaited (awaiting_versions r)
unfolding awaiting_versions
awaiting_versions_few r = awaiting_of_few r r.class

abandon-Frames : (t id : ℕ) (e : Exception) → Frames id (abandon t id e)
unfolding abandon
abandon-Frames t id e = on_request-Frames id _

osd_map_other : {s : SyncType} → pg_summary ≡ s → same_type osd_map s ≡ false
unfolding same_type
osd_map_other e = rw (← e)

module _ (salt : Salt) (t : ℕ) (sync_type : SyncType) (so : SyncObject) (id : ℕ) where
  abbrev hand_over : Operation
  hand_over = update_index id (on_request id (on_map salt t sync_type so))

  hand_over-KeepsAt : KeepsAt id hand_over
  hand_over-KeepsAt =
      update_index-KeepsAt id (on_map salt t sync_type so) (on_map-Keeps salt t sync_type so)

  hand_over-Frames : Frames id hand_over
  hand_over-Frames = update_index-Frames id _ (on_request-Frames id _)

  deliver-KeepsAt :
      (awaiting : List (SyncType × Version))
      → FewAwaited awaiting
      → KeepsAt id (deliver salt t sync_type so id awaiting)
  unfolding deliver for_each
  deliver-KeepsAt awaiting (inl e) c s at = rw e s
  deliver-KeepsAt awaiting (inr (inl (a, e))) c s at =
      rw e (elim (Bool-cases (same_type a.0 sync_type)) [
        | inl same ↦
            rw same (bind-KeepsAt id hand_over _ hand_over-KeepsAt (λ _. skip-KeepsSound) c s at)
        | inr other ↦ rw other s
      ])
  deliver-KeepsAt awaiting (inr (inr e)) c s at =
      rw e (elim (Bool-cases (same_type pg_summary sync_type)) [
        | inl same ↦
            rw (same, osd_map_other (same_type_eq pg_summary sync_type same))
              (bind-KeepsAt id hand_over _ hand_over-KeepsAt (λ _. skip-KeepsSound) c s at)
        | inr other ↦ rw other (elim (Bool-cases (same_type osd_map sync_type)) [
          | inl same ↦
              rw same (bind-KeepsAt id hand_over _ hand_over-KeepsAt (λ _. skip-KeepsSound) c s at)
          | inr other' ↦ rw other' s
        ])
      ])

  deliver_awaited-KeepsAt : KeepsAt id (deliver_awaited salt t sync_type so id)
  unfolding deliver_awaited
  deliver_awaited-KeepsAt c s (r, found, h) =
      rw found (deliver-KeepsAt (awaiting_versions r) (awaiting_versions_few r) c s (r, found, h))

  notify-KeepsAt : KeepsAt id (notify salt t sync_type so id)
  unfolding notify
  notify-KeepsAt =
      bind-KeepsAt id (catch (deliver_awaited salt t sync_type so id) (abandon t id)) _
        (catch-KeepsAt id (deliver_awaited salt t sync_type so id) (abandon t id)
          deliver_awaited-KeepsAt (abandon-KeepsSound t id))
        (λ _. report-KeepsSound id)

  deliver-Frames :
      (awaiting : List (SyncType × Version)) → Frames id (deliver salt t sync_type so id awaiting)
  unfolding deliver
  deliver-Frames awaiting =
      for_each-Frames id awaiting _
        (λ a. when-Frames id (same_type a.0 sync_type) hand_over hand_over-Frames)

  notify-Frames : Frames id (notify salt t sync_type so id)
  unfolding notify deliver_awaited
  notify-Frames =
      bind-Frames id (catch (deliver_awaited salt t sync_type so id) (abandon t id)) _
        (catch-Frames id (deliver_awaited salt t sync_type so id) (abandon t id)
          (bind-Frames id (request_of id) _ (request_of-Frames id id)
            (λ r. deliver-Frames (awaiting_versions r)))
          (abandon-Frames t id))
        (λ _. bind-Frames id (request_of id) _ (request_of-Frames id id) (λ r.
          when-Frames id (is_completed r) (completion_event r)
            (unchanged-Frames id (completion_event r) (λ c. refl))))

module _ (salt : Salt) (t : ℕ) where
  pub on_map_all-KeepsSound :
      (fsid : ℕ) (sync_type : SyncType) (so : SyncObject)
      → KeepsSound (on_map_all salt t fsid sync_type so)
  unfolding on_map_all
  on_map_all-KeepsSound fsid sync_type so c s =
      let (submitted, distinct) = submitted_ids_lem c.by_request_id s.unique in
      for_each-KeepsAt (submitted_ids c.by_request_id) (notify salt t sync_type so)
        (notify-KeepsAt salt t sync_type so) (notify-Frames salt t sync_type so) distinct c
        submitted s
