-- ===== src/ClusterMonitor/Favorite.antt =====
-- Which minion the monitor listens to.
use mathlib.Core.Option
use calamari.Prelude.{
  ℕ, ◌-◌, ◌*◌, ◌≡◌, refl, Bool, true, false, Option, none, some, inl, inr, arith, Option-cases,
  Bool-cases, ltb, ◌==◌, if◌then◌else◌,
}
use calamari.Prelude.Dict.{lookup, insert, lookup-insert}
use calamari.Exec.{ok}
use calamari.Types.{Salt}
use calamari.RequestCollection.{same_jid, fail_all}
use calamari.RequestCollection.Sound.{IsSound}
use calamari.RequestCollection.Failing.{IsIndexed, lose_if_submitted, fail_all_lem}
use calamari.ClusterMonitor.{Monitor, set_favorite, reconsider, choose, is_favorite}

-- The favorite has sent a heartbeat.
abbrev pub IsKnown : Monitor → Type 0
IsKnown m = (f : ℕ) → m.favorite_mon ≡ some f → (at : ℕ) × (lookup f m.last_heartbeat ≡ some at)

module _ (salt : Salt) (contact_period : ℕ → ℕ) (factor t minion : ℕ) (m : Monitor) where
  -- Whether a heartbeat of the minion makes it the favorite: there is none, or the favorite is
  -- another and its last heartbeat is too long ago.
  abbrev pub takes_over : Option ℕ → Option ℕ → Bool
  takes_over none last = true
  takes_over (some f) none = false
  takes_over (some f) (some at) =
      if minion == f then false else ltb (contact_period f * factor) (t - at)

  abbrev pub last_of : Option ℕ → Option ℕ
  last_of none = none
  last_of (some f) = lookup f m.last_heartbeat

  abbrev pub promoted : Bool
  promoted = takes_over m.favorite_mon (last_of m.favorite_mon)

  set_favorite_eq :
      (q : Monitor)
      → same_jid (some minion) q.favorite_mon ≡ false
      → (fail_all t minion q.requests).0 ≡ ok tt
      → set_favorite t minion q ≡ (
        ok tt,
        record q { requests = (fail_all t minion q.requests).1; favorite_mon = some minion },
      )
  unfolding set_favorite
  set_favorite_eq q other fine = ground arith

  abbrev pub heard : Monitor
  heard = record m { last_heartbeat = insert minion t m.last_heartbeat }

  is_favorite_eq :
      IsKnown m
      → (fail_all t minion m.requests).0 ≡ ok tt
      → is_favorite salt contact_period factor t minion m ≡ (
          if promoted
          then (
            ok true,
            record heard {
              requests = (fail_all t minion m.requests).1;
              favorite_mon = some minion;
            },
          )
          else (ok (same_jid (some minion) m.favorite_mon), heard))
  unfolding is_favorite choose reconsider
  is_favorite_eq known fine = elim (Option-cases m.favorite_mon) [
    | inl e ↦ ground (arith, set_favorite_eq heard, fine)
    | inr (f, e) ↦
        let (at, g) = known f e in
        ground (arith, g, set_favorite_eq heard, fine, lookup-insert minion f t m.last_heartbeat)
  ]

  pub heard-IsKnown : IsKnown m → IsKnown heard
  heard-IsKnown known f e =
      let (at, g) = known f e in
      elim (Bool-cases (minion == f)) [
        | inl same ↦ (t, ground (arith, lookup-insert minion f t m.last_heartbeat))
        | inr other ↦ (at, ground (arith, g, lookup-insert minion f t m.last_heartbeat))
      ]

  -- Where the favorite has sent a heartbeat, the requests are sound and their running jobs are
  -- indexed, a heartbeat of a minion makes it the favorite exactly if there is no favorite or the
  -- favorite is another that has been silent for longer than its contact period times the factor.
  -- `is_favorite` then returns whether the minion is the favorite. If it has become it, every
  -- submitted request, of every cluster, is failed as lost with the new favorite's server; otherwise
  -- the requests stay as they are. The favorite has sent a heartbeat afterwards too.
  pub is_favorite_lem :
      IsKnown m
      → IsSound m.requests
      → IsIndexed m.requests
      → let (result, m') = is_favorite salt contact_period factor t minion m in
        (m'.favorite_mon ≡ (if promoted then some minion else m.favorite_mon))
        × (result ≡ ok (same_jid (some minion) m'.favorite_mon))
        × ((k : ℕ)
            → lookup k m'.requests.by_request_id ≡ (
                if promoted
                then Option.map (lose_if_submitted t minion) (lookup k m.requests.by_request_id)
                else lookup k m.requests.by_request_id))
        × IsKnown m'
  is_favorite_lem known s i =
      let (fine, lost, indexed) = fail_all_lem t minion m.requests s i in
      rw (is_favorite_eq known fine) (elim (Bool-cases promoted) [
        | inl e ↦ rw e (
          refl,
          ground arith,
          lost,
          λ f g. (t, ground (arith, lookup-insert minion f t m.last_heartbeat)),
        )
        | inr e ↦ rw e (refl, refl, λ k. refl, heard-IsKnown known)
      ])
