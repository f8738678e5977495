-- ===== src/CephCluster/Recovery.antt =====
-- Placement groups whose OSDs are all up and in become active and clean by the passing of time.
use calamari.Prelude.{
  ℕ, zero, suc, ◌-◌, ◌*◌, ◌≤◌, ◌≡◌, refl, ◌∙◌, Bool, true, false, not, ◌&&◌, ◌||◌, Option-cases,
  none, some, List, [], ◌∷◌, if◌then◌else◌, arith, inl, inr, ap,
}
use calamari.Prelude.Dict.{Dict, lookup}
use calamari.Exec.{Result, ok}
use calamari.CephCluster.PgMonitor.{
  Words, Pg, Osd, Cluster, Credits, HealthStatus, health_ok, health_warn, same_words, all_clean,
  update_health, osds_by_id, ins, all, spends, spend, new_words, new_credits, place, visit,
  visit_all, pg_monitor, advance,
}

-- All these OSDs are known, up and in.
abbrev serve : Dict Osd → List ℕ → Bool
serve by_id [] = true
serve by_id (i ∷ is) = elim (lookup i by_id) [
  | none ↦ false
  | some o ↦ o.up && (o.is_in && serve by_id is)
]

abbrev is_served : Dict Osd → Pg → Bool
is_served by_id pg = elim pg.acting [ [] ↦ false | _ ∷ _ ↦ serve by_id pg.acting ]

abbrev pub all_served : Dict Osd → List Pg → Bool
all_served by_id [] = true
all_served by_id (pg ∷ pgs) = is_served by_id pg && all_served by_id pgs

-- The placement groups that are to be recovered, and those that are being created
abbrev pub remapped_in : List Pg → ℕ
remapped_in [] = 0
remapped_in (pg ∷ pgs) = let n = remapped_in pgs in if pg.state.remapped then suc n else n

abbrev pub creating_in : List Pg → ℕ
creating_in [] = 0
creating_in (pg ∷ pgs) = let n = creating_in pgs in if pg.state.creating then suc n else n

-- No state has the empty word.
abbrev pub all_named : List Pg → Bool
all_named [] = true
all_named (pg ∷ pgs) = not pg.state.empty_word && all_named pgs

serve-cons :
    (by_id : Dict Osd) (i : ℕ) (is : List ℕ)
    → serve by_id (i ∷ is) ≡ true
    → (o : Osd) × (lookup i by_id ≡ some o)
      × (o.up ≡ true)
      × (o.is_in ≡ true)
      × (serve by_id is ≡ true)
serve-cons by_id i is h = elim (Option-cases (lookup i by_id)) [
  | inl e ↦ absurd (ground (arith, rw (serve, e) at h))
  | inr (o, e) ↦
      let all_of : (o.up && (o.is_in && serve by_id is)) ≡ true = rw (serve, e) at h in
      (o, e, ground (arith, all_of), ground (arith, all_of), ground (arith, all_of))
]

ins-serve :
    (by_id : Dict Osd) (acting : List ℕ)
    → serve by_id acting ≡ true
    → (bs : List Bool) × (ins by_id acting ≡ some bs) × (all bs ≡ true)
unfolding ins
ins-serve by_id [] h = ([], refl, refl)
ins-serve by_id (i ∷ is) h =
    let (o, e, up, is_in, rest) = serve-cons by_id i is h in
    let (bs, eq, a) = ins-serve by_id is rest in (true ∷ bs, rw (ins, e, eq, is_in) refl, a)

-- The words of a placement group that was visited, of which all OSDs are up and in
abbrev settled : Words → Credits → Words
settled w credits = record {
  active = true;
  clean = not w.remapped;
  creating = w.creating && not (spends credits.creation w.creating);
  remapped = w.remapped && not (spends credits.recovery w.remapped);
  stale = false;
  empty_word = w.empty_word;
}

abbrev left : Words → Credits → Credits
left w credits = record {
  recovery = spend credits.recovery w.remapped;
  creation = spend credits.creation w.creating;
}

abbrev settle : Pg → Credits → Pg
settle pg credits = record pg { state = settled pg.state credits }

module _ (hash : ℕ × ℕ → ℕ → ℕ) (osds : List Osd) (by_id : Dict Osd) where
  words-eq :
      (pg : Pg) (o : Osd) (bs : List Bool) (credits : Credits)
      → o.up ≡ true
      → o.is_in ≡ true
      → all bs ≡ true
      → ◌≡◌ {A = Pg × Credits}
          (
            record pg { state = new_words pg.state o (true ∷ bs) (true ∷ bs) credits },
            new_credits pg.state (true ∷ bs) credits,
          )
          (settle pg credits, left pg.state credits)
  unfolding new_words new_credits
  words-eq pg o bs credits up is_in a = ground (arith, up, is_in, a)

  visit-cons :
      (pgid : ℕ × ℕ) (w : Words) (up : List ℕ) (p : ℕ) (rest : List ℕ) (credits : Credits)
      → serve by_id (p ∷ rest) ≡ true
      → let pg : Pg = record { pgid = pgid; state = w; up = up; acting = p ∷ rest } in
        visit hash osds by_id pg credits ≡ ok (settle pg credits, left w credits)
  unfolding visit place new_words new_credits ins
  visit-cons pgid w up p rest credits h =
      let (o, e, is_up, is_in, s) = serve-cons by_id p rest h in
      let (bs, eq, a) = ins-serve by_id rest s in
      let pg : Pg = record { pgid = pgid; state = w; up = up; acting = p ∷ rest } in
      let seen : ins by_id (p ∷ rest) ≡ some (true ∷ bs) = rw (ins, e, eq, is_in) refl in
      let kept : place hash osds pg (true ∷ bs) ≡ ok (up, p ∷ rest) = rw (place, a) refl in
      rw (visit, e, seen, kept, seen)
        (ap {B = Result (Pg × Credits)} ok (words-eq pg o bs credits is_up is_in a))

  visit-served :
      (pg : Pg) (credits : Credits)
      → is_served by_id pg ≡ true
      → visit hash osds by_id pg credits ≡ ok (settle pg credits, left pg.state credits)
  visit-served pg credits h = go pg.acting refl h
    where
      go :
          (acting : List ℕ)
          → pg.acting ≡ acting
          → is_served by_id (record pg { acting = acting }) ≡ true
          → visit hash osds by_id (record pg { acting = acting }) credits
            ≡ ok (settle (record pg { acting = acting }) credits, left pg.state credits)
      go [] e s = absurd (ground (arith, s))
      go (p ∷ rest) e s = visit-cons pg.pgid pg.state pg.up p rest credits s

  visit_all-cons :
      (pg : Pg) (pgs after : List Pg) (credits : Credits) (changes : Bool)
      → is_served by_id pg ≡ true
      → visit_all hash osds by_id pgs (left pg.state credits) ≡ (ok changes, after)
      → visit_all hash osds by_id (pg ∷ pgs) credits ≡ (
        ok (not (same_words pg.state (settled pg.state credits)) || changes),
        settle pg credits ∷ after,
      )
  unfolding visit_all
  visit_all-cons pg pgs after credits changes h e =
      let r : (visit_all hash osds by_id pgs (left pg.state credits)).0 ≡ ok changes =
        ap {B = Result Bool} (λ (x : Result Bool × List Pg). x.0) e in
      let l : (visit_all hash osds by_id pgs (left pg.state credits)).1 ≡ after =
        ap {B = List Pg} (λ (x : Result Bool × List Pg). x.1) e in
      rw (visit_all, visit-served pg credits h, r, l) refl

  visit_all-served :
      (pgs : List Pg) (credits : Credits)
      → all_served by_id pgs ≡ true
      → (changes : Bool) × (after : List Pg) × (visit_all hash osds by_id pgs credits
          ≡ (ok changes, after))
        × (all_served by_id after ≡ true)
        × (all_named after ≡ all_named pgs)
        × (remapped_in after ≡ remapped_in pgs - credits.recovery)
        × (creating_in after ≡ creating_in pgs - credits.creation)
        × (all_named pgs ≡ true
            → remapped_in pgs ≡ 0
            → creating_in pgs ≤ credits.creation
            → all_clean after ≡ true)
  unfolding visit_all all_clean
  visit_all-served [] credits h =
      (false, [], refl, refl, refl, ground arith, ground arith, λ n a b. refl)
  visit_all-served (pg ∷ pgs) credits h =
      let (changes, after, e, s, m, r, c, f) =
        visit_all-served pgs (left pg.state credits) (ground (arith, h)) in
      (
        not (same_words pg.state (settled pg.state credits)) || changes,
        settle pg credits ∷ after,
        visit_all-cons pg pgs after credits changes (ground (arith, h)) e,
        ground (arith, s, h),
        ground (arith, m),
        ground (arith, r),
        ground (arith, c),
        λ named none_remapped few. ground (arith, named, none_remapped, few, f),
      )

-- `advance(t)` as often as the number says
abbrev pub advances : (ℕ × ℕ → ℕ → ℕ) → ℕ → ℕ → Cluster → Cluster
advances hash zero t c = c
advances hash (suc n) t c = advances hash n t (advance hash t c).1

unfoldable pub by_id_of : Cluster → Dict Osd
unfolding osds_by_id
by_id_of c = osds_by_id c.osds []

module _ (hash : ℕ × ℕ → ℕ → ℕ) where
  update_health_lem :
      (c : Cluster)
      → ((update_health c).osds ≡ c.osds)
        × ((update_health c).pg_brief ≡ c.pg_brief)
        × ((update_health c).overall_status
            ≡ (if all_clean c.pg_brief then health_ok else health_warn))
  unfolding update_health
  update_health_lem c = ground arith

  pg_monitor-visit_all :
      (r t : ℕ) (c : Cluster) (changes : Bool) (after : List Pg)
      → visit_all hash c.osds (by_id_of c) c.pg_brief (record { recovery = r; creation = t })
        ≡ (ok changes, after)
      → ((pg_monitor hash r t c).0 ≡ ok tt)
        × ((pg_monitor hash r t c).1.osds ≡ c.osds)
        × ((pg_monitor hash r t c).1.pg_brief ≡ after)
  unfolding pg_monitor update_health by_id_of
  pg_monitor-visit_all r t c changes after e =
      let credits : Credits = record { recovery = r; creation = t } in
      let first : (visit_all hash c.osds (osds_by_id c.osds []) c.pg_brief credits).0 ≡ ok changes =
        ap {B = Result Bool} (λ (x : Result Bool × List Pg). x.0) e in
      let list : (visit_all hash c.osds (osds_by_id c.osds []) c.pg_brief credits).1 ≡ after =
        ap {B = List Pg} (λ (x : Result Bool × List Pg). x.1) e in
      ground (arith, first, list)

  advance-visit_all :
      (t : ℕ) (c : Cluster) (changes : Bool) (after : List Pg)
      → visit_all hash c.osds
          (by_id_of c)
          c.pg_brief
          (record { recovery = t * 1; creation = t * 10 })
        ≡ (ok changes, after)
      → ((advance hash t c).1.osds ≡ c.osds)
        × ((advance hash t c).1.pg_brief ≡ after)
        × ((advance hash t c).1.overall_status
            ≡ (if all_clean after then health_ok else health_warn))
  unfolding advance
  advance-visit_all t c changes after e =
      let (returned, osds, pgs) = pg_monitor-visit_all (t * 1) (t * 10) c changes after e in
      let (same_osds, same_pgs, status) =
        update_health_lem (pg_monitor hash (t * 1) (t * 10) c).1 in
      rw (returned) (
        same_osds ∙ osds,
        same_pgs ∙ pgs,
        status
            ∙ ap {B = HealthStatus}
                (λ (l : List Pg). if all_clean l then health_ok else health_warn) pgs,
      )

  advance-served :
      (t : ℕ) (c : Cluster)
      → all_served (by_id_of c) c.pg_brief ≡ true
      → let c' : Cluster = (advance hash t c).1 in
        (all_served (by_id_of c') c'.pg_brief ≡ true)
        × (all_named c'.pg_brief ≡ all_named c.pg_brief)
        × (remapped_in c'.pg_brief ≡ remapped_in c.pg_brief - t * 1)
        × (creating_in c'.pg_brief ≡ creating_in c.pg_brief - t * 10)
        × (all_named c.pg_brief ≡ true
            → remapped_in c.pg_brief ≡ 0
            → creating_in c.pg_brief ≤ t * 10
            → c'.overall_status ≡ health_ok)
  unfolding by_id_of
  advance-served t c served =
      let (changes, after, e, s, m, r, k, f) =
        visit_all-served hash c.osds (by_id_of c) c.pg_brief
          (record { recovery = t * 1; creation = t * 10 }) served in
      let (osds, pgs, status) = advance-visit_all t c changes after e in
      rw (osds, pgs)
        (s, m, r, k, λ named none_remapped few. rw (f named none_remapped few) at status)

  -- Where the placement groups' OSDs are known, up and in, and no placement group's state is the empty
  -- text or has the empty word: the health is OK once time has passed as often as there are placement
  -- groups to recover, for ten at most that are being created each time, and once more.
  pub advances-health_ok :
      (n t : ℕ) (c : Cluster)
      → 1 ≤ t
      → all_served (by_id_of c) c.pg_brief ≡ true
      → all_named c.pg_brief ≡ true
      → remapped_in c.pg_brief ≤ n
      → creating_in c.pg_brief ≤ 10 * suc n
      → (advances hash (suc n) t c).overall_status ≡ health_ok
  advances-health_ok zero t c at_least served named few new =
      (advance-served t c served).4 named (omega arith) (omega arith)
  advances-health_ok (suc n) t c at_least served named few new =
      let (s, m, r, k, f) = advance-served t c served in
      advances-health_ok n t (advance hash t c).1 at_least s (m ∙ named) (omega (arith, r))
        (omega (arith, k))
