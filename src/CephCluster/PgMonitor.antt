-- ===== src/CephCluster/PgMonitor.antt =====
-- The cluster's objects, `_pg_monitor`, `_update_health`, `advance`. The state of a placement group
-- is the set of its words: the text joins them sorted, so equal sets are equal texts. `''.split('+')` is
-- `['']`: the empty text is the set of the empty word, which no code discards. Python's hash
-- of a placement group's id and a number is a parameter.
use calamari.Prelude.{
  ℕ, zero, suc, ◌+◌, ◌-◌, ◌*◌, ◌%◌, Bool, true, false, not, ◌&&◌, ◌||◌, Option, none, some, List,
  [], ◌∷◌, ◌==◌, if◌then◌else◌, ltb, length, keep, map,
}
use calamari.Prelude.Int.{ℤ}
use calamari.Prelude.Dict.{Dict, lookup, insert}
use calamari.Exec.{Result, ok, err, Exec, ◌>>◌, modify, index_error, key_error, zero_division_error}

pub record Words : Type 0 where
  pub active : Bool
  pub clean : Bool
  pub creating : Bool
  pub remapped : Bool
  pub stale : Bool
  pub empty_word : Bool

pub record Pg : Type 0 where
  pub pgid : ℕ × ℕ
  pub state : Words
  pub up : List ℕ
  pub acting : List ℕ

pub record Osd : Type 0 where
  pub osd : ℕ
  pub up : Bool
  pub is_in : Bool

pub record Pool : Type 0 where
  pub pool : ℕ
  pub pool_name : ℕ
  pub size : ℕ
  pub pg_num : ℕ
  pub pg_placement_num : ℕ
  -- the other items, by their keys
  pub others : Dict ℕ

-- A CRUSH bucket, and a node of the tree
pub record Bucket : Type 0 where
  pub id : ℤ
  pub name : ℕ
  pub items : List ℤ
  pub type_name : ℕ

pub record Node : Type 0 where
  pub id : ℤ
  pub name : ℕ
  pub children : List ℤ
  pub node_type : ℕ
  pub reweight : Option ℕ

pub data HealthStatus : Type 0 where
  health_ok health_warn : HealthStatus

-- `self._objects` and the next id of a CRUSH node; `summary` tells whether the health names unclean
-- placement groups.
pub record Cluster : Type 0 where
  pub osds : List Osd
  pub pools : List Pool
  pub flags : ℕ
  pub nodes : List Node
  pub buckets : List Bucket
  pub epoch : ℕ
  pub pg_brief : List Pg
  pub pg_version : ℕ
  pub overall_status : HealthStatus
  pub has_summary : Bool
  pub max_split_count : ℕ
  pub crush_node_id : ℤ

abbrev pub Step : Type 0 → Type 0
Step A = Exec Cluster A

-- `pg['state'] != 'active+clean'`
abbrev pub is_active_clean : Words → Bool
is_active_clean w =
    w.active
    && (w.clean && (not w.creating && (not w.remapped && (not w.stale && not w.empty_word))))

abbrev pub same_bool : Bool → Bool → Bool
same_bool true b = b
same_bool false b = not b

abbrev pub same_words : Words → Words → Bool
same_words v w =
    same_bool v.active w.active
    && (same_bool v.clean w.clean
        && (same_bool v.creating w.creating
            && (same_bool v.remapped w.remapped
                && (same_bool v.stale w.stale && same_bool v.empty_word w.empty_word))))

-- `all([pg['state'] == 'active+clean' …])`
unfoldable pub all_clean : List Pg → Bool
all_clean [] = true
all_clean (pg ∷ pgs) = is_active_clean pg.state && all_clean pgs

unfoldable pub update_health : Cluster → Cluster
update_health c =
    if all_clean c.pg_brief
    then record c { overall_status = health_ok }
    else record c { overall_status = health_warn; has_summary = true }

-- `osds = dict([(osd['osd'], osd) for osd in …])`
unfoldable pub osds_by_id : List Osd → Dict Osd → Dict Osd
osds_by_id [] d = d
osds_by_id (o ∷ os) d = osds_by_id os (insert o.osd o d)

-- `[osds[i]['in'] for i in acting]`, where `none` is a KeyError
unfoldable pub ins : Dict Osd → List ℕ → Option (List Bool)
ins osds [] = some []
ins osds (i ∷ acting) = elim (lookup i osds) [
  | none ↦ none
  | some o ↦ elim (ins osds acting) [ none ↦ none | some bs ↦ some (o.is_in ∷ bs) ]
]

abbrev pub any : List Bool → Bool
any [] = false
any (b ∷ bs) = b || any bs

abbrev pub all : List Bool → Bool
all [] = true
all (b ∷ bs) = b && all bs

abbrev pub nth : List ℕ → ℕ → ℕ
nth [] n = 0
nth (x ∷ xs) zero = x
nth (x ∷ xs) (suc n) = nth xs n

abbrev pub in_osds : List Osd → List ℕ
in_osds osds = map (λ o. o.osd) (keep (λ o. o.is_in) osds)

module _ (hash : ℕ × ℕ → ℕ → ℕ) where
  -- `pseudorandom_subset`: the elements at `hash(selector + str(i)) % len(possible_values)`
  unfoldable pub pseudorandom_subset : List ℕ → ℕ → ℕ × ℕ → Result (List ℕ)
  pseudorandom_subset possible n_select selector = elim possible [
    | [] ↦ if n_select == 0 then ok [] else err zero_division_error
    | _ ∷ _ ↦ ok (go 0 n_select)
  ]
    where
      go : ℕ → ℕ → List ℕ
      go i zero = []
      go i (suc n) = nth possible (hash selector i % length possible) ∷ go (suc i) n

-- What the loop carries from one placement group to the next
pub record Credits : Type 0 where
  pub recovery : ℕ
  pub creation : ℕ

-- `if credits > 0 and word in states: states.discard(word); credits -= 1`
abbrev pub spends : ℕ → Bool → Bool
spends credits word = ltb 0 credits && word

abbrev pub spend : ℕ → Bool → ℕ
spend credits word = if spends credits word then credits - 1 else credits

-- The set that the joined text is split into: a set without a word gives the empty text, and so the
-- empty word.
abbrev pub joined : Words → Words
joined w =
    let some_word = w.active || (w.clean || (w.creating || (w.remapped || w.stale))) in
    record w { empty_word = w.empty_word || not some_word }

-- The words once the OSDs are known: `before` are the OSDs of the old set, `after` of the new one.
unfoldable pub new_words : Words → Osd → List Bool → List Bool → Credits → Words
new_words w primary before after credits =
    let remapped : Bool = w.remapped || not (all before) in
    joined (record {
      active = any before;
      clean = all after && not remapped;
      creating = w.creating && not (spends credits.creation w.creating);
      remapped = remapped && not (spends credits.recovery remapped);
      stale = primary.is_in && not primary.up;
      empty_word = w.empty_word;
    })

unfoldable pub new_credits : Words → List Bool → Credits → Credits
new_credits w before credits = record {
  recovery = spend credits.recovery (w.remapped || not (all before));
  creation = spend credits.creation w.creating;
}

module _ (hash : ℕ × ℕ → ℕ → ℕ) where
  -- The OSDs that a placement group is mapped to: new ones where one of its own is out
  unfoldable pub place : List Osd → Pg → List Bool → Result (List ℕ × List ℕ)
  unfolding pseudorandom_subset
  place osds pg before =
      if all before
      then ok (pg.up, pg.acting)
      else elim (pseudorandom_subset hash (in_osds osds) 2 pg.pgid) [
        | err e ↦ err e
        | ok ids ↦ ok (ids, ids)
      ]

  unfoldable pub visit : List Osd → Dict Osd → Pg → Credits → Result (Pg × Credits)
  unfolding place ins new_words new_credits
  visit osds by_id pg credits = elim pg.acting [
    | [] ↦ err index_error
    | primary_id ∷ _ ↦ elim (lookup primary_id by_id) [
      | none ↦ err key_error
      | some primary ↦ elim (ins by_id pg.acting) [
        | none ↦ err key_error
        | some before ↦ elim (place osds pg before) [
          | err e ↦ err e
          | ok (up, acting) ↦ elim (ins by_id acting) [
            | none ↦ err key_error
            | some after ↦ ok (
              record {
                pgid = pg.pgid;
                state = new_words pg.state primary before after credits;
                up = up;
                acting = acting;
              },
              new_credits pg.state before credits,
            )
          ]
        ]
      ]
    ]
  ]

  -- The loop: the placement groups after it and whether a state changed; what was visited before a
  -- raise stays changed.
  unfoldable pub visit_all : List Osd → Dict Osd → List Pg → Credits → Result Bool × List Pg
  unfolding visit
  visit_all osds by_id [] credits = (ok false, [])
  visit_all osds by_id (pg ∷ pgs) credits = elim (visit osds by_id pg credits) [
    | err e ↦ (err e, pg ∷ pgs)
    | ok (pg', credits') ↦
        let (r, pgs') = visit_all osds by_id pgs credits' in
        elim r [
          | err e ↦ (err e, pg' ∷ pgs')
          | ok changes ↦ (ok (not (same_words pg.state pg'.state) || changes), pg' ∷ pgs')
        ]
  ]

  unfoldable pub pg_monitor : (recovery_credits creation_credits : ℕ) → Step (Unit {0})
  unfolding visit_all osds_by_id update_health
  pg_monitor recovery_credits creation_credits c =
      let (r, pgs) =
        visit_all c.osds (osds_by_id c.osds []) c.pg_brief
          (record { recovery = recovery_credits; creation = creation_credits }) in
      elim r [
        | err e ↦ (err e, record c { pg_brief = pgs })
        | ok false ↦ (ok tt, record c { pg_brief = pgs })
        | ok true ↦
            (ok tt, update_health (record c { pg_brief = pgs; pg_version = c.pg_version + 1 }))
      ]

  unfoldable pub advance : ℕ → Step (Unit {0})
  unfolding pg_monitor update_health
  advance t = do pg_monitor (t * 1) (t * 10); modify update_health
