-- ===== src/UserRequest/Rounds.antt =====
-- The whole life of a PgCreatingRequest against a cluster that does as it is asked.
use calamari.Prelude.{
  ℕ, zero, suc, ◌+◌, ◌-◌, ◌*◌, ◌<◌, ◌≤◌, min, ◌≡◌, ◌≢◌, refl, sym, ◌∙◌, Bool, true, false, Option,
  none, some, List, inl, inr, Bool-cases, [], ◌∷◌, arith, ◌==◌, if◌then◌else◌, String,
}
use calamari.Types.{osd_map, pg_summary, SyncObject, Command, Job, rados_commands, Salt}
use calamari.UserRequest.PgProgress.{is_complete, goal, set_created_pg_count}
use calamari.UserRequest.{
  jid_wait, submitted, complete, Class, PgCreation, pg_creating, set_pg_num, Running, complete_jid,
  on_map, is_completed,
}
use calamari.UserRequest.Growth.{
  returned, Obedient, in_phase, complete_jid_eq, on_osd_map_eq, on_pgs_more_eq, on_pgs_last_eq,
}

-- The number of placement groups that the running job asks for.
abbrev pub goal_of : Class → ℕ
goal_of (pg_creating commands p) = goal p.progress
goal_of _ = 0

module _ (salt : Salt) (t v : ℕ) (osds pgs : ℕ → SyncObject) where
  -- The running job ends, the OSD map comes, and then, unless that was all, the summary.
  pub cooperate : Running → Running
  cooperate w =
      let g = goal_of w.self.class in
      let w₁ = (complete_jid t (returned v) w).1 in
      let w₂ = (on_map salt t osd_map (osds g) w₁).1 in
      let w₃ = (on_map salt t pg_summary (pgs g) w₂).1 in if is_completed w₂.self then w₂ else w₃

  -- At most `n` such rounds, until the request is complete.
  pub rounds : ℕ → Running → Running
  rounds zero w = w
  rounds (suc n) w = let rest = rounds n (cooperate w) in if is_completed w.self then w else rest

-- What stays the same while a request grows its pool.
pub record Plan : Type 0 where
  pub minion : Option ℕ
  pub fsid : Option ℕ
  pub pool_id : ℕ
  pub name : String
  pub final : ℕ
  pub block : ℕ
  pub first : Command
  pub others : List Command

-- A submitted request whose job asks for `g` placement groups; `left` says whether it has seen all
-- of the final number.
pub record Growing (k : Plan) (g : ℕ) (left : Bool) (sent : List Job) (w : Running) : Type 0 where
  pub commands : List Command
  pub creation : PgCreation
  pub class : w.self.class ≡ pg_creating commands creation
  pub phase : creation.phase ≡ jid_wait
  pub open_ : w.self.state ≡ submitted
  pub fine : w.self.error ≡ false
  pub on_minion : w.self.minion_id ≡ k.minion
  pub in_cluster : w.self.fsid ≡ k.fsid
  pub of_pool : creation.pool_id ≡ k.pool_id
  pub of_name : creation.pool_name ≡ k.name
  pub post : creation.post_create_commands ≡ some (k.first ∷ k.others)
  pub to_final : creation.progress.final ≡ k.final
  pub by_block : creation.progress.block_size ≡ k.block
  pub at_goal : goal creation.progress ≡ g
  pub seen : is_complete creation.progress ≡ left
  pub jobs : w.sent ≡ sent

-- The request is complete and has not failed.
pub record Finished (sent : List Job) (w : Running) : Type 0 where
  pub done : w.self.state ≡ complete
  pub fine : w.self.error ≡ false
  pub idle : w.self.jid ≡ none
  pub jobs : w.sent ≡ sent

abbrev pub job : Plan → List Command → Job
job k cs = rados_commands k.minion k.fsid cs

abbrev pub next : Plan → ℕ → ℕ
next k g = min k.final (g + k.block)

-- The jobs sent from the goal `g` on, the newest first: one for each block, at most `n`, then the
-- other attributes.
abbrev pub planned : Plan → ℕ → ℕ → List Job → List Job
planned k zero g sent = job k (k.first ∷ k.others) ∷ sent
planned k (suc n) g sent =
    if g == k.final
    then job k (k.first ∷ k.others) ∷ sent
    else planned k n (next k g) (job k (set_pg_num k.name (next k g) ∷ []) ∷ sent)

module _ (salt : Salt) (t v : ℕ) (osds pgs : ℕ → SyncObject) (k : Plan)
    (obedient : Obedient k.pool_id v osds pgs) (positive : 0 < v)
    (answers : (s : List Job) (x : Job) → (j : ℕ) × (salt s x ≡ some j)) where
  module _ (g : ℕ) (sent : List Job) (w : Running) (h : Growing k g false sent w) where
    creating : PgCreation
    creating = h.creation

    ob : Obedient creating.pool_id v osds pgs
    unfolding creating
    ob = rw h.of_pool obedient

    abbrev asks : ℕ → List Command
    asks n = set_pg_num creating.pool_name n ∷ []

    abbrev next_goal : ℕ
    next_goal = min creating.progress.final (goal creating.progress + creating.progress.block_size)

    -- The request with a new job, in the phase `q`.
    abbrev onward : List Command → ℕ → PgCreation → Running
    onward cs j q =
        let r = w.self in
        record {
          self = record (in_phase salt t v r h.commands creating w.sent q) {
            alive_at = some t;
            jid = some j;
          };
          sent = rados_commands r.minion_id r.fsid cs ∷ w.sent;
        }

    abbrev more : PgCreation
    more = record creating {
      progress = record (set_created_pg_count (goal creating.progress) creating.progress) {
        intermediate_goal = next_goal;
      };
      phase = jid_wait;
    }

    abbrev last : PgCreation
    last = record creating {
      progress = set_created_pg_count (goal creating.progress) creating.progress;
      phase = jid_wait;
    }

    more_round_eq :
        (j : ℕ)
        → goal creating.progress ≢ creating.progress.final
        → salt w.sent (rados_commands w.self.minion_id w.self.fsid (asks next_goal)) ≡ some j
        → cooperate salt t v osds pgs w ≡ onward (asks next_goal) j more
    unfolding cooperate creating
    more_round_eq j ne answered =
        let p = h.creation in
        let r = w.self in
        ground (
          arith,
          h,
          complete_jid_eq salt t v r h.commands p w.sent h.class h.phase,
          on_osd_map_eq salt t v r h.commands p w.sent osds pgs ob positive h.open_,
          on_pgs_more_eq salt t v r h.commands p w.sent osds pgs ob positive h.open_ j ne answered,
        )

    last_round_eq :
        (j : ℕ)
        → goal creating.progress ≡ creating.progress.final
        → salt w.sent (rados_commands w.self.minion_id w.self.fsid (k.first ∷ k.others)) ≡ some j
        → cooperate salt t v osds pgs w ≡ onward (k.first ∷ k.others) j last
    unfolding cooperate creating
    last_round_eq j e answered =
        let p = h.creation in
        let r = w.self in
        ground (
          arith,
          h,
          complete_jid_eq salt t v r h.commands p w.sent h.class h.phase,
          on_osd_map_eq salt t v r h.commands p w.sent osds pgs ob positive h.open_,
          on_pgs_last_eq salt t v r h.commands p w.sent osds pgs ob positive h.open_ j k.first
              k.others e h.post answered,
        )

    goal_eq : goal creating.progress ≡ g
    unfolding creating
    goal_eq = h.at_goal

    final_eq : creating.progress.final ≡ k.final
    unfolding creating
    final_eq = h.to_final

    block_eq : creating.progress.block_size ≡ k.block
    unfolding creating
    block_eq = h.by_block

    next_eq : next_goal ≡ next k g
    next_eq = rw (final_eq, goal_eq, block_eq) refl

    name_eq : creating.pool_name ≡ k.name
    unfolding creating
    name_eq = h.of_name

    asked_eq :
        rados_commands w.self.minion_id w.self.fsid (asks next_goal) ∷ w.sent
        ≡ job k (set_pg_num k.name (next k g) ∷ []) ∷ sent
    asked_eq = rw (h.on_minion, h.in_cluster, h.jobs, name_eq, next_eq) refl

    to_go : g < k.final → goal creating.progress ≢ creating.progress.final
    to_go lt e = omega (arith, goal_eq, final_eq)

    asks_eq :
        (cs : List Command)
        → rados_commands w.self.minion_id w.self.fsid cs ∷ w.sent ≡ job k cs ∷ sent
    asks_eq cs = rw (h.on_minion, h.in_cluster, h.jobs) refl

    step_more :
        g < k.final
        → Growing k
            (next k g)
            false
            (job k (set_pg_num k.name (next k g) ∷ []) ∷ sent)
            (cooperate salt t v osds pgs w)
    unfolding creating
    step_more lt =
        let p = h.creation in
        let (j, answered) = answers w.sent _ in
        let e = more_round_eq j (to_go lt) answered in
        let left : (p.progress.final - goal p.progress == 0) ≡ false =
          ground (arith, goal_eq, final_eq, lt) in
        rw e (record {
          commands = h.commands;
          creation = more;
          class = refl;
          phase = refl;
          open_ = h.open_;
          fine = h.fine;
          on_minion = h.on_minion;
          in_cluster = h.in_cluster;
          of_pool = h.of_pool;
          of_name = h.of_name;
          post = h.post;
          to_final = h.to_final;
          by_block = h.by_block;
          at_goal = next_eq;
          seen = left;
          jobs = asked_eq;
        })

    step_last :
        g ≡ k.final
        → Growing k g true (job k (k.first ∷ k.others) ∷ sent) (cooperate salt t v osds pgs w)
    unfolding creating
    step_last last_one =
        let p = h.creation in
        let (j, answered) = answers w.sent _ in
        let e = last_round_eq j (goal_eq ∙ last_one ∙ sym final_eq) answered in
        let none_left : (p.progress.final - goal p.progress == 0) ≡ true =
          ground (arith, goal_eq, final_eq, last_one) in
        rw e (record {
          commands = h.commands;
          creation = last;
          class = refl;
          phase = refl;
          open_ = h.open_;
          fine = h.fine;
          on_minion = h.on_minion;
          in_cluster = h.in_cluster;
          of_pool = h.of_pool;
          of_name = h.of_name;
          post = h.post;
          to_final = h.to_final;
          by_block = h.by_block;
          at_goal = goal_eq;
          seen = none_left;
          jobs = asks_eq (k.first ∷ k.others);
        })

  step_done :
      (g : ℕ) (sent : List Job) (w : Running)
      → Growing k g true sent w
      → Finished sent (cooperate salt t v osds pgs w)
  unfolding cooperate
  step_done g sent w h =
      let p = h.creation in
      let ob : Obedient p.pool_id v osds pgs = rw h.of_pool obedient in
      ground (
        arith,
        h,
        complete_jid_eq salt t v w.self h.commands p w.sent h.class h.phase,
        on_osd_map_eq salt t v w.self h.commands p w.sent osds pgs ob positive h.open_,
      )

  is_open :
      (g : ℕ) (left : Bool) (sent : List Job) (w : Running)
      → Growing k g left sent w
      → is_completed w.self ≡ false
  is_open g left sent w h = rw h.open_ refl

  go_on :
      (n : ℕ) (w : Running)
      → is_completed w.self ≡ false
      → rounds salt t v osds pgs (suc n) w
        ≡ rounds salt t v osds pgs n (cooperate salt t v osds pgs w)
  unfolding rounds
  go_on n w e = rw e refl

  stay :
      (n : ℕ) (sent : List Job) (w : Running) → Finished sent w → rounds salt t v osds pgs n w ≡ w
  unfolding rounds
  stay zero sent w h = refl
  stay (suc n) sent w h = rw h.done refl

  -- The blocks are done: one round for the other attributes and one for the last OSD map.
  ends :
      (n g : ℕ) (sent : List Job) (w : Running)
      → Growing k g false sent w
      → g ≡ k.final
      → Finished (job k (k.first ∷ k.others) ∷ sent) (rounds salt t v osds pgs (suc (suc n)) w)
  ends n g sent w h e =
      let w₁ = cooperate salt t v osds pgs w in
      let h₁ = step_last g sent w h e in
      let h₂ = step_done g _ w₁ h₁ in
      rw
        (
          go_on (suc n) w (is_open g false sent w h),
          go_on n w₁ (is_open g true _ w₁ h₁),
          stay n _ (cooperate salt t v osds pgs w₁) h₂,
        )
        h₂

  pub grows :
      (n g : ℕ) (sent : List Job) (w : Running)
      → g ≤ k.final
      → k.final ≤ g + n * k.block
      → Growing k g false sent w
      → Finished (planned k n g sent) (rounds salt t v osds pgs (suc (suc n)) w)
  grows zero g sent w le enough h =
      let e : g ≡ k.final = omega (arith, le, enough) in ends zero g sent w h e
  grows (suc n) g sent w le enough h = elim (Bool-cases (g == k.final)) [
    | inl at_end ↦ let e : g ≡ k.final = ground arith in rw at_end (ends (suc n) g sent w h e)
    | inr on_way ↦
        let lt : g < k.final = ground arith in
        let h₁ = step_more g sent w h lt in
        let le₁ : next k g ≤ k.final = ground arith in
        let enough₁ : k.final ≤ next k g + n * k.block = ground arith in
        rw (go_on (suc (suc n)) w (is_open g false sent w h), on_way)
          (grows n (next k g) _ (cooperate salt t v osds pgs w) le₁ enough₁ h₁)
  ]
