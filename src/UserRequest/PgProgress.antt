-- ===== src/UserRequest/PgProgress.antt =====
-- `class PgProgress`: the state with which a PgCreatingRequest splits up the creation of placement
-- groups into blocks. The counts are numbers of placement groups; only what is still to be created
-- may be negative, before the first report, where the pool is to shrink.
use calamari.Prelude.{ℕ, ◌+◌, ◌-◌, min, max, Bool, ◌==◌, if◌then◌else◌}
use calamari.Prelude.Int.{ℤ, pos, sub_ℕ, ◌-ℤ◌, is_zero}
use calamari.Exec.{Result, ok, err, assertion_error}

pub record PgProgress : Type 0 where
  pub initial : ℕ
  pub final : ℕ
  pub block_size : ℕ
  pub still_to_create : ℤ
  pub intermediate_goal : ℕ

abbrev pub is_final_block : PgProgress → Bool
is_final_block p = p.intermediate_goal == p.final

unfoldable pub advance_goal : PgProgress → Result PgProgress
advance_goal p =
    if is_final_block p
    then err assertion_error
    else ok (record p { intermediate_goal = min p.final (p.intermediate_goal + p.block_size) })

-- `PgProgress(initial, final, block_size)`
unfoldable pub new_progress : ℕ → ℕ → ℕ → Result PgProgress
unfolding advance_goal
new_progress initial final block_size = advance_goal (record {
  initial = initial;
  final = final;
  block_size = block_size;
  still_to_create = sub_ℕ final initial;
  intermediate_goal = initial;
})

-- `max(self.final - pg_count, 0)`
abbrev pub set_created_pg_count : ℕ → PgProgress → PgProgress
set_created_pg_count pg_count p = record p { still_to_create = pos (p.final - pg_count) }

-- What the two status lines say: how many are created, of how many, and the block under way.
pub data ProgressStatus : Type 0 where
  creating_block : (created total : ℤ) (from to : ℕ) → ProgressStatus
  creating_last : (created total : ℤ) → ProgressStatus

unfoldable pub get_status : PgProgress → ProgressStatus
get_status p =
    let total = sub_ℕ p.final p.initial in
    let created = total -ℤ p.still_to_create in
    if is_final_block p
    then creating_last created total
    else (creating_block created total (max (p.intermediate_goal - p.block_size) p.initial)
        p.intermediate_goal)

abbrev pub expected_count : PgProgress → ℕ
expected_count p = p.intermediate_goal

abbrev pub is_complete : PgProgress → Bool
is_complete p = is_zero p.still_to_create

abbrev pub goal : PgProgress → ℕ
goal p = p.intermediate_goal
