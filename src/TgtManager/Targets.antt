-- ===== src/TgtManager/Targets.antt =====
-- TgtManager: `create_target`, `remove_target_by_iqn`, `remove_target_by_id`, the look-ups, and
-- PoolManager's look-ups of LUNs.
use calamari.Prelude.{
  ℕ, ◌+◌, Bool, true, false, Option, none, some, List, [], ◌∷◌, ◌++◌, ◌==◌, if◌then◌else◌, keep,
  max, is_empty,
}
use calamari.Exec.{ok, pure, raise, ◌>>=◌, ◌>>◌, modify, require, or_raise, plain_exception}
use calamari.TgtManager.Conf.{
  Env, Lun, TargetConf, TgtConf, execute, delete_target, Io, load_conf, save_conf, call, try_call,
  sync_to_system_conf,
}

abbrev pub has_iqn : ℕ → TargetConf → Bool
has_iqn iqn t = t.iqn == iqn

abbrev pub has_id : ℕ → TargetConf → Bool
has_id id t = t.id == id

-- The first target that passes, `list.remove` of it, and an assignment to its place
unfoldable pub find_target : (TargetConf → Bool) → List TargetConf → Option TargetConf
find_target test [] = none
find_target test (t ∷ ts) = if test t then some t else find_target test ts

unfoldable pub remove_target : (TargetConf → Bool) → List TargetConf → List TargetConf
remove_target test [] = []
remove_target test (t ∷ ts) = let rest = remove_target test ts in if test t then ts else t ∷ rest

unfoldable pub replace_target : (TargetConf → Bool) → TargetConf → List TargetConf → List TargetConf
replace_target test new [] = []
replace_target test new (t ∷ ts) =
    let rest = replace_target test new ts in if test t then new ∷ ts else t ∷ rest

abbrev pub with_targets : List TargetConf → TgtConf → TgtConf
with_targets targets conf = record conf { target_list = targets }

-- `_get_target_conf`
unfoldable pub get_target_conf : Env → ℕ → Io TargetConf
unfolding load_conf find_target
get_target_conf env iqn = do
  conf ← load_conf env
  or_raise plain_exception (find_target (has_iqn iqn) conf.target_list)

-- `generate_id`: `max` in its tests is Python's function, which is larger than every number, so no id
-- is too large.
unfoldable pub generate_id : List ℕ → ℕ
generate_id [] = 1
generate_id (id ∷ ids) = elim ids [ [] ↦ id + 1 | _ ∷ _ ↦ max (id + 1) (generate_id ids) ]

abbrev pub new_target : ℕ → ℕ → TargetConf
new_target id iqn = record {
  id = id;
  iqn = iqn;
  initiator_addr_list = [];
  initiator_name_list = [];
  incominguser_list = [];
  outgoinguser_list = [];
  lun_list = [];
}

abbrev pub ids_of : List TargetConf → List ℕ
ids_of [] = []
ids_of (t ∷ ts) = t.id ∷ ids_of ts

module _ (env : Env) where
  unfoldable pub store_conf : TgtConf → Io (Unit {0})
  unfolding save_conf call
  store_conf conf = do save_conf conf; sync_to_system_conf env conf

  -- `_set_target_conf`
  unfoldable pub set_target_conf : ℕ → TargetConf → Io (Unit {0})
  unfolding load_conf find_target replace_target store_conf
  set_target_conf iqn new = do
    conf ← load_conf env
    or_raise plain_exception (find_target (has_iqn iqn) conf.target_list)
    store_conf (with_targets (replace_target (has_iqn iqn) new conf.target_list) conf)

  -- The name is stripped by the validation, and the given one is looked for.
  unfoldable pub create_target : ℕ → Io (Unit {0})
  unfolding load_conf find_target generate_id store_conf try_call
  create_target iqn = do
    conf ← load_conf env
    require (is_none (find_target (has_iqn iqn) conf.target_list)) plain_exception
    store_conf (
        with_targets
          (conf.target_list
            ++ new_target (generate_id (ids_of conf.target_list)) (env.strip iqn) ∷ [])
          conf)
    try_call env execute
    where
      is_none : Option TargetConf → Bool
      is_none none = true
      is_none (some t) = false

  -- What `remove_target_by_iqn` and `remove_target_by_id` do with the target that they find
  unfoldable pub remove_by : (TargetConf → Bool) → Io (Unit {0})
  unfolding load_conf find_target remove_target store_conf try_call
  remove_by test = do
    conf ← load_conf env
    t ← or_raise plain_exception (find_target test conf.target_list)
    require (is_empty t.lun_list) plain_exception
    store_conf (with_targets (remove_target test conf.target_list) conf)
    try_call env (delete_target t.iqn)

  abbrev pub remove_target_by_iqn : ℕ → Io (Unit {0})
  remove_target_by_iqn iqn = remove_by (has_iqn iqn)

  abbrev pub remove_target_by_id : ℕ → Io (Unit {0})
  remove_target_by_id id = remove_by (has_id id)

  -- `sync_to_system_conf`, which does nothing where there is no file, and `system_restore_cb`
  unfoldable pub sync : Io (Unit {0})
  unfolding load_conf call
  sync s = elim s.file [
    | none ↦ (ok tt, s)
    | some _ ↦ (do conf ← load_conf env; sync_to_system_conf env conf) s
  ]

  unfoldable pub system_restore : Io (Unit {0})
  unfolding load_conf call
  system_restore s = elim s.file [
    | none ↦ (ok tt, s)
    | some _ ↦
        (do
          modify (λ s'. record s' { file = none })
          conf ← load_conf env
          sync_to_system_conf env conf)
          s
  ]

unfoldable pub get_target_by_iqn : Env → ℕ → Io TargetConf
unfolding get_target_conf
get_target_by_iqn env iqn = get_target_conf env iqn

unfoldable pub get_target_by_id : Env → ℕ → Io TargetConf
unfolding load_conf find_target
get_target_by_id env id = do
  conf ← load_conf env
  or_raise plain_exception (find_target (has_id id) conf.target_list)

-- `get_target_iqn_list` returns what it loaded, not the list that it made.
unfoldable pub get_target_iqn_list : Env → Io TgtConf
unfolding load_conf
get_target_iqn_list env = load_conf env

-- PoolManager
abbrev pub all_luns : List TargetConf → List Lun
all_luns [] = []
all_luns (t ∷ ts) = t.lun_list ++ all_luns ts

unfoldable pub get_lun_by_pool : Env → ℕ → Io (List Lun)
unfolding load_conf
get_lun_by_pool env pool = do
  conf ← load_conf env
  luns ← pure (keep (λ (l : Lun). l.pool == pool) (all_luns conf.target_list))
  elim (is_empty luns) [ true ↦ raise plain_exception | false ↦ pure luns ]

unfoldable pub get_lun_by_pool_and_num : Env → ℕ → ℕ → Io Lun
unfolding get_lun_by_pool
get_lun_by_pool_and_num env pool lun_num = do
  by_pool_luns ← get_lun_by_pool env pool
  elim (keep (λ (l : Lun). l.lun == lun_num) by_pool_luns) [
    | [] ↦ raise plain_exception
    | lun ∷ others ↦ elim others [ [] ↦ pure lun | _ ∷ _ ↦ raise plain_exception ]
  ]
