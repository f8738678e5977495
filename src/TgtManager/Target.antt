-- ===== src/TgtManager/Target.antt =====
-- The methods of Target. Each loads its target's part of the configuration, changes it, stores it
-- and tells the minions.
use calamari.Prelude.{
  ℕ, Bool, true, false, ◌&&◌, ◌||◌, Option, none, some, List, [], ◌∷◌, ◌++◌, ◌==◌, if◌then◌else◌,
  elem, map,
}
use calamari.Exec.{pure, raise, ◌>>=◌, ◌>>◌, require, or_raise, plain_exception}
use calamari.TgtManager.Conf.{
  Env, Lun, User, TargetConf, update_target, delete_target, offline, ready, Io, load_conf, call,
  try_call,
}
use calamari.TgtManager.Targets.{has_iqn, find_target, get_target_conf, set_target_conf}

-- `found = None; for i in list: if i == x: found = i`, then `list.remove(found)`
abbrev pub remove_one : ℕ → List ℕ → List ℕ
remove_one x [] = []
remove_one x (y ∷ ys) = let rest = remove_one x ys in if y == x then ys else y ∷ rest

-- The user's last entry, and `list.remove` of an equal one
abbrev pub find_user : ℕ → List User → Option User
find_user name [] = none
find_user name (u ∷ us) = elim (find_user name us) [
  | some v ↦ some v
  | none ↦ if u.name == name then some u else none
]

abbrev pub remove_user : User → List User → List User
remove_user u [] = []
remove_user u (v ∷ vs) =
    let rest = remove_user u vs in
    if v.name == u.name && v.password == u.password then vs else v ∷ rest

-- Every entry of the name is replaced; a new name is appended.
abbrev pub replace_users : ℕ → User → List User → List User
replace_users name new [] = []
replace_users name new (u ∷ us) =
    let rest = replace_users name new us in if u.name == name then new ∷ rest else u ∷ rest

abbrev pub has_user : ℕ → List User → Bool
has_user name [] = false
has_user name (u ∷ us) = u.name == name || has_user name us

abbrev pub set_user : ℕ → User → List User → List User
set_user name new users =
    if has_user name users then replace_users name new users else users ++ new ∷ []

-- The names that `get_incominguser_list` and `get_outgoinguser_list` return
abbrev pub user_names : Env → List User → List ℕ
user_names env users = map (λ (u : User). env.strip u.name) users

module _ (env : Env) where
  unfoldable pub change_target : ℕ → (TargetConf → Io TargetConf) → Io (Unit {0})
  unfolding get_target_conf set_target_conf try_call
  change_target iqn change = do
    conf ← get_target_conf env iqn
    new ← change conf
    set_target_conf env iqn new
    try_call env (update_target iqn)

  unfoldable pub set_initiator_addr_list : ℕ → List ℕ → Io (Unit {0})
  unfolding change_target
  set_initiator_addr_list iqn addrs =
      change_target iqn (λ t. pure (record t { initiator_addr_list = addrs }))

  unfoldable pub del_initiator_addr : ℕ → ℕ → Io (Unit {0})
  unfolding change_target
  del_initiator_addr iqn ip = change_target iqn (λ t. do
    require (elem ip t.initiator_addr_list) plain_exception
    pure (record t { initiator_addr_list = remove_one ip t.initiator_addr_list }))

  unfoldable pub set_initiator_name_list : ℕ → List ℕ → Io (Unit {0})
  unfolding change_target
  set_initiator_name_list iqn names =
      change_target iqn (λ t. pure (record t { initiator_name_list = names }))

  unfoldable pub del_initiator_name : ℕ → ℕ → Io (Unit {0})
  unfolding change_target
  del_initiator_name iqn name = change_target iqn (λ t. do
    require (elem name t.initiator_name_list) plain_exception
    pure (record t { initiator_name_list = remove_one name t.initiator_name_list }))

  unfoldable pub set_incominguser : ℕ → ℕ → ℕ → Io (Unit {0})
  unfolding change_target
  set_incominguser iqn name passwd = change_target iqn (λ t. pure (record t {
    incominguser_list =
        set_user name (record { name = env.strip name; password = env.strip passwd })
          t.incominguser_list;
  }))

  unfoldable pub del_incominguser : ℕ → ℕ → Io (Unit {0})
  unfolding change_target
  del_incominguser iqn name = change_target iqn (λ t. do
    found ← or_raise plain_exception (find_user name t.incominguser_list)
    pure (record t { incominguser_list = remove_user found t.incominguser_list }))

  unfoldable pub set_outgoinguser : ℕ → ℕ → ℕ → Io (Unit {0})
  unfolding change_target
  set_outgoinguser iqn name passwd = change_target iqn (λ t. pure (record t {
    outgoinguser_list =
        set_user name (record { name = env.strip name; password = env.strip passwd })
          t.outgoinguser_list;
  }))

  unfoldable pub del_outgoinguser : ℕ → ℕ → Io (Unit {0})
  unfolding change_target
  del_outgoinguser iqn name = change_target iqn (λ t. do
    found ← or_raise plain_exception (find_user name t.outgoinguser_list)
    pure (record t { outgoinguser_list = remove_user found t.outgoinguser_list }))

  -- `set_state`, by the state's name: offline, ready, or another one
  unfoldable pub set_state : ℕ → Option Bool → Io (Unit {0})
  unfolding call
  set_state iqn (some false) = call env (offline iqn)
  set_state iqn (some true) = call env (ready iqn)
  set_state iqn none = raise plain_exception

  -- The new name is stored as it is given. The deletion of the old target on the minions may raise, the update may not.
  unfoldable pub update_target_iqn : ℕ → ℕ → Io (Unit {0})
  unfolding get_target_conf load_conf find_target set_target_conf call try_call
  update_target_iqn iqn new_iqn = do
    t ← get_target_conf env iqn
    conf ← load_conf env
    require (is_free (find_target (has_iqn new_iqn) conf.target_list)) plain_exception
    set_target_conf env iqn (record t {
      iqn = new_iqn;
      lun_list = map (λ (l : Lun). record l { iqn = new_iqn }) t.lun_list;
    })
    call env (delete_target iqn)
    try_call env (update_target new_iqn)
    where
      is_free : Option TargetConf → Bool
      is_free none = true
      is_free (some t) = false
