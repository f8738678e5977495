-- ===== src/TgtManager/Luns.antt =====
-- The methods of Target on its LUNs: `add_lun`, `set_lun`, `del_lun`.
use calamari.Prelude.{
  ℕ, Bool, true, false, not, ◌&&◌, ◌||◌, Option, none, some, List, [], ◌∷◌, ◌++◌, ◌==◌,
  if◌then◌else◌,
}
use calamari.Exec.{pure, ◌>>=◌, ◌>>◌, when, require, or_raise, schema_error, plain_exception}
use calamari.TgtManager.Conf.{
  Env, strip_lun, Lun, TargetConf, update_target, rbd_create, rbd_resize, rbd_remove, Io, load_conf,
  call, try_call, lun_is_valid,
}
use calamari.TgtManager.Targets.{get_target_conf, set_target_conf, generate_id, all_luns}
use calamari.TgtManager.Target.{change_target}

abbrev pub has_name : ℕ → Lun → Bool
has_name name l = l.name == name

abbrev pub has_number : ℕ → Lun → Bool
has_number n l = l.lun == n

abbrev pub any_lun : (Lun → Bool) → List Lun → Bool
any_lun test [] = false
any_lun test (l ∷ ls) = test l || any_lun test ls

-- The first LUN that passes, and `list.remove` of it
abbrev pub find_lun : (Lun → Bool) → List Lun → Option Lun
find_lun test [] = none
find_lun test (l ∷ ls) = if test l then some l else find_lun test ls

abbrev pub remove_lun : (Lun → Bool) → List Lun → List Lun
remove_lun test [] = []
remove_lun test (l ∷ ls) = let rest = remove_lun test ls in if test l then ls else l ∷ rest

-- The last LUN that passes, and `list.remove` of an equal one
abbrev pub find_last_lun : (Lun → Bool) → List Lun → Option Lun
find_last_lun test [] = none
find_last_lun test (l ∷ ls) = elim (find_last_lun test ls) [
  | some found ↦ some found
  | none ↦ if test l then some l else none
]

abbrev pub same_flag : Bool → Bool → Bool
same_flag true b = b
same_flag false b = not b

abbrev pub same_lun : Lun → Lun → Bool
same_lun a b =
    a.lun == b.lun
    && (a.size == b.size
        && (a.iqn == b.iqn
            && (a.pool == b.pool
                && (a.image == b.image
                    && (a.name == b.name
                        && (a.device_type == b.device_type
                            && (a.bs_type == b.bs_type
                                && same_flag a.write_cache b.write_cache)))))))

-- A LUN of the pool, and a LUN with the image, which need not be the same
abbrev pub is_used : ℕ → ℕ → List Lun → Bool
is_used pool image luns =
    any_lun (λ (l : Lun). l.pool == pool) luns && any_lun (λ (l : Lun). l.image == image) luns

abbrev pub numbers : List Lun → List ℕ
numbers [] = []
numbers (l ∷ ls) = l.lun ∷ numbers ls

-- What a request for a new LUN gives
pub record NewLun : Type 0 where
  pub pool : ℕ
  pub image : ℕ
  pub size : ℕ
  pub name : ℕ
  pub device_type : ℕ
  pub bs_type : ℕ
  pub write_cache : Bool

abbrev pub lun_of : ℕ → ℕ → NewLun → Lun
lun_of number iqn x = record {
  lun = number;
  size = x.size;
  iqn = iqn;
  pool = x.pool;
  image = x.image;
  name = x.name;
  device_type = x.device_type;
  bs_type = x.bs_type;
  write_cache = x.write_cache;
}

-- What a request changes of a LUN
pub record Changes : Type 0 where
  pub new_size : Option ℕ
  pub new_name : Option ℕ

abbrev pub given : Option ℕ → ℕ → ℕ
given none old = old
given (some n) old = n

abbrev pub changed : Changes → Lun → Lun
changed x l = record l { size = given x.new_size l.size; name = given x.new_name l.name }

abbrev pub rbd_type : ℕ
rbd_type = 0

module _ (env : Env) where
  unfoldable pub new_lun : ℕ → NewLun → TargetConf → Io TargetConf
  unfolding load_conf generate_id call
  new_lun iqn x t = do
    conf ← load_conf env
    require (not (any_lun (has_name x.name) t.lun_list)) plain_exception
    require (not (is_used x.pool x.image t.lun_list)) plain_exception
    call env (rbd_create x.pool x.image x.size)
    pure (record t {
      lun_list =
          t.lun_list
          ++ strip_lun env (lun_of (generate_id (numbers (all_luns conf.target_list))) iqn x) ∷ [];
    })

  -- The schema gives a LUN without a number the number 1. What is compared is not stripped.
  unfoldable pub add_lun : ℕ → NewLun → Io (Unit {0})
  unfolding change_target new_lun lun_is_valid
  add_lun iqn x = do
    require (lun_is_valid (lun_of 1 iqn x)) schema_error
    require (x.bs_type == rbd_type) plain_exception
    change_target env iqn (new_lun iqn x)

  abbrev pub resize : Lun → Option ℕ → Io (Unit {0})
  unfolding call
  resize l none = pure tt
  resize l (some size) = call env (rbd_resize l.pool l.image size)

  abbrev pub is_taken : Option ℕ → List Lun → Bool
  is_taken none luns = false
  is_taken (some name) luns = any_lun (has_name name) luns

  -- The image is resized before the name and the size are tested.
  unfoldable pub other_lun : ℕ → Changes → TargetConf → Io TargetConf
  unfolding resize lun_is_valid
  other_lun number x t = do
    l ← or_raise plain_exception (find_lun (has_number number) t.lun_list)
    resize l x.new_size
    require (not (is_taken x.new_name (remove_lun (has_number number) t.lun_list))) plain_exception
    require (lun_is_valid (changed x l)) schema_error
    pure (record t {
      lun_list = remove_lun (has_number number) t.lun_list ++ strip_lun env (changed x l) ∷ [];
    })

  unfoldable pub set_lun : ℕ → ℕ → Changes → Io (Unit {0})
  unfolding change_target other_lun
  set_lun iqn number x = change_target env iqn (other_lun number x)

  -- Another LUN, of any target, on the same image
  abbrev pub shares : Lun → Lun → Bool
  shares l j = j.pool == l.pool && (j.image == l.image && not (j.lun == l.lun))

  -- The image is removed last, unless another LUN is on it.
  unfoldable pub del_lun : ℕ → ℕ → Io (Unit {0})
  unfolding get_target_conf load_conf set_target_conf call try_call
  del_lun iqn number = do
    t ← get_target_conf env iqn
    conf ← load_conf env
    l ← or_raise plain_exception (find_last_lun (has_number number) t.lun_list)
    set_target_conf env iqn (record t { lun_list = remove_lun (same_lun l) t.lun_list })
    try_call env (update_target iqn)
    when (not (any_lun (shares l) (all_luns conf.target_list)))
        (call env (rbd_remove l.pool l.image))
