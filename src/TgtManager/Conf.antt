-- ===== src/TgtManager/Conf.antt =====
-- The stored configuration: what `_load_conf` and `_save_conf` read and write. Names, addresses and
-- passwords are opaque, so they are natural numbers; a user is a name and a password. The calls of
-- salt and of rbd are recorded; whether one fails is a parameter, and so is `str.strip`.
use calamari.Prelude.{
  ℕ, Bool, true, ◌&&◌, Option, none, some, List, [], ◌∷◌, ◌++◌, if◌then◌else◌, leb, map,
}
use calamari.Exec.{Exception, ok, err, Exec, pure, modify, catch, config_error}

-- LUN_CONF_SCHEMA; `size` is in gigabytes.
pub record Lun : Type 0 where
  pub lun : ℕ
  pub size : ℕ
  pub iqn : ℕ
  pub pool : ℕ
  pub image : ℕ
  pub name : ℕ
  pub device_type : ℕ
  pub bs_type : ℕ
  pub write_cache : Bool

pub record User : Type 0 where
  pub name : ℕ
  pub password : ℕ

-- TARGET_CONF_SCHEMA
pub record TargetConf : Type 0 where
  pub id : ℕ
  pub iqn : ℕ
  pub initiator_addr_list : List ℕ
  pub initiator_name_list : List ℕ
  pub incominguser_list : List User
  pub outgoinguser_list : List User
  pub lun_list : List Lun

-- TGT_CONF_SCHEMA, where `none` is an empty user
pub record TgtConf : Type 0 where
  pub incomingdiscoveryuser : Option User
  pub outgoingdiscoveryuser : Option User
  pub target_list : List TargetConf

-- The lines of the file that tgt-admin reads, without comments and blank lines
pub data Line : Type 0 where
  incoming_discovery outgoing_discovery incominguser outgoinguser : User → Line
  begin_target initiator_address initiator_name : ℕ → Line
  backing_store : (pool image : ℕ) → Line
  device_type_disk bs_type_rbd write_cache_on write_cache_off end_target : Line

pub data Call : Type 0 where
  write_system_conf : List Line → Call
  execute : Call
  delete_target update_target : (iqn : ℕ) → Call
  rbd_create rbd_resize : (pool image size : ℕ) → Call
  rbd_remove : (pool image : ℕ) → Call
  offline ready : (iqn : ℕ) → Call

-- The configuration's file, `none` where there is none, and the calls, the newest first
pub record Store : Type 0 where
  pub file : Option TgtConf
  pub calls : List Call

abbrev pub Io : Type 0 → Type 0
Io A = Exec Store A

-- `IntVal(low, high)`
abbrev pub int_val : ℕ → ℕ → ℕ → Bool
int_val low high n = leb low n && leb n high

unfoldable pub lun_is_valid : Lun → Bool
lun_is_valid l = int_val 1 255 l.lun && int_val 1 4096 l.size

abbrev pub luns_are_valid : List Lun → Bool
unfolding lun_is_valid
luns_are_valid [] = true
luns_are_valid (l ∷ ls) = lun_is_valid l && luns_are_valid ls

unfoldable pub target_is_valid : TargetConf → Bool
unfolding luns_are_valid
target_is_valid t = int_val 1 255 t.id && luns_are_valid t.lun_list

unfoldable pub targets_are_valid : List TargetConf → Bool
unfolding target_is_valid
targets_are_valid [] = true
targets_are_valid (t ∷ ts) = target_is_valid t && targets_are_valid ts

abbrev pub default_conf : TgtConf
default_conf = record {
  incomingdiscoveryuser = none;
  outgoingdiscoveryuser = none;
  target_list = [];
}

-- `_lun_conf_to_line`
abbrev pub lun_line : Lun → Line
lun_line l = backing_store l.pool l.image

-- `write_cache` is set by the first LUN and then kept, since its text is not empty.
abbrev pub lun_options : List Lun → List Line
lun_options [] = []
lun_options (l ∷ ls) =
    device_type_disk
    ∷ bs_type_rbd
    ∷ (if l.write_cache then write_cache_on else write_cache_off)
    ∷ []

-- `_target_conf_to_line`
unfoldable pub target_lines : TargetConf → List Line
target_lines t =
    (begin_target t.iqn ∷ map initiator_address t.initiator_addr_list)
    ++ map initiator_name t.initiator_name_list
    ++ map incominguser t.incominguser_list
    ++ map outgoinguser t.outgoinguser_list
    ++ map lun_line t.lun_list
    ++ lun_options t.lun_list
    ++ end_target ∷ []

abbrev pub user_line : (User → Line) → Option User → List Line
user_line line none = []
user_line line (some u) = line u ∷ []

-- What `_sync_to_system_conf` writes
unfoldable pub conf_lines : TgtConf → List Line
unfolding target_lines
conf_lines conf =
    user_line incoming_discovery conf.incomingdiscoveryuser
    ++ user_line outgoing_discovery conf.outgoingdiscoveryuser
    ++ go conf.target_list
  where
    go : List TargetConf → List Line
    go [] = []
    go (t ∷ ts) = target_lines t ++ go ts

-- What the model does not know: which calls of salt or rbd raise, and `str.strip` on the opaque names
-- and on a user's text.
pub record Env : Type 0 where
  pub fails : Call → Option Exception
  pub strip : ℕ → ℕ
  pub strip_user : User → User

-- What a validation makes of a configuration: `Use(str)` strips each text.
abbrev pub strip_discovery : Env → Option User → Option User
strip_discovery env none = none
strip_discovery env (some u) = some (env.strip_user u)

abbrev pub strip_lun : Env → Lun → Lun
strip_lun env l = record {
  lun = l.lun;
  size = l.size;
  iqn = env.strip l.iqn;
  pool = env.strip l.pool;
  image = env.strip l.image;
  name = env.strip l.name;
  device_type = env.strip l.device_type;
  bs_type = env.strip l.bs_type;
  write_cache = l.write_cache;
}

abbrev pub strip_target : Env → TargetConf → TargetConf
strip_target env t = record {
  id = t.id;
  iqn = env.strip t.iqn;
  initiator_addr_list = map env.strip t.initiator_addr_list;
  initiator_name_list = map env.strip t.initiator_name_list;
  incominguser_list = map env.strip_user t.incominguser_list;
  outgoinguser_list = map env.strip_user t.outgoinguser_list;
  lun_list = map (strip_lun env) t.lun_list;
}

abbrev pub strip_conf : Env → TgtConf → TgtConf
strip_conf env conf = record {
  incomingdiscoveryuser = strip_discovery env conf.incomingdiscoveryuser;
  outgoingdiscoveryuser = strip_discovery env conf.outgoingdiscoveryuser;
  target_list = map (strip_target env) conf.target_list;
}

-- A file that does not pass the schema raises a ConfigError, and one that does is loaded with its
-- texts stripped.
unfoldable pub load_conf : Env → Io TgtConf
unfolding targets_are_valid
load_conf env s = elim s.file [
  | none ↦ (ok default_conf, s)
  | some conf ↦
      if targets_are_valid conf.target_list
      then (ok (strip_conf env conf), s)
      else (err config_error, s)
]

unfoldable pub save_conf : TgtConf → Io (Unit {0})
save_conf conf = modify (λ s. record s { file = some conf })

-- A call of salt or rbd: it is made, and may raise.
module _ (env : Env) where
  unfoldable pub call : Call → Io (Unit {0})
  call c s = elim (env.fails c) [
    | none ↦ (ok tt, record s { calls = c ∷ s.calls })
    | some e ↦ (err e, record s { calls = c ∷ s.calls })
  ]

  -- `try: call` / `except Exception: pass`
  unfoldable pub try_call : Call → Io (Unit {0})
  unfolding call
  try_call c = catch (call c) (λ e. pure tt)

  -- `_sync_to_system_conf`: the lines for tgt-admin, sent to the minions
  abbrev pub sync_to_system_conf : TgtConf → Io (Unit {0})
  unfolding call
  sync_to_system_conf conf = call (write_system_conf (conf_lines conf))
