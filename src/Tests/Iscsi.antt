-- ===== src/Tests/Iscsi.antt =====
-- iSCSI targets: a sequence of calls, and a target that is made and removed.
use calamari.Prelude.{ltb, ◌-◌, ℕ, true, Option, none, some, List, [], ◌∷◌, ◌==◌, if◌then◌else◌}
use calamari.Exec.{Exception, runtime_error}
use calamari.TgtManager.Conf.{TgtConf, Env, Call, rbd_create, Store}
use calamari.TgtManager.Targets.{new_target}
use calamari.TgtManager.Luns.{NewLun}
use calamari.TgtManager.Operations.{Operation, create, remove_by_iqn, set_incoming, add, rename}

-- Images cannot be created in pool 9.
abbrev fails : Call → Option Exception
fails (rbd_create pool image size) = if pool == 9 then some runtime_error else none
fails _ = none

-- Names are numbers below 100, and a hundred more for a name with a blank at its end.
abbrev env : Env
env = record {
  fails = fails;
  strip = λ name. if ltb name 100 then name else name - 100;
  strip_user = λ user. user;
}

abbrev lun_in : ℕ → NewLun
lun_in pool = record {
  pool = pool;
  image = 5;
  size = 10;
  name = 6;
  device_type = 0;
  bs_type = 0;
  write_cache = true;
}

abbrev operations : List Operation
operations =
    create 1
    ∷ create 2
    ∷ create 101
    ∷ add 1 (lun_in 3)
    ∷ add 2 (lun_in 9)
    ∷ set_incoming 2 7 8
    ∷ rename 2 3
    ∷ remove_by_iqn 3
    ∷ []

-- The target with the largest id that the schema allows
abbrev last_target : TgtConf
last_target = record {
  incomingdiscoveryuser = none;
  outgoingdiscoveryuser = none;
  target_list = new_target 255 1 ∷ [];
}

abbrev answers : Env
answers = record { fails = λ c. none; strip = λ name. name; strip_user = λ user. user }

abbrev stored : Store
stored = record { file = some last_target; calls = [] }
