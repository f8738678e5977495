-- ===== src/TgtManager/Full.antt =====
-- A new target: what is stored, whether it can be loaded again, and its removal.
use calamari.Prelude.{ℕ, [], ◌∷◌, ◌++◌}
use calamari.TgtManager.Conf.{TgtConf}
use calamari.TgtManager.Targets.{generate_id, ids_of, new_target, with_targets}

-- The configuration after a new target
abbrev pub with_new : ℕ → TgtConf → TgtConf
with_new iqn conf =
    with_targets (conf.target_list ++ new_target (generate_id (ids_of conf.target_list)) iqn ∷ [])
      conf
