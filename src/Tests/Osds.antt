-- ===== src/Tests/Osds.antt =====
-- Commands for an OSD and for the flags.
use calamari.Prelude.{arith, ◌≡◌, refl, Bool, true, false, some, List, [], ◌∷◌}
use calamari.Prelude.Dict.{Dict, lookup, IsUnique}
use calamari.Exec.{ok}
use calamari.OsdRequestFactory.{Osd, OsdMap, Attributes, commands_to_set_flags}
use calamari.Types.{Command}
use calamari.OsdRequestFactory.Commands.{
  or_else, apply_flag_commands, has_value, commands_to_set_flags-applied,
}

abbrev up_and_in : Osd
up_and_in = record { is_in = true; up = true }

abbrev osds : OsdMap
osds = record {
  fsid = 9;
  osds_by_id = (4, up_and_in) ∷ [];
  reweight_by_id = (4, 10) ∷ [];
  flags = (0, true) ∷ (1, false) ∷ (3, true) ∷ [];
}

-- Out, down, and half the weight
abbrev take_out : Attributes
take_out = record { id = "4"; is_in = some false; up = some false; reweight = some 5 }

-- Unset `pause`, set `noup`, and keep `noout`.
abbrev wanted : Dict Bool
wanted = (0, false) ∷ (1, true) ∷ (3, true) ∷ []

distinct : IsUnique osds.flags × IsUnique wanted
unfolding lookup
distinct = ((refl, (refl, (refl, tt))), (refl, (refl, (refl, tt))))

commands_to_set_flags-applied_example :
    (cs : List Command) × (commands_to_set_flags wanted osds ≡ (ok cs, osds))
    × (apply_flag_commands 1 cs (has_value true (lookup 1 osds.flags))
        ≡ or_else (lookup 1 wanted) (has_value true (lookup 1 osds.flags)))
commands_to_set_flags-applied_example =
    commands_to_set_flags-applied osds wanted 1 (omega arith) refl distinct.0 distinct.1
