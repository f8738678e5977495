-- ===== src/OsdRequestFactory.antt =====
-- cthulhu/cthulhu/manager/osd_request_factory.py: the requests that change an OSD or the flags of the
-- OSD map, and those that scrub or repair. `id` is the new request's `uuid`, and `str` gives a
-- number's text. `Commands` says what the commands do to the map.
pub mod Commands
use calamari.Prelude.{
  ℕ, suc, String, Bool, true, false, not, ◌&&◌, Option, none, some, List, [], ◌∷◌, ◌++◌, ◌==◌,
  if◌then◌else◌, is_empty, ltb, map, without_all, with_all,
}
use calamari.Prelude.Dict.{Dict, lookup, insert, keys}
use calamari.Exec.{
  Exec, ok, err, pure, gets, or_raise, require, ◌>>=◌, ◌>>◌, key_error, runtime_error,
}
use calamari.Types.{Arg, text, number, strings, weight, Command}
use calamari.UserRequest.{Request, new_request, rados, osd_map_modifying}

-- An item of `osds_by_id`
pub record Osd : Type 0 where
  pub is_in : Bool
  pub up : Bool

-- What the factory reads of its monitor's OSD map. A flag is its position in `OSD_FLAGS`, or a number
-- past those for a text that is none; a weight is a number that is only compared.
pub record OsdMap : Type 0 where
  pub fsid : ℕ
  pub osds_by_id : Dict Osd
  pub reweight_by_id : Dict ℕ
  pub flags : Dict Bool

-- The attributes of an OSD that a user gives, where a missing key is `none`, and their `id` as text.
pub record Attributes : Type 0 where
  pub id : String
  pub is_in : Option Bool
  pub up : Option Bool
  pub reweight : Option ℕ

abbrev pub Factory : Type 0 → Type 0
Factory A = Exec OsdMap A

abbrev pub same_bool : Bool → Bool → Bool
same_bool true b = b
same_bool false b = not b

-- What the commands of `update` ask for
pub data Change : Type 0 where
  set_in : Bool → Change
  set_down : Change
  set_reweight : ℕ → Change

-- `osd_map.osds_by_id[osd_id]`
abbrev pub find_osd : ℕ → Factory Osd
find_osd osd_id m = or_raise key_error (lookup osd_id m.osds_by_id) m

unfoldable pub change_in : ℕ → Option Bool → Factory (List Change)
change_in osd_id none = pure []
change_in osd_id (some b) = do
  o ← find_osd osd_id
  pure (if same_bool b o.is_in then [] else set_in b ∷ [])

unfoldable pub change_up : ℕ → Option Bool → Factory (List Change)
change_up osd_id none = pure []
change_up osd_id (some b) = do
  o ← find_osd osd_id
  if same_bool b o.up
      then pure []
      else if b
      then (λ m. (err runtime_error, m))
      else pure (set_down ∷ [])

unfoldable pub change_reweight : ℕ → Option ℕ → Factory (List Change)
change_reweight osd_id none = pure []
change_reweight osd_id (some w) = do
  old ← (λ m. or_raise key_error (lookup osd_id m.reweight_by_id) m)
  pure (if w == old then [] else set_reweight w ∷ [])

-- The tests of `update`, in their order
unfoldable pub changes : ℕ → Attributes → Factory (List Change)
changes osd_id a = do
  ins ← change_in osd_id a.is_in
  ups ← change_up osd_id a.up
  weights ← change_reweight osd_id a.reweight
  pure (ins ++ (ups ++ weights))

-- The command of a change
abbrev pub command : ℕ → Attributes → Change → Command
command osd_id a (set_in true) = ("osd in", ("ids", strings (a.id ∷ [])) ∷ [])
command osd_id a (set_in false) = ("osd out", ("ids", strings (a.id ∷ [])) ∷ [])
command osd_id a set_down = ("osd down", ("ids", strings (a.id ∷ [])) ∷ [])
command osd_id a (set_reweight w) =
    ("osd reweight", ("id", number osd_id) ∷ ("weight", weight w) ∷ [])

-- no request where there is no command
abbrev pub request_of : ℕ → List Command → Factory (Option Request)
request_of id [] m = (ok none, m)
request_of id (c ∷ cs) m =
    (ok (some (new_request id (some m.fsid) (osd_map_modifying (c ∷ cs)))), m)

unfoldable pub update : ℕ → ℕ → Attributes → Factory (Option Request)
update id osd_id a = do cs ← changes osd_id a; request_of id (map (command osd_id a) cs)

abbrev on_osd : String → ℕ → String → Factory Request
on_osd prefix id who m =
    (ok (new_request id (some m.fsid) (rados ((prefix, ("who", text who) ∷ []) ∷ []))), m)

unfoldable pub scrub : (ℕ → String) → ℕ → ℕ → Factory Request
scrub str id osd_id = on_osd "osd scrub" id (str osd_id)

unfoldable pub deep_scrub : (ℕ → String) → ℕ → ℕ → Factory Request
deep_scrub str id osd_id = on_osd "osd deep-scrub" id (str osd_id)

unfoldable pub repair : (ℕ → String) → ℕ → ℕ → Factory Request
repair str id osd_id = on_osd "osd repair" id (str osd_id)

-- `OSD_IMPLEMENTED_COMMANDS`
abbrev pub implemented_commands : List String
implemented_commands = "scrub" ∷ "deep_scrub" ∷ "repair" ∷ []

unfoldable pub get_valid_commands : List ℕ → Factory (Dict (List String))
get_valid_commands osds = go [] osds
  where
    go : Dict (List String) → List ℕ → Factory (Dict (List String))
    go d [] m = (ok d, m)
    go d (osd_id ∷ ids) m = elim (lookup osd_id m.osds_by_id) [
      | none ↦ (err key_error, m)
      | some o ↦ go (insert osd_id (if o.up then implemented_commands else []) d) ids m
    ]

-- `OSD_FLAGS`
abbrev pub osd_flags : List String
osd_flags =
    "pause" ∷ "noup" ∷ "nodown" ∷ "noout" ∷ "noin" ∷ "nobackfill" ∷ "norecover" ∷ "noscrub"
    ∷ "nodeep-scrub" ∷ []

abbrev pub nth : ℕ → List String → String
nth k xs = go 0 xs
  where
    go : ℕ → List String → String
    go i [] = ""
    go i (x ∷ xs) = let rest = go (suc i) xs in if i == k then x else rest

-- The keys with that value
abbrev pub keys_with : Bool → Dict Bool → List ℕ
keys_with b [] = []
keys_with b ((k, v) ∷ d) = let rest = keys_with b d in if same_bool b v then k ∷ rest else rest

-- Whether all keys are flags
abbrev pub are_flags : Dict Bool → Bool
are_flags [] = true
are_flags ((k, v) ∷ d) = ltb k 9 && are_flags d

-- The flags to set, and then those to unset
unfoldable pub flag_changes : OsdMap → Dict Bool → List (Bool × ℕ)
flag_changes m attributes =
    let are_set = keys_with true m.flags in
    map (λ k. (true, k)) (without_all (keys_with true attributes) are_set)
    ++ map (λ k. (false, k)) (with_all are_set (keys_with false attributes))

abbrev pub flag_command : Bool × ℕ → Command
flag_command (true, k) = ("osd set", ("key", text (nth k osd_flags)) ∷ [])
flag_command (false, k) = ("osd unset", ("key", text (nth k osd_flags)) ∷ [])

unfoldable pub commands_to_set_flags : Dict Bool → Factory (List Command)
commands_to_set_flags attributes = do
  require (are_flags attributes) runtime_error
  gets (λ m. map flag_command (flag_changes m attributes))

unfoldable pub update_config : ℕ → Dict Bool → Factory (Option Request)
update_config id attributes = do commands ← commands_to_set_flags attributes; request_of id commands
