-- ===== src/OsdRequestFactory/Commands.antt =====
-- What the factory's commands do: the map that they lead to is the one that was asked for.
use calamari.Prelude.{
  zero, suc, String, str_eq, ltb, ◌<◌, ℕ, ◌≡◌, ◌↔◌, ◌∙◌, ap, refl, Bool, true, false, not, ◌&&◌,
  Option, none, some, List, [], ◌∷◌, ◌++◌, ◌==◌, if◌then◌else◌, elem, map, arith, without_all,
  with_all, elem-without_all, elem-with_all,
}
use calamari.Prelude.Dict.{Dict, lookup, IsUnique}
use calamari.Exec.{ok, err, runtime_error}
use calamari.OsdRequestFactory.{
  Osd, OsdMap, Attributes, Change, set_in, set_down, set_reweight, same_bool, change_in, change_up,
  change_reweight, changes, update, flag_changes, keys_with, osd_flags, nth, are_flags,
  flag_command, commands_to_set_flags,
}
use calamari.Types.{Arg, text, number, strings, weight, Command}
use calamari.UserRequest.{Request, Class, osd_map_modifying}

-- A change of an OSD with its weight
abbrev apply : List Change → Osd × ℕ → Osd × ℕ
apply [] x = x
apply (set_in b ∷ cs) (o, w) = apply cs (record o { is_in = b }, w)
apply (set_down ∷ cs) (o, w) = apply cs (record o { up = false }, w)
apply (set_reweight v ∷ cs) (o, w) = apply cs (o, v)

-- the attribute that is given, or else what is there
abbrev pub or_else : {A : Type 0} → Option A → A → A
or_else none old = old
or_else (some new) old = new

-- What Ceph does on a command's text, to an OSD with this id, whose text is `who`, and its weight
abbrev is_ids : String → List (String × Arg) → Bool
is_ids who ((key, strings (x ∷ [])) ∷ []) = str_eq key "ids" && str_eq x who
is_ids who _ = false

abbrev given_weight : ℕ → ℕ → List (String × Arg) → ℕ
given_weight osd_id w ((key, number id) ∷ (key', weight v) ∷ []) =
    if str_eq key "id" && (id == osd_id && str_eq key' "weight") then v else w
given_weight osd_id w _ = w

abbrev pub apply_command : ℕ → String → Command → Osd × ℕ → Osd × ℕ
apply_command osd_id who (prefix, args) (o, w) =
    if str_eq prefix "osd in" && is_ids who args
    then (record o { is_in = true }, w)
    else if str_eq prefix "osd out" && is_ids who args
    then (record o { is_in = false }, w)
    else if str_eq prefix "osd down" && is_ids who args
    then (record o { up = false }, w)
    else if str_eq prefix "osd reweight"
    then (o, given_weight osd_id w args)
    else (o, w)

abbrev pub apply_commands : ℕ → String → List Command → Osd × ℕ → Osd × ℕ
apply_commands osd_id who [] x = x
apply_commands osd_id who (c ∷ cs) x = apply_commands osd_id who cs (apply_command osd_id who c x)

-- The commands that a request sends
abbrev pub commands_of : Option Request → List Command
commands_of none = []
commands_of (some r) = sent_by r.class
  where
    sent_by : Class → List Command
    sent_by (osd_map_modifying cs) = cs
    sent_by _ = []

-- The flag `f` after the commands `set` and `unset`
abbrev apply_flags : List (Bool × ℕ) → ℕ → Bool → Bool
apply_flags [] f b = b
apply_flags ((v, k) ∷ cs) f b = apply_flags cs f (if k == f then v else b)

apply_flags-append :
    (k l : List (Bool × ℕ)) (f : ℕ) (b : Bool)
    → apply_flags (k ++ l) f b ≡ apply_flags l f (apply_flags k f b)
apply_flags-append [] l f b = refl
apply_flags-append ((v, k) ∷ cs) l f b = apply_flags-append cs l f (if k == f then v else b)

apply_flags-map :
    (v : Bool) (ks : List ℕ) (f : ℕ) (b : Bool)
    → apply_flags (map (λ k. (v, k)) ks) f b ≡ (if elem f ks then v else b)
apply_flags-map v [] f b = refl
apply_flags-map v (k ∷ ks) f b = ground (arith, apply_flags-map v ks f (if k == f then v else b))

-- Whether the dict has the key with that value
abbrev pub has_value : Bool → Option Bool → Bool
has_value b none = false
has_value b (some v) = same_bool b v

elem-keys_with :
    (b : Bool) (d : Dict Bool) (f : ℕ)
    → IsUnique d
    → elem f (keys_with b d) ≡ has_value b (lookup f d)
unfolding lookup
elem-keys_with b [] f u = refl
elem-keys_with b ((k, v) ∷ d) f (u, us) = ground (arith, elem-keys_with b d f us)

flag_changes-apply :
    (m : OsdMap) (attributes : Dict Bool) (f : ℕ)
    → IsUnique m.flags
    → IsUnique attributes
    → apply_flags (flag_changes m attributes) f (has_value true (lookup f m.flags))
      ≡ or_else (lookup f attributes) (has_value true (lookup f m.flags))
unfolding flag_changes
flag_changes-apply m attributes f u v =
    let now = has_value true (lookup f m.flags) in
    let are_set = keys_with true m.flags in
    let sets = without_all (keys_with true attributes) are_set in
    let unsets = with_all are_set (keys_with false attributes) in
    apply_flags-append (map (λ k. (true, k)) sets) (map (λ k. (false, k)) unsets) f now
    ∙ rw
        (
          apply_flags-map true sets f now,
          apply_flags-map false unsets f (if elem f sets then true else now),
          elem-without_all f (keys_with true attributes) are_set,
          elem-with_all f are_set (keys_with false attributes),
          elem-keys_with true attributes f v,
          elem-keys_with false attributes f v,
          elem-keys_with true m.flags f u,
        )
        (settle (lookup f attributes) now)
  where
    settle :
        (o : Option Bool) (now : Bool)
        → (if now && has_value false o
            then false
            else (if has_value true o && not now then true else now))
          ≡ or_else o now
    settle none true = refl
    settle none false = refl
    settle (some true) true = refl
    settle (some true) false = refl
    settle (some false) true = refl
    settle (some false) false = refl

-- The position of a flag's text, past the last one where there is none
abbrev position : String → List String → ℕ
position t [] = 0
position t (x ∷ xs) = let n = position t xs in if str_eq x t then 0 else suc n

abbrev is_flag : ℕ → List (String × Arg) → Bool
is_flag f ((key, text t) ∷ []) = str_eq key "key" && position t osd_flags == f
is_flag f _ = false

-- What Ceph does on a command's text to the flag at position `f` of `OSD_FLAGS`
abbrev pub apply_flag_command : ℕ → Command → Bool → Bool
apply_flag_command f (prefix, args) b =
    if str_eq prefix "osd set" && is_flag f args
    then true
    else if str_eq prefix "osd unset" && is_flag f args
    then false
    else b

abbrev pub apply_flag_commands : ℕ → List Command → Bool → Bool
apply_flag_commands f [] b = b
apply_flag_commands f (c ∷ cs) b = apply_flag_commands f cs (apply_flag_command f c b)

nth-past : (k : ℕ) → nth (suc (suc (suc (suc (suc (suc (suc (suc (suc k))))))))) osd_flags ≡ ""
nth-past k = ground arith

position-nth : (k : ℕ) → position (nth k osd_flags) osd_flags ≡ (if ltb k 9 then k else 9)
position-nth zero = refl
position-nth (suc zero) = refl
position-nth (suc (suc zero)) = refl
position-nth (suc (suc (suc zero))) = refl
position-nth (suc (suc (suc (suc zero)))) = refl
position-nth (suc (suc (suc (suc (suc zero))))) = refl
position-nth (suc (suc (suc (suc (suc (suc zero)))))) = refl
position-nth (suc (suc (suc (suc (suc (suc (suc zero))))))) = refl
position-nth (suc (suc (suc (suc (suc (suc (suc (suc zero)))))))) = refl
position-nth (suc (suc (suc (suc (suc (suc (suc (suc (suc k))))))))) =
    rw (nth-past k) (ground arith)

apply_flag_command-flag_command :
    (f : ℕ) (c : Bool × ℕ) (b : Bool)
    → f < 9
    → apply_flag_command f (flag_command c) b ≡ (if c.1 == f then c.0 else b)
apply_flag_command-flag_command f (true, k) b h = rw (position-nth k) (ground (arith, h))
apply_flag_command-flag_command f (false, k) b h = rw (position-nth k) (ground (arith, h))

apply_flag_commands-map :
    (f : ℕ) (cs : List (Bool × ℕ)) (b : Bool)
    → f < 9
    → apply_flag_commands f (map flag_command cs) b ≡ apply_flags cs f b
apply_flag_commands-map f [] b h = refl
apply_flag_commands-map f ((v, k) ∷ cs) b h =
    apply_flag_commands-map f cs (apply_flag_command f (flag_command (v, k)) b) h
    ∙ ap (apply_flags cs f) (apply_flag_command-flag_command f (v, k) b h)

-- Where all attributes are flags, `commands_to_set_flags` raises nothing, and its commands, which are
-- read by their texts and applied in order, give each of the nine flags that is an attribute its value,
-- and leave the others as they are.
pub commands_to_set_flags-applied :
    (m : OsdMap) (attributes : Dict Bool) (f : ℕ)
    → f < 9
    → are_flags attributes ≡ true
    → IsUnique m.flags
    → IsUnique attributes
    → (cs : List Command) × (commands_to_set_flags attributes m ≡ (ok cs, m))
      × (apply_flag_commands f cs (has_value true (lookup f m.flags))
          ≡ or_else (lookup f attributes) (has_value true (lookup f m.flags)))
unfolding commands_to_set_flags
commands_to_set_flags-applied m attributes f small known u v = (
  map flag_command (flag_changes m attributes),
  rw (known) refl,
  apply_flag_commands-map f (flag_changes m attributes) (has_value true (lookup f m.flags)) small
      ∙ flag_changes-apply m attributes f u v,
)

-- No request is made exactly where the OSD already has every attribute that is asked for.
pub update-none :
    (id osd_id : ℕ) (m : OsdMap) (o : Osd) (w : ℕ) (a : Attributes)
    → lookup osd_id m.osds_by_id ≡ some o
    → lookup osd_id m.reweight_by_id ≡ some w
    → (a.up ≡ some true → o.up ≡ true)
    → ((update id osd_id a m).0 ≡ ok none) ↔ (
        (or_else a.is_in o.is_in ≡ o.is_in)
        × (or_else a.up o.up ≡ o.up)
        × (or_else a.reweight w ≡ w))
unfolding update changes change_in change_up change_reweight
update-none id osd_id m o w a known weighed h = ground (arith, known, weighed, h)

-- An update of a known OSD, whose weight is known, raises a RuntimeError exactly if it asks a down OSD
-- to be up.
pub update-raises_up :
    (id osd_id : ℕ) (m : OsdMap) (o : Osd) (w : ℕ) (a : Attributes)
    → lookup osd_id m.osds_by_id ≡ some o
    → lookup osd_id m.reweight_by_id ≡ some w
    → ((update id osd_id a m).0 ≡ err runtime_error) ↔ ((a.up ≡ some true) × (o.up ≡ false))
unfolding update changes change_in change_up change_reweight
update-raises_up id osd_id m o w a known weighed = ground (arith, known, weighed)
