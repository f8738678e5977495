-- ===== src/CrushNodeRequestFactory/Placing.antt =====
-- What the commands do to an OSD's place, and the errors of `update` and `delete`.
use calamari.Prelude.{
  ◌||◌, Bool, ◌⊎◌, arith, ℕ, ◌≡◌, ◌∙◌, ap, refl, true, false, Option, none, some, List, [], ◌∷◌,
  ◌++◌, ◌==◌, All, if◌then◌else◌, is_empty, inl, inr, Bool-cases,
}
use calamari.Prelude.Int.{ℤ, pos, negsuc}
use calamari.Prelude.Keyed.{find}
use calamari.Exec.{ok}
use calamari.ServerMonitor.{same_int, same_int_iff, int_eq, osd_type, get_by_service}
use calamari.CrushNodeRequestFactory.{
  Item, Bucket, Source, Attributes, CrushCommand, add_child, add_items, remove_child, remove_items,
  not_among, has_item, create, update, is_changed, get_hostname_where_osd_runs, add_bucket_command,
  remove_bucket_command, move_bucket_command, remove_osd, reweight_osd, add_osd, put_location,
}

-- An OSD's bucket and its weight there
pub record Place : Type 0 where
  pub parent_type : ℕ
  pub parent_name : ℕ
  pub weight : ℕ

abbrev reweighted : ℕ → Option Place → Option Place
reweighted w none = none
reweighted w (some p) = some (record p { weight = w })

-- What Ceph does on a command to the OSD `n`: a new place has no weight yet.
abbrev pub apply : ℕ → CrushCommand → Option Place → Option Place
apply n (remove_osd id) p = if id == n then none else p
apply n (reweight_osd id w) p = if id == n then reweighted w p else p
apply n (add_osd id t parent) p =
    if id == n then some (record { parent_type = t; parent_name = parent; weight = 0 }) else p
apply n _ p = p

abbrev pub apply_all : ℕ → List CrushCommand → Option Place → Option Place
apply_all n [] p = p
apply_all n (c ∷ cs) p = apply_all n cs (apply n c p)

-- The place that an item asks for, and the one that a list asks for, of which the last item counts
abbrev pub asked : ℕ → (name bucket_type weight : ℕ) → ℤ → Option Place → Option Place
asked n name t w (pos id) p =
    if id == n then some (record { parent_type = t; parent_name = name; weight = w }) else p
asked n name t w (negsuc k) p = p

abbrev pub wanted : ℕ → (name bucket_type : ℕ) → List Item → Option Place → Option Place
wanted n name t [] p = p
wanted n name t (i ∷ items) p = wanted n name t items (asked n name t i.weight i.id p)

-- A bucket of the map, or an OSD whose server is known
abbrev pub IsKnown : Source → ℤ → Type 0
IsKnown s (pos id) =
    (server : ℕ) × (get_by_service s.monitor
        (record { fsid = s.fsid; service_type = osd_type; service_id = id })
      ≡ some server)
IsKnown s (negsuc n) = (b : Bucket) × (find (negsuc n) s.crush_node_by_id ≡ some b)

apply_all-append :
    (n : ℕ) (k l : List CrushCommand) (p : Option Place)
    → apply_all n (k ++ l) p ≡ apply_all n l (apply_all n k p)
apply_all-append n [] l p = refl
apply_all-append n (c ∷ k) l p = apply_all-append n k l (apply n c p)

abbrev osd_commands : (hostname name t w id : ℕ) → List CrushCommand
osd_commands hostname name t w id =
    reweight_osd id 0
    ∷ remove_osd id
    ∷ add_osd id t name
    ∷ put_location id t name hostname
    ∷ reweight_osd id w
    ∷ []

osd_commands_lem :
    (n hostname name t w id : ℕ) (p : Option Place)
    → apply_all n (osd_commands hostname name t w id) p ≡ asked n name t w (pos id) p
osd_commands_lem n hostname name t w id p = elim (Bool-cases (id == n)) [
  | inl e ↦ rw (e) refl
  | inr e ↦ rw (e) refl
]

add_child_lem :
    (n name t w : ℕ) (id : ℤ) (s : Source)
    → IsKnown s id
    → (cs : List CrushCommand) × (add_child name t w id s ≡ (ok cs, s))
      × ((p : Option Place) → apply_all n cs p ≡ asked n name t w id p)
unfolding add_child get_hostname_where_osd_runs
add_child_lem n name t w (pos id) s (server, e) =
    let hostname = (s.monitor.server_at server).hostname in
    (
      osd_commands hostname name t w id,
      rw (e, get_hostname_where_osd_runs) refl,
      osd_commands_lem n hostname name t w id,
    )
add_child_lem n name t w (negsuc k) s (b, e) =
    (move_bucket_command b.name t name ∷ [], rw (e, add_child) refl, λ p. refl)

add_items_lem :
    (n name t : ℕ) (items : List Item) (s : Source)
    → All (λ i. IsKnown s i.id) items
    → (cs : List CrushCommand) × (add_items name t items s ≡ (ok cs, s))
      × ((p : Option Place) → apply_all n cs p ≡ wanted n name t items p)
add_items_lem n name t [] s a = ([], refl, λ p. refl)
add_items_lem n name t (i ∷ items) s (k, a) =
    let (cs, e, f) = add_child_lem n name t i.weight i.id s k in
    let (ds, g, h) = add_items_lem n name t items s a in
    (
      cs ++ ds,
      rw (e, g) refl,
      λ p.
          apply_all-append n cs ds p
          ∙ ap (apply_all n ds) (f p)
          ∙ h (asked n name t i.weight i.id p),
    )

-- Where each item is a known bucket or an OSD whose server is known, `create` raises nothing, and its
-- commands, applied in order, put each OSD that is an item into the new bucket with the item's weight
-- (that of the last item with its id), and leave the places of all other OSDs.
pub create_lem :
    (n : ℕ) (a : Attributes) (s : Source)
    → All (λ i. IsKnown s i.id) a.items
    → (cs : List CrushCommand) × (create a s ≡ (ok cs, s))
      × ((p : Option Place) → apply_all n cs p ≡ wanted n a.name a.bucket_type a.items p)
unfolding create
create_lem n a s k =
    let (cs, e, f) = add_items_lem n a.name a.bucket_type a.items s k in
    (add_bucket_command a.name a.bucket_type ∷ cs, rw (e, create) refl, f)

-- An OSD, or a known bucket without items
abbrev pub IsRemovable : Source → ℤ → Type 0
IsRemovable s (pos id) = Unit {0}
IsRemovable s (negsuc n) =
    (b : Bucket) × (find (negsuc n) s.crush_node_by_id ≡ some b) × (is_empty b.items ≡ true)

abbrev pub displaced_by : ℕ → ℤ → Option Place → Option Place
displaced_by n (pos id) p = if id == n then none else p
displaced_by n (negsuc k) p = p

-- The place after the items are removed
abbrev pub displaced : ℕ → List Item → Option Place → Option Place
displaced n [] p = p
displaced n (i ∷ items) p = displaced n items (displaced_by n i.id p)

remove_child_lem :
    (n : ℕ) (id : ℤ) (s : Source)
    → IsRemovable s id
    → (cs : List CrushCommand) × (remove_child id s ≡ (ok cs, s))
      × ((p : Option Place) → apply_all n cs p ≡ displaced_by n id p)
unfolding remove_child
remove_child_lem n (pos id) s k = (reweight_osd id 0 ∷ remove_osd id ∷ [], refl, λ p. placed p)
  where
    placed :
        (p : Option Place)
        → apply_all n (reweight_osd id 0 ∷ remove_osd id ∷ []) p ≡ displaced_by n (pos id) p
    placed p = elim (Bool-cases (id == n)) [ inl e ↦ rw (e) refl | inr e ↦ rw (e) refl ]
remove_child_lem n (negsuc j) s (b, e, f) =
    (remove_bucket_command b.name ∷ [], rw (e, f, remove_child) refl, λ p. refl)

remove_items_lem :
    (n : ℕ) (items : List Item) (s : Source)
    → All (λ i. IsRemovable s i.id) items
    → (cs : List CrushCommand) × (remove_items items s ≡ (ok cs, s))
      × ((p : Option Place) → apply_all n cs p ≡ displaced n items p)
remove_items_lem n [] s a = ([], refl, λ p. refl)
remove_items_lem n (i ∷ items) s (k, a) =
    let (cs, e, f) = remove_child_lem n i.id s k in
    let (ds, g, h) = remove_items_lem n items s a in
    (
      cs ++ ds,
      rw (e, g) refl,
      λ p. apply_all-append n cs ds p ∙ ap (apply_all n ds) (f p) ∙ h (displaced_by n i.id p),
    )

-- Whether a list has an item of the OSD `n`
abbrev is_of : ℕ → ℤ → Bool
is_of n (pos id) = id == n
is_of n (negsuc k) = false

abbrev pub holds : ℕ → List Item → Bool
holds n [] = false
holds n (i ∷ items) = is_of n i.id || holds n items

-- An item is one of a list's.
abbrev pub IsIn : Item → List Item → Type 0
IsIn i [] = ⊥
IsIn i (j ∷ items) = (i ≡ j) ⊎ IsIn i items

has_item-IsIn : (i : Item) (items : List Item) → IsIn i items → has_item i items ≡ true
has_item-IsIn i [] h = elim h [ ]
has_item-IsIn i (j ∷ items) (inl e) =
    let ids : same_int i.id j.id ≡ true = (same_int_iff i.id j.id).1 (ap (λ (x : Item). x.id) e) in
    let weights : i.weight ≡ j.weight = ap (λ (x : Item). x.weight) e in
    let positions : i.position ≡ j.position = ap (λ (x : Item). x.position) e in
    ground (arith, ids, weights, positions)
has_item-IsIn i (j ∷ items) (inr h) = ground (arith, has_item-IsIn i items h)

holds-has_item :
    (n : ℕ) (i : Item) (items : List Item)
    → has_item i items ≡ true
    → is_of n i.id ≡ true
    → holds n items ≡ true
holds-has_item n i [] h e = absurd (ground (arith, h))
holds-has_item n i (j ∷ items) h e = elim (Bool-cases (same_int i.id j.id)) [
  | inl same ↦
      let k : i.id ≡ j.id = (same_int_iff i.id j.id).0 same in
      let there : is_of n j.id ≡ true = rw k at e in ground (arith, there)
  | inr other ↦ ground (arith, holds-has_item n i items, e, h, other)
]

displaced_by-is_of :
    (n : ℕ) (id : ℤ) (p : Option Place) → displaced_by n id p ≡ (if is_of n id then none else p)
displaced_by-is_of n (pos id) p = refl
displaced_by-is_of n (negsuc k) p = refl

displaced-none : (n : ℕ) (items : List Item) → displaced n items none ≡ none
displaced-none n [] = refl
displaced-none n (i ∷ items) =
    let here : displaced_by n i.id none ≡ none = displaced_by-is_of n i.id none ∙ ground arith in
    ap (displaced n items) here ∙ displaced-none n items

-- An OSD that no given item is of leaves with its item.
displaced-not_among :
    (n : ℕ) (old items : List Item) (p : Option Place)
    → holds n items ≡ false
    → displaced n (not_among old items) p ≡ (if holds n old then none else p)
displaced-not_among n [] items p h = refl
displaced-not_among n (i ∷ old) items p h = elim (Bool-cases (has_item i items)) [
  | inl kept ↦
      let other : is_of n i.id ≡ false = ground (arith, holds-has_item n i items kept, h) in
      rw (kept, other) (displaced-not_among n old items p h)
  | inr gone ↦ elim (Bool-cases (is_of n i.id)) [
    | inl this ↦
        let out : displaced_by n i.id p ≡ none = displaced_by-is_of n i.id p ∙ rw (this) refl in
        rw (gone, this)
          (ap (displaced n (not_among old items)) out ∙ displaced-none n (not_among old items))
    | inr other ↦
        let here : displaced_by n i.id p ≡ p = displaced_by-is_of n i.id p ∙ rw (other) refl in
        rw (gone, other)
          (ap (displaced n (not_among old items)) here ∙ displaced-not_among n old items p h)
  ]
]

asked-is_of :
    (n name t w : ℕ) (id : ℤ) (p : Option Place)
    → asked n name t w id p ≡ (
        if is_of n id then some (record { parent_type = t; parent_name = name; weight = w }) else p)
asked-is_of n name t w (pos id) p = refl
asked-is_of n name t w (negsuc k) p = refl

wanted-holds :
    (n name t : ℕ) (items : List Item) (p q : Option Place)
    → holds n items ≡ true
    → wanted n name t items p ≡ wanted n name t items q
wanted-holds n name t [] p q h = absurd (ground (arith, h))
wanted-holds n name t (i ∷ items) p q h = elim (Bool-cases (is_of n i.id)) [
  | inl this ↦
      let same : asked n name t i.weight i.id p ≡ asked n name t i.weight i.id q =
        rw (asked-is_of n name t i.weight i.id p, asked-is_of n name t i.weight i.id q, this)
          refl in
      ap (wanted n name t items) same
  | inr other ↦ wanted-holds n name t items _ _ (ground (arith, h, other))
]

wanted-absent :
    (n name t : ℕ) (items : List Item) (p : Option Place)
    → holds n items ≡ false
    → wanted n name t items p ≡ p
wanted-absent n name t [] p h = refl
wanted-absent n name t (i ∷ items) p h =
    let other : is_of n i.id ≡ false = ground (arith, h) in
    let rest : holds n items ≡ false = ground (arith, h) in
    let same : asked n name t i.weight i.id p ≡ p =
      asked-is_of n name t i.weight i.id p ∙ rw (other) refl in
    ap (wanted n name t items) same ∙ wanted-absent n name t items p rest

not_among-IsRemovable :
    (s : Source) (old items : List Item)
    → All (λ i. IsIn i items ⊎ IsRemovable s i.id) old
    → All (λ i. IsRemovable s i.id) (not_among old items)
not_among-IsRemovable s [] items a = tt
not_among-IsRemovable s (i ∷ old) items (inl there, a) =
    rw (has_item-IsIn i items there) (not_among-IsRemovable s old items a)
not_among-IsRemovable s (i ∷ old) items (inr r, a) = elim (Bool-cases (has_item i items)) [
  | inl e ↦ rw e (not_among-IsRemovable s old items a)
  | inr e ↦ rw e (r, not_among-IsRemovable s old items a)
]

-- Where a known node keeps its name and its type, each of its items is among those given or is an OSD or
-- an empty bucket, and the items given are known, `update` raises nothing. After its commands, applied in
-- order, an OSD that a given item is of is in the node with the weight of the last such item, an OSD that
-- only an old item of the node is of has no place, and every other OSD is where it was.
pub update_lem :
    (n : ℕ) (node_id : ℤ) (a : Attributes) (s : Source) (current : Bucket)
    → find node_id s.crush_node_by_id ≡ some current
    → is_changed a current ≡ false
    → All (λ i. IsIn i a.items ⊎ IsRemovable s i.id) current.items
    → All (λ i. IsKnown s i.id) a.items
    → (cs : List CrushCommand) × (update node_id a s ≡ (ok cs, s))
      × ((p : Option Place)
          → apply_all n cs p ≡ (
              if holds n a.items
              then wanted n a.name a.bucket_type a.items none
              else if holds n current.items
              then none
              else p))
unfolding update
update_lem n node_id a s current known same kept k =
    let out = not_among current.items a.items in
    let (cs, e, f) =
      remove_items_lem n out s (not_among-IsRemovable s current.items a.items kept) in
    let (ds, g, h) = add_items_lem n a.name a.bucket_type a.items s k in
    (
      cs ++ (ds ++ []),
      rw (known, same, e, g, update) refl,
      λ p.
          apply_all-append n cs (ds ++ []) p
          ∙ apply_all-append n ds [] (apply_all n cs p)
          ∙ ap (apply_all n ds) (f p)
          ∙ h (displaced n out p)
          ∙ settle p,
    )
  where
    settle :
        (p : Option Place)
        → wanted n a.name a.bucket_type a.items (displaced n (not_among current.items a.items) p)
          ≡ (if holds n a.items
              then wanted n a.name a.bucket_type a.items none
              else if holds n current.items
              then none
              else p)
    settle p = elim (Bool-cases (holds n a.items)) [
      | inl e ↦ rw (e) (wanted-holds n a.name a.bucket_type a.items _ none e)
      | inr e ↦ rw (e) (
          wanted-absent n a.name a.bucket_type a.items _ e
          ∙ displaced-not_among n current.items a.items p e)
    ]
