-- ===== src/CrushNodeRequestFactory.antt =====
-- cthulhu/cthulhu/manager/crush_node_request_factory.py: the commands that create, change and delete a
-- CRUSH node. A name is an opaque number, and a command a constructor with the arguments that its
-- texts are made of: `osd.3` is the OSD 3. The request that carries the commands is left out.
pub mod Placing
use calamari.Prelude.{
  ℕ, Bool, true, false, not, ◌&&◌, ◌||◌, Option, none, some, List, [], ◌∷◌, ◌++◌, ◌==◌,
  if◌then◌else◌, is_empty,
}
use calamari.Prelude.Int.{ℤ, pos, negsuc}
use calamari.Prelude.Keyed.{Map, find}
use calamari.Exec.{
  Result, Exec, ok, err, pure, gets, or_raise, require, ◌>>=◌, ◌>>◌, type_error, attribute_error,
  not_found, bucket_not_empty,
}
use calamari.ServerMonitor.{
  State as MonitorState, int_eq, same_int, ServiceId, osd_type, get_by_service,
}

-- An item of a bucket: a bucket below it if the id is negative, else an OSD
pub record Item : Type 0 where
  pub id : ℤ
  pub weight : ℕ
  pub position : ℕ

-- What is read of a node of the CRUSH map
pub record Bucket : Type 0 where
  pub name : ℕ
  pub type_name : ℕ
  pub items : List Item

-- A value that is read as a parent: a node, or a list of nodes, of which the names are kept.
pub data Parent : Type 0 where
  one_node : (name type_name : ℕ) → Parent
  node_list : (names : List ℕ) → Parent

-- `parent[key]`, of a node's name and type: a list is not indexed by a text, which is a TypeError.
abbrev pub name_and_type : Parent → Result (ℕ × ℕ)
name_and_type (one_node name type_name) = ok (name, type_name)
name_and_type (node_list names) = err type_error

-- The OSD map and the server monitor that the factory keeps. `OsdMap.parent_bucket_by_node_id` makes
-- lists of nodes.
pub record Source : Type 0 where
  pub crush_node_by_id : Map ℤ Bucket
  pub parent_bucket_by_node_id : Map ℤ Parent
  pub monitor : MonitorState
  pub fsid : ℕ

pub record Attributes : Type 0 where
  pub name : ℕ
  pub bucket_type : ℕ
  pub items : List Item

pub data CrushCommand : Type 0 where
  add_bucket_command : (name bucket_type : ℕ) → CrushCommand
  remove_bucket_command : (name : ℕ) → CrushCommand
  move_bucket_command : (name parent_type parent_name : ℕ) → CrushCommand
  remove_osd : (id : ℕ) → CrushCommand
  reweight_osd : (id weight : ℕ) → CrushCommand
  add_osd : (id parent_type parent_name : ℕ) → CrushCommand
  put_location : (id parent_type parent_name hostname : ℕ) → CrushCommand

abbrev pub Factory : Type 0 → Type 0
Factory A = Exec Source A

-- `OsdMap.get_tree_node`
abbrev pub get_tree_node : ℤ → Factory Bucket
get_tree_node id s = or_raise not_found (find id s.crush_node_by_id) s

-- `remove_bucket` of a node that is given: it must be empty.
abbrev pub remove_bucket : Bucket → Factory (List CrushCommand)
remove_bucket b = do
  require (is_empty b.items) bucket_not_empty
  pure (remove_bucket_command b.name ∷ [])

-- `move_osd`
abbrev pub move_osd : (hostname id parent_name parent_type : ℕ) → List CrushCommand
move_osd hostname id parent_name parent_type =
    add_osd id parent_type parent_name ∷ put_location id parent_type parent_name hostname ∷ []

-- `_get_hostname_where_osd_runs`, where an unknown server is None and has no hostname
unfoldable pub get_hostname_where_osd_runs : ℕ → Factory ℕ
get_hostname_where_osd_runs osd_id s =
    elim (get_by_service s.monitor
      (record { fsid = s.fsid; service_type = osd_type; service_id = osd_id })) [
        | none ↦ (err attribute_error, s)
        | some server ↦ (ok (s.monitor.server_at server).hostname, s)
      ]

unfoldable pub remove_child : ℤ → Factory (List CrushCommand)
remove_child (pos id) = pure (reweight_osd id 0 ∷ remove_osd id ∷ [])
remove_child (negsuc n) = get_tree_node (negsuc n) >>= remove_bucket

abbrev pub remove_item : Item → Factory (List CrushCommand)
remove_item item = remove_child item.id

unfoldable pub add_child : (name bucket_type weight : ℕ) → ℤ → Factory (List CrushCommand)
add_child name bucket_type weight (pos id) = do
  hostname ← get_hostname_where_osd_runs id
  pure (
      reweight_osd id 0 ∷ remove_osd id ∷ move_osd hostname id name bucket_type
      ++ reweight_osd id weight ∷ [])
add_child name bucket_type weight (negsuc n) = do
  child ← get_tree_node (negsuc n)
  pure (move_bucket_command child.name bucket_type name ∷ [])

abbrev pub add_item : (name bucket_type : ℕ) → Item → Factory (List CrushCommand)
add_item name bucket_type item = add_child name bucket_type item.weight item.id

-- `commands += f(item)` for each item
abbrev pub gather : (Item → Factory (List CrushCommand)) → List Item → Factory (List CrushCommand)
gather f [] s = (ok [], s)
gather f (i ∷ items) s = (do commands ← f i; rest ← gather f items; pure (commands ++ rest)) s

abbrev pub add_items : (name bucket_type : ℕ) → List Item → Factory (List CrushCommand)
add_items name bucket_type = gather (add_item name bucket_type)

abbrev pub remove_items : List Item → Factory (List CrushCommand)
remove_items = gather remove_item

unfoldable pub create : Attributes → Factory (List CrushCommand)
create a = do
  items ← add_items a.name a.bucket_type a.items
  pure (add_bucket_command a.name a.bucket_type ∷ items)

unfoldable pub delete : ℤ → Factory (List CrushCommand)
delete node_id = get_tree_node node_id >>= remove_bucket

-- Equality of two items
abbrev pub same_item : Item → Item → Bool
same_item a b = same_int a.id b.id && a.weight == b.weight && a.position == b.position

abbrev pub has_item : Item → List Item → Bool
has_item i [] = false
has_item i (j ∷ items) = same_item i j || has_item i items

-- `[item for item in current_node['items'] if item not in items]`
abbrev pub not_among : List Item → List Item → List Item
not_among [] items = []
not_among (i ∷ is₁) items =
    let rest = not_among is₁ items in if has_item i items then rest else i ∷ rest

abbrev pub is_changed : Attributes → Bucket → Bool
is_changed a current = not (a.name == current.name) || not (a.bucket_type == current.type_name)

-- The new bucket's commands
unfoldable pub replace : Attributes → Option Parent → Factory (List CrushCommand)
replace a none s = (ok (add_bucket_command a.name a.bucket_type ∷ []), s)
replace a (some parent) s = elim (name_and_type parent) [
  | err e ↦ (err e, s)
  | ok (name, type_name) ↦ (
    ok (add_bucket_command a.name a.bucket_type ∷ move_bucket_command a.name type_name name ∷ []),
    s,
  )
]

unfoldable pub update : ℤ → Attributes → Factory (List CrushCommand)
update node_id a = do
  current ← get_tree_node node_id
  parent ← gets (λ s. find node_id s.parent_bucket_by_node_id)
  before ← if is_changed a current then replace a parent else pure []
  removals ← remove_items (not_among current.items a.items)
  additions ← add_items a.name a.bucket_type a.items
  pure (
      before
      ++ (removals
          ++ (additions
              ++ (if is_changed a current then remove_bucket_command current.name ∷ [] else []))))
