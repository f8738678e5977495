-- ===== src/ServerMonitor/Tree.antt =====
-- `get_hostname_to_osds`: which OSDs the CRUSH tree puts under which host. The names of the types
-- `host` and `osd` come from the configuration.
use calamari.Prelude.{
  ℕ, zero, suc, Bool, true, false, ◌↔◌, ◌≡◌, none, some, List, [], ◌∷◌, ◌++◌, ◌==◌, if◌then◌else◌,
  arith, Option,
}
use calamari.Prelude.Int.{ℤ, pos, negsuc}
use calamari.Prelude.Dict.{Dict, lookup, insert}
use calamari.Prelude.Keyed.{Eq, Map, find, put}
use calamari.Exec.{Result, ok, err, key_error, runtime_error}

abbrev pub same_int : ℤ → ℤ → Bool
same_int (pos m) (pos n) = m == n
same_int (negsuc m) (negsuc n) = m == n
same_int _ _ = false

pub same_int_iff : (a b : ℤ) → (same_int a b ≡ true) ↔ (a ≡ b)
same_int_iff (pos m) (pos n) = ground arith
same_int_iff (pos m) (negsuc n) = ground arith
same_int_iff (negsuc m) (pos n) = ground arith
same_int_iff (negsuc m) (negsuc n) = ground arith

instance abbrev pub int_eq : Eq ℤ
int_eq = record { same = same_int; same_iff = same_int_iff }

-- A node of `osd_map['tree']['nodes']`; an OSD's node has the OSD's number as its id.
pub record Node : Type 0 where
  pub id : ℤ
  pub node_type : ℕ
  pub name : ℕ
  pub children : Option (List ℤ)

-- An item of `osd_map['osds']`
pub record Osd : Type 0 where
  pub osd : ℕ
  pub up : Bool

-- What `on_osd_map` reads of the map's data
pub record OsdData : Type 0 where
  pub fsid : ℕ
  pub nodes : List Node
  pub osds : List Osd

abbrev pub nodes_by_id : List Node → Map ℤ Node
nodes_by_id nodes = go [] nodes
  where
    go : Map ℤ Node → List Node → Map ℤ Node
    go m [] = m
    go m (n ∷ ns) = go (put n.id n m) ns

-- `found.extend(find_descendants(nodes_by_id[child_id], fn))` for each child
abbrev pub extend_all : (Node → Result (List Node)) → Map ℤ Node → List ℤ → Result (List Node)
extend_all search by_id [] = ok []
extend_all search by_id (c ∷ cs) = elim (find c by_id) [
  | none ↦ err key_error
  | some child ↦ elim (search child) [
    | err e ↦ err e
    | ok found ↦ elim (extend_all search by_id cs) [ err e ↦ err e | ok rest ↦ ok (found ++ rest) ]
  ]
]

-- `cursor['children']`: a node without the key is a KeyError.
abbrev pub or_key_error : Option (List ℤ) → (List ℤ → Result (List Node)) → Result (List Node)
or_key_error none f = err key_error
or_key_error (some children) f = f children

-- `find_descendants`, on the interpreter's limit of nested calls.
unfoldable pub find_descendants : ℕ → Map ℤ Node → (Node → Bool) → Node → Result (List Node)
find_descendants zero by_id fn cursor = err runtime_error
find_descendants (suc limit) by_id fn cursor =
    let search = find_descendants limit by_id fn in
    if fn cursor then ok (cursor ∷ []) else or_key_error cursor.children (extend_all search by_id)

abbrev pub put_all : ℕ → List Node → Map ℤ ℕ → Map ℤ ℕ
put_all host [] m = m
put_all host (osd ∷ osds) m = put_all host osds (put osd.id host m)

module _ (crush_host_type crush_osd_type limit : ℕ) where
  abbrev pub is_osd : Node → Bool
  is_osd n = n.node_type == crush_osd_type

  -- `osd_id_to_host`
  unfoldable pub osd_id_to_host : Map ℤ Node → List Node → Map ℤ ℕ → Result (Map ℤ ℕ)
  osd_id_to_host by_id [] hosts = ok hosts
  osd_id_to_host by_id (node ∷ nodes) hosts =
      if node.node_type == crush_host_type
      then elim (find_descendants limit by_id is_osd node) [
        | err e ↦ err e
        | ok osds ↦ osd_id_to_host by_id nodes (put_all node.name osds hosts)
      ]
      else osd_id_to_host by_id nodes hosts

-- `host_to_osd[host].append(osd)`
abbrev pub append_to : ℕ → Osd → Dict (List Osd) → Dict (List Osd)
append_to host osd d = elim (lookup host d) [
  | none ↦ insert host (osd ∷ []) d
  | some l ↦ insert host (l ++ osd ∷ []) d
]

-- `host_to_osd`; an OSD that CRUSH has under no host is left out.
unfoldable pub group : Map ℤ ℕ → List Osd → Dict (List Osd) → Dict (List Osd)
group hosts [] d = d
group hosts (osd ∷ osds) d =
    group hosts osds
      (elim (find (pos osd.osd) hosts) [ none ↦ d | some host ↦ append_to host osd d ])

unfoldable pub get_hostname_to_osds : ℕ → ℕ → ℕ → OsdData → Result (Dict (List Osd))
get_hostname_to_osds crush_host_type crush_osd_type limit m =
    elim (osd_id_to_host crush_host_type crush_osd_type limit (nodes_by_id m.nodes) m.nodes []) [
      | err e ↦ err e
      | ok hosts ↦ ok (group hosts m.osds [])
    ]
