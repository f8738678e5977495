-- ===== src/Tests/Tree.antt =====
-- A CRUSH tree of a host with one OSD.
use calamari.Prelude.{
  ℕ, ◌≡◌, ◌↔◌, refl, sym, Bool-cases, none, some, List, [], ◌∷◌, inl, inr, arith,
}
use calamari.Prelude.Int.{pos, negsuc}
use calamari.Prelude.Keyed.{find, put}
use calamari.Exec.{ok}
use calamari.ServerMonitor.{Node, int_eq, nodes_by_id, find_descendants, is_osd}
use calamari.ServerMonitor.Descending.{IsTree, HasChildren, IsFound, Below, find_descendants_lem}

abbrev host_node : Node
host_node = record { id = negsuc 0; node_type = 1; name = 50; children = some (pos 1 ∷ []) }

-- An OSD's node has no key `children`.
abbrev osd_node : Node
osd_node = record { id = pos 1; node_type = 0; name = 61; children = none }

abbrev nodes : List Node
nodes = host_node ∷ osd_node ∷ []

abbrev rank : Node → ℕ
rank n = n.node_type

host_node-HasChildren : HasChildren (is_osd 1 0 5) rank (nodes_by_id nodes) host_node
unfolding find put
host_node-HasChildren = inr (refl, pos 1 ∷ [], refl, ((osd_node, refl, ground arith), tt))

nodes-IsTree : IsTree (is_osd 1 0 5) rank (nodes_by_id nodes)
unfolding find put
nodes-IsTree c n e = elim (Bool-cases (int_eq.same (negsuc 0) c)) [
  | inl u ↦ rw (sym (some_eq host_node n (rw (u) at e))) host_node-HasChildren
  | inr u ↦ elim (Bool-cases (int_eq.same (pos 1) c)) [
    | inl w ↦ rw (sym (some_eq osd_node n (rw (u, w) at e))) (inl refl)
    | inr w ↦ ground arith
  ]
]
  where
    some_eq : (a b : Node) → some a ≡ some b → a ≡ b
    some_eq a b h = ground arith

find_descendants_lem_example :
    (l : List Node) × (find_descendants 5 (nodes_by_id nodes) (is_osd 1 0 5) host_node ≡ ok l)
    × ((k : Node) → IsFound k l ↔ Below (nodes_by_id nodes) (is_osd 1 0 5) host_node k)
find_descendants_lem_example =
    find_descendants_lem rank (nodes_by_id nodes) (is_osd 1 0 5) 5 host_node nodes-IsTree
      host_node-HasChildren (ground arith)
