-- ===== src/CephCluster/Osds.antt =====
-- The commands on OSDs, flags and CRUSH nodes: `set_osd_state`, `set_osd_weight`, `set_osd_flags`,
-- `crush_add`, `crush_add_bucket`, `crush_move`, `crush_remove`, `crush_reweight`.
use calamari.Prelude.{
  ℕ, zero, suc, Bool, false, not, ◌||◌, Option, none, some, List, [], ◌∷◌, ◌++◌, ◌==◌,
  if◌then◌else◌,
}
use calamari.Prelude.Int.{ℤ, pos, negsuc}
use calamari.Exec.{
  ok, err, gets, ◌>>=◌, ◌>>◌, modify, when, or_raise, index_error, type_error, value_error,
}
use calamari.ServerMonitor.{same_int}
use calamari.CephCluster.PgMonitor.{Osd, Bucket, Node, Step, update_health, pg_monitor, same_bool}
use calamari.CephCluster.Pools.{raise_epoch}

-- `[x for x in xs if test(x)][0]`, and an assignment to its items
module _ {A : Type 0} where
  abbrev pub first : (A → Bool) → List A → Option A
  first test [] = none
  first test (x ∷ xs) = if test x then some x else first test xs

  abbrev pub change_first : (A → Bool) → (A → A) → List A → List A
  change_first test f [] = []
  change_first test f (x ∷ xs) =
      let rest = change_first test f xs in if test x then f x ∷ xs else x ∷ rest

  -- The last element that passes, which a loop without `break` finds
  abbrev pub last : (A → Bool) → List A → Option A
  last test [] = none
  last test (x ∷ xs) = elim (last test xs) [
    | some y ↦ some y
    | none ↦ if test x then some x else none
  ]

  abbrev any_of : (A → Bool) → List A → Bool
  any_of test [] = false
  any_of test (x ∷ xs) = test x || any_of test xs

  -- An assignment to the items of that last element
  abbrev pub change_last : (A → Bool) → (A → A) → List A → List A
  change_last test f [] = []
  change_last test f (x ∷ xs) =
      let rest = change_last test f xs in
      if any_of test xs then x ∷ rest else (if test x then f x ∷ xs else x ∷ rest)

  -- `list.remove(x)`, for the x that `last` finds
  abbrev pub drop_last : (A → Bool) → List A → List A
  drop_last test [] = []
  drop_last test (x ∷ xs) =
      let rest = drop_last test xs in
      if any_of test xs then x ∷ rest else (if test x then xs else x ∷ rest)

abbrev pub changes : Option Bool → Bool → Bool
changes none old = false
changes (some b) old = not (same_bool old b)

abbrev pub or_old : Option Bool → Bool → Bool
or_old none old = old
or_old (some b) old = b

abbrev pub has_osd : ℕ → Osd → Bool
has_osd osd_id o = o.osd == osd_id

module _ (hash : ℕ × ℕ → ℕ → ℕ) where
  abbrev pub after_change : Step (Unit {0})
  after_change = do pg_monitor hash 0 0; modify update_health

  unfoldable pub set_osd_state : ℕ → (up osd_in : Option Bool) → Step (Unit {0})
  unfolding pg_monitor update_health
  set_osd_state osd_id up osd_in = do
    found ← gets (λ c. first (has_osd osd_id) c.osds)
    osd ← or_raise index_error found
    when (changes up osd.up || changes osd_in osd.is_in) (do
      modify (λ c. record c {
        osds =
            change_first (has_osd osd_id)
              (λ o. record o { up = or_old up o.up; is_in = or_old osd_in o.is_in }) c.osds;
      })
      modify raise_epoch
      after_change)

  unfoldable pub set_osd_weight : ℤ → ℕ → Step (Unit {0})
  unfolding pg_monitor update_health
  set_osd_weight osd_id weight = do
    found ← gets (λ c. first (λ (n : Node). same_int n.id osd_id) c.nodes)
    node ← or_raise index_error found
    modify (λ c. record c {
      nodes =
          change_first (λ (n : Node). same_int n.id osd_id)
            (λ n. record n { reweight = some weight }) c.nodes;
    })
    modify raise_epoch
    after_change

unfoldable pub set_osd_flags : ℕ → Step (Unit {0})
set_osd_flags osd_flags = modify (λ c. raise_epoch (record c { flags = osd_flags }))

-- `crush_add` and `crush_reweight`
unfoldable pub crush_add : Step (Unit {0})
crush_add = modify raise_epoch

unfoldable pub crush_reweight : Step (Unit {0})
crush_reweight = modify raise_epoch

abbrev pub pred : ℤ → ℤ
pred (pos zero) = negsuc zero
pred (pos (suc n)) = pos n
pred (negsuc n) = negsuc (suc n)

unfoldable pub crush_add_bucket : (name type_name : ℕ) → Step (Unit {0})
crush_add_bucket name type_name = modify (λ c. raise_epoch (record c {
  buckets =
      c.buckets
      ++ record { id = c.crush_node_id; name = name; items = []; type_name = type_name } ∷ [];
  nodes =
      c.nodes
      ++ record {
        id = c.crush_node_id;
        name = name;
        children = [];
        node_type = type_name;
        reweight = none;
      }
        ∷ [];
  crush_node_id = pred c.crush_node_id;
}))

abbrev pub named : ℕ → Bucket → Bool
named name b = b.name == name

abbrev pub with_id : ℤ → Node → Bool
with_id id n = same_int n.id id

-- `_find_crush_node`: the last bucket of that name, and the last node with its id. Without a bucket,
-- the loop over the nodes looks for an item of None.
unfoldable pub find_crush_node : ℕ → Step (Option Bucket × Option Node)
find_crush_node name c = elim (last (named name) c.buckets) [
  | some b ↦ (ok (some b, last (with_id b.id) c.nodes), c)
  | none ↦ elim c.nodes [ [] ↦ (ok (none, none), c) | _ ∷ _ ↦ (err type_error, c) ]
]

-- The items of the parent's bucket and then the children of its node; None has neither.
unfoldable pub crush_move : (parent_name name : ℕ) → Step (Unit {0})
unfolding find_crush_node
crush_move parent_name name = do
  (parent_bucket, parent_node) ← find_crush_node parent_name
  (child_bucket, child_node) ← find_crush_node name
  parent ← or_raise type_error parent_bucket
  child ← or_raise type_error child_bucket
  modify (λ c. record c {
    buckets =
        change_last (named parent_name)
          (λ (b : Bucket). record b { items = b.items ++ child.id ∷ [] }) c.buckets;
  })
  p ← or_raise type_error parent_node
  n ← or_raise type_error child_node
  modify (λ c. record c {
    nodes =
        change_last (with_id p.id) (λ (x : Node). record x { children = x.children ++ n.id ∷ [] })
          c.nodes;
  })
  modify raise_epoch

-- `_remove_crush_node`, where `list.remove(None)` raises a ValueError
unfoldable pub crush_remove : (name : ℕ) → Step (Unit {0})
unfolding find_crush_node
crush_remove name = do
  (bucket, node) ← find_crush_node name
  b ← or_raise value_error bucket
  modify (λ c. record c { buckets = drop_last (named name) c.buckets })
  n ← or_raise value_error node
  modify (λ c. record c { nodes = drop_last (with_id n.id) c.nodes })
  modify raise_epoch
