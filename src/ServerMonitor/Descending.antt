-- ===== src/ServerMonitor/Descending.antt =====
-- What the search of `get_hostname_to_osds` finds in the CRUSH tree.
use calamari.Prelude.{
  ℕ, zero, suc, ◌≡◌, ◌<◌, ◌⊎◌, ◌↔◌, refl, sym, ◌∙◌, ap, Bool, true, false, some, List, [], ◌∷◌,
  ◌++◌, All, inl, inr, arith,
}
use calamari.Prelude.Int.{ℤ}
use calamari.Prelude.Keyed.{Map, find}
use calamari.Exec.{Result, ok}
use calamari.ServerMonitor.Tree.{int_eq, Node, extend_all, find_descendants}

abbrev pub IsFound : Node → List Node → Type 0
IsFound k [] = ⊥
IsFound k (n ∷ ns) = (k ≡ n) ⊎ IsFound k ns

abbrev pub IsChild : ℤ → List ℤ → Type 0
IsChild c [] = ⊥
IsChild c (d ∷ cs) = (c ≡ d) ⊎ IsChild c cs

-- A node that passes the test, with none that passes above it on the way from where the search begins
pub data Below (by_id : Map ℤ Node) (fn : Node → Bool) : Node → Node → Type 0 where
  itself : {n : Node} → fn n ≡ true → Below by_id fn n n
  beneath :
      {n k : Node} (m : Node) (c : ℤ) (cs : List ℤ)
      → fn n ≡ false
      → n.children ≡ some cs
      → IsChild c cs
      → find c by_id ≡ some m
      → Below by_id fn m k
      → Below by_id fn n k

-- A node that does not pass has its key, and each child is there, with a smaller rank.
abbrev pub HasChildren : (Node → Bool) → (Node → ℕ) → Map ℤ Node → Node → Type 0
HasChildren fn rank by_id n =
    (fn n ≡ true)
    ⊎ ((fn n ≡ false)
        × (cs : List ℤ) × (n.children ≡ some cs)
        × All (λ c. (m : Node) × (find c by_id ≡ some m) × (rank m < rank n)) cs)

-- No node is below itself, and no child is missing.
abbrev pub IsTree : (Node → Bool) → (Node → ℕ) → Map ℤ Node → Type 0
IsTree fn rank by_id = (c : ℤ) (n : Node) → find c by_id ≡ some n → HasChildren fn rank by_id n

-- A list with exactly the nodes that are to be found below `n`
abbrev pub Finds : Map ℤ Node → (Node → Bool) → Node → Result (List Node) → Type 0
Finds by_id fn n r = (l : List Node) × (r ≡ ok l) × ((k : Node) → IsFound k l ↔ Below by_id fn n k)

-- The same below one of the children
abbrev BelowOne : Map ℤ Node → (Node → Bool) → List ℤ → Node → Type 0
BelowOne by_id fn cs k =
    (c : ℤ) × (m : Node) × IsChild c cs × (find c by_id ≡ some m) × Below by_id fn m k

IsFound-append :
    (k : Node) (xs ys : List Node) → IsFound k (xs ++ ys) ↔ (IsFound k xs ⊎ IsFound k ys)
IsFound-append k [] ys = (inr, λ h. elim h [ inl e ↦ elim e [ ] | inr u ↦ u ])
IsFound-append k (x ∷ xs) ys =
    let (there, back) = IsFound-append k xs ys in
    (
      λ h. elim h [
        | inl e ↦ inl (inl e)
        | inr u ↦ elim (there u) [ inl v ↦ inl (inr v) | inr v ↦ inr v ]
      ],
      λ h. elim h [
        | inl v ↦ elim v [ inl e ↦ inl e | inr u ↦ inr (back (inl u)) ]
        | inr u ↦ inr (back (inr u))
      ],
    )

-- One child is there just once in the index.
same_node :
    (c d : ℤ) (m n : Node) (by_id : Map ℤ Node)
    → c ≡ d
    → find c by_id ≡ some m
    → find d by_id ≡ some n
    → m ≡ n
same_node c d m n by_id e u v =
    let w : some m ≡ some n = sym u ∙ ap (λ x. find x by_id) e ∙ v in ground (arith, w)

extend_all-Finds :
    (by_id : Map ℤ Node) (fn : Node → Bool) (visit : Node → Result (List Node)) (cs : List ℤ)
    → All (λ c. (m : Node) × (find c by_id ≡ some m) × Finds by_id fn m (visit m)) cs
    → (l : List Node) × (extend_all visit by_id cs ≡ ok l)
      × ((k : Node) → IsFound k l ↔ BelowOne by_id fn cs k)
extend_all-Finds by_id fn visit [] a =
    ([], refl, λ k. ((λ h. elim h [ ]), λ (c, m, i, e, b). elim i [ ]))
extend_all-Finds by_id fn visit (c ∷ cs) ((m, e, (l₁, u, f)), a) =
    let (l₂, w, g) = extend_all-Finds by_id fn visit cs a in
    (
      l₁ ++ l₂,
      rw (e, u, w, extend_all) refl,
      λ k.
          let (split, join) = IsFound-append k l₁ l₂ in
          (
            λ h. elim (split h) [
              | inl x ↦ (c, m, inl refl, e, (f k).0 x)
              | inr x ↦ let (d, n, i, v, b) = (g k).0 x in (d, n, inr i, v, b)
            ],
            λ (d, n, i, v, b). elim i [
              | inl same ↦
                  let q : n ≡ m = same_node d c n m by_id same v e in
                  join (inl ((f k).1 (rw q at b)))
              | inr other ↦ join (inr ((g k).1 (d, n, other, v, b)))
            ],
          ),
    )

-- Where every node in the index that does not pass the test has its children in the index with smaller
-- ranks, and so the node where the search begins: the search ends with a result as soon as the limit of
-- nested calls is above that node's rank, and it finds exactly the nodes below it that pass the test with
-- none that passes on the way to them.
pub find_descendants_lem :
    (rank : Node → ℕ) (by_id : Map ℤ Node) (fn : Node → Bool) (limit : ℕ) (n : Node)
    → IsTree fn rank by_id
    → HasChildren fn rank by_id n
    → rank n < limit
    → Finds by_id fn n (find_descendants limit by_id fn n)
unfolding find_descendants
find_descendants_lem rank by_id fn zero n tree own h = ground arith
find_descendants_lem rank by_id fn (suc limit) n tree (inl yes₁) h = (
  n ∷ [],
  rw (yes₁) refl,
  λ k. (λ x. elim x [ inl e ↦ same k e | inr v ↦ elim v [ ] ], λ b. only k b),
)
  where
    same : (k : Node) → k ≡ n → Below by_id fn n k
    same k e = rw (ap (λ x. Below by_id fn n x) e) (itself yes₁)

    only : (k : Node) → Below by_id fn n k → IsFound k (n ∷ [])
    only k (itself e) = inl refl
    only k (beneath m c cs no₁ e i f b) = absurd (ground (arith, yes₁, no₁))
find_descendants_lem rank by_id fn (suc limit) n tree (inr (no₁, cs, key, there)) h =
    let inner = λ (c : ℤ) (m : Node) (e : find c by_id ≡ some m) (r : rank m < limit).
      find_descendants_lem rank by_id fn limit m tree (tree c m e) r in
    let (l, w, g) =
      extend_all-Finds by_id fn (find_descendants limit by_id fn) cs (below inner cs there) in
    (
      l,
      rw (no₁, key) w,
      λ k. (
        λ x. let (c, m, i, e, b) = (g k).0 x in beneath m c cs no₁ key i e b,
        λ b. (g k).1 (one k b),
      ),
    )
  where
    one : (k : Node) → Below by_id fn n k → BelowOne by_id fn cs k
    one k (itself e) = absurd (ground (arith, e, no₁))
    one k (beneath m c ds no₂ key' i e b) =
        let w : some ds ≡ some cs = sym key' ∙ key in
        let same : ds ≡ cs = ground (arith, w) in (c, m, rw same at i, e, b)

    below :
        ((c : ℤ) (m : Node)
          → find c by_id ≡ some m
          → rank m < limit
          → Finds by_id fn m (find_descendants limit by_id fn m))
        → (ds : List ℤ) → All (λ c. (m : Node) × (find c by_id ≡ some m) × (rank m < rank n)) ds
        → All
            (λ c.
              (m : Node) × (find c by_id ≡ some m)
              × Finds by_id fn m (find_descendants limit by_id fn m))
            ds
    below inner [] a = tt
    below inner (d ∷ ds) ((m, e, r), a) =
        ((m, e, inner d m e (ground (arith, r, h))), below inner ds a)
