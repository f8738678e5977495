-- ===== src/RpcInterface/Listed.antt =====
-- What `list_requests` gives: the requests that pass the filter, the newest first.
use calamari.Prelude.{
  ap, ◌↔◌, ◌⊎◌, true, Option, none, some, ℕ, ◌≤◌, ◌≡◌, refl, ◌∙◌, Bool-cases, List, [], ◌∷◌, ltb,
  arith, inl, inr,
}
use calamari.Prelude.Dict.{values}
use calamari.Exec.{ok}
use calamari.UserRequest.{State, submitted, fresh, complete, Request}
use calamari.RequestCollection.{Collection}
use calamari.RpcInterface.{
  Dump, Filter, passes, same_state, has_state, has_fsid, dump, place, sorted, dumps, list_requests,
}

-- None was requested later than this, and each no later than the one before it.
abbrev pub IsBefore : ℕ → List Dump → Type 0
IsBefore n [] = Unit
IsBefore n (d ∷ ds) = d.requested_at ≤ n

abbrev pub IsSorted : List Dump → Type 0
IsSorted [] = Unit
IsSorted (d ∷ ds) = IsBefore d.requested_at ds × IsSorted ds

-- A dump of a list, and a request of one
abbrev pub IsListed : Dump → List Dump → Type 0
IsListed d [] = ⊥
IsListed d (x ∷ xs) = (d ≡ x) ⊎ IsListed d xs

abbrev pub IsStored : Request → List Request → Type 0
IsStored r [] = ⊥
IsStored r (x ∷ xs) = (r ≡ x) ⊎ IsStored r xs

-- The request has the state and the FSID that a filter gives.
abbrev pub IsAsked : Filter → Request → Type 0
IsAsked f r =
    ((x : State) → f.state ≡ some x → r.state ≡ x) × ((y : ℕ) → f.fsid ≡ some y → r.fsid ≡ some y)

place-IsBefore :
    (n : ℕ) (d : Dump) (ds : List Dump)
    → d.requested_at ≤ n
    → IsBefore n ds
    → IsBefore n (place d ds)
unfolding place
place-IsBefore n d [] le h = le
place-IsBefore n d (x ∷ xs) le h = elim (Bool-cases (ltb d.requested_at x.requested_at)) [
  | inl earlier ↦ rw earlier h
  | inr later ↦ rw later le
]

place-IsSorted : (d : Dump) (ds : List Dump) → IsSorted ds → IsSorted (place d ds)
unfolding place
place-IsSorted d [] h = (tt, tt)
place-IsSorted d (x ∷ xs) h = elim (Bool-cases (ltb d.requested_at x.requested_at)) [
  | inl earlier ↦
      let le : d.requested_at ≤ x.requested_at = ground (arith, earlier) in
      rw earlier (place-IsBefore x.requested_at d xs le h.0, place-IsSorted d xs h.1)
  | inr later ↦ let le : x.requested_at ≤ d.requested_at = ground (arith, later) in rw later (le, h)
]

place-IsListed : (d x : Dump) (ds : List Dump) → IsListed x (place d ds) ↔ IsListed x (d ∷ ds)
unfolding place
place-IsListed d x [] = ((λ h. h), λ h. h)
place-IsListed d x (y ∷ ys) = elim (Bool-cases (ltb d.requested_at y.requested_at)) [
  | inr later ↦ rw (later) ((λ h. h), λ h. h)
  | inl earlier ↦
      let (there, back) = place-IsListed d x ys in
      rw (earlier) (
        λ h. elim h [
          | inl e ↦ inr (inl e)
          | inr k ↦ elim (there k) [ inl e ↦ inl e | inr l ↦ inr (inr l) ]
        ],
        λ h. elim h [
          | inl e ↦ inr (back (inl e))
          | inr k ↦ elim k [ inl e ↦ inl e | inr l ↦ inr (back (inr l)) ]
        ],
      )
]

sorted-IsSorted : (ds : List Dump) → IsSorted (sorted ds)
unfolding sorted
sorted-IsSorted [] = tt
sorted-IsSorted (d ∷ ds) = place-IsSorted d (sorted ds) (sorted-IsSorted ds)

sorted-IsListed : (x : Dump) (ds : List Dump) → IsListed x (sorted ds) ↔ IsListed x ds
unfolding sorted
sorted-IsListed x [] = ((λ h. h), λ h. h)
sorted-IsListed x (d ∷ ds) =
    let (there, back) = sorted-IsListed x ds in
    let (out, into) = place-IsListed d x (sorted ds) in
    (
      λ h. elim (out h) [ inl e ↦ inl e | inr k ↦ inr (there k) ],
      λ h. into (elim h [ inl e ↦ inl e | inr k ↦ inr (back k) ]),
    )

same_state_iff : (a b : State) → (same_state a b ≡ true) ↔ (a ≡ b)
same_state_iff fresh fresh = ((λ h. refl), λ h. refl)
same_state_iff submitted submitted = ((λ h. refl), λ h. refl)
same_state_iff complete complete = ((λ h. refl), λ h. refl)
same_state_iff fresh submitted = ground arith
same_state_iff fresh complete = ground arith
same_state_iff submitted fresh = ground arith
same_state_iff submitted complete = ground arith
same_state_iff complete fresh = ground arith
same_state_iff complete submitted = ground arith

has_state-asked :
    (s : Option State) (r : Request)
    → (has_state s r ≡ true) ↔ ((x : State) → s ≡ some x → r.state ≡ x)
has_state-asked none r = ((λ h x e. absurd (ground (arith, e))), λ h. refl)
has_state-asked (some y) r =
    let (there, back) = same_state_iff r.state y in
    (λ h x e. let k : y ≡ x = ground (arith, e) in there h ∙ k, λ h. back (h y refl))

has_fsid-asked : (s g : Option ℕ) → (has_fsid s g ≡ true) ↔ ((y : ℕ) → s ≡ some y → g ≡ some y)
has_fsid-asked none g = ((λ h y e. absurd (ground (arith, e))), λ h. refl)
has_fsid-asked (some x) none =
    ((λ h y e. absurd (ground (arith, h))), λ h. absurd (ground (arith, h x refl)))
has_fsid-asked (some x) (some z) =
    (λ h y e. ground (arith, h, e), λ h. let k : some z ≡ some x = h x refl in ground (arith, k))

passes-IsAsked : (f : Filter) (r : Request) → (passes f r ≡ true) ↔ IsAsked f r
passes-IsAsked f r =
    let (a, b) = has_state-asked f.state r in
    let (c, d) = has_fsid-asked f.fsid r.fsid in
    (
      λ h. (a (ground (arith, h)), c (ground (arith, h))),
      λ h. let e = b h.0 in let g = d h.1 in ground (arith, e, g),
    )

module _ (requested_at : ℕ → ℕ) where
  -- The dump of a stored request that is asked for
  abbrev pub IsDumped : Filter → List Request → Dump → Type 0
  IsDumped f rs d = (r : Request) × IsStored r rs × IsAsked f r × (d ≡ dump requested_at r)

  dumps-IsDumped :
      (f : Filter) (rs : List Request) (d : Dump)
      → IsListed d (dumps requested_at f rs) ↔ IsDumped f rs d
  dumps-IsDumped f [] d = ((λ h. elim h [ ]), λ h. elim h.1 [ ])
  dumps-IsDumped f (r ∷ rs) d =
      let (there, back) = dumps-IsDumped f rs d in
      let (asked, passing) = passes-IsAsked f r in
      elim (Bool-cases (passes f r)) [
        | inl yes₁ ↦ rw (yes₁) (
          λ h. elim h [
            | inl e ↦ (r, inl refl, asked yes₁, e)
            | inr k ↦ let (q, s, w, e) = there k in (q, inr s, w, e)
          ],
          λ (q, s, w, e). elim s [
            | inl u ↦ inl (e ∙ ap (dump requested_at) u)
            | inr u ↦ inr (back (q, u, w, e))
          ],
        )
        | inr no₁ ↦ rw (no₁) (
          λ h. let (q, s, w, e) = there h in (q, inr s, w, e),
          λ (q, s, w, e). elim s [
            | inl u ↦
                let k : passes f r ≡ true = passing (rw u at w) in absurd (ground (arith, k, no₁))
            | inr u ↦ back (q, u, w, e)
          ],
        )
      ]

  -- The call returns and changes nothing. Its list is sorted by the time of the request, the newest
  -- first, and has the dumps of exactly those stored requests that have the state and the FSID that the
  -- filter gives.
  pub list_requests_lem :
      (f : Filter) (c : Collection)
      → (l : List Dump) × (list_requests requested_at f c ≡ (ok l, c))
        × IsSorted l
        × ((d : Dump) → IsListed d l ↔ IsDumped f (values c.by_request_id) d)
  unfolding list_requests
  list_requests_lem f c =
      let ds : List Dump = dumps requested_at f (values c.by_request_id) in
      (
        sorted ds,
        refl,
        sorted-IsSorted ds,
        λ d.
            let (a, b) = sorted-IsListed d ds in
            let (k, l) = dumps-IsDumped f (values c.by_request_id) d in
            ((λ h. k (a h)), λ h. b (l h)),
      )
