-- ===== src/RpcInterface/Cancelled.antt =====
-- What `cancel_request` gives.
use calamari.Prelude.{
  ℕ, ◌≡◌, ◌⊎◌, refl, ap, sym, ◌∙◌, Option, Option-cases, none, some, inl, inr, arith,
}
use calamari.Prelude.Dict.{lookup}
use calamari.Exec.{Result, ok, err, key_error, not_found}
use calamari.UserRequest.{Request, fresh, submitted, complete, State}
use calamari.RequestCollection.{Collection, cancel}
use calamari.RequestCollection.Local.{lookup-insert_self}
use calamari.RequestCollection.Failing.{IsIndexed}
use calamari.RequestCollection.Cancelling.{cancel_of, cancel_spec, cancel_eq}
use calamari.RpcInterface.{dump, get_request, cancel_request}

-- A request after it was cancelled: one that was complete stays as it is.
abbrev pub ended : ℕ → Request → Request
ended t r = elim (r.state) [ complete ↦ r | _ ↦ cancel_of t r ]

ended-lookup :
    (t id : ℕ) (c : Collection) (r : Request)
    → lookup id c.by_request_id ≡ some r
    → ((cancel_spec t id c (some r)).0 ≡ ok tt)
      × (lookup id (cancel_spec t id c (some r)).1.by_request_id ≡ some (ended t r))
ended-lookup t id c r e = go r.state refl
  where
    go :
        (s : State)
        → r.state ≡ s
        → ((cancel_spec t id c (some r)).0 ≡ ok tt)
          × (lookup id (cancel_spec t id c (some r)).1.by_request_id ≡ some (ended t r))
    go fresh s = rw s (refl, lookup-insert_self id (cancel_of t r) c.by_request_id)
    go submitted s = rw s (refl, lookup-insert_self id (cancel_of t r) c.by_request_id)
    go complete s =
        let same : ended t r ≡ r = ground (arith, s) in
        simp s (refl, e ∙ ap {B = Option Request} some (sym same))

module _ (requested_at : ℕ → ℕ) (t id : ℕ) (c : Collection) (i : IsIndexed c) where
  -- Where running jobs are indexed: for an unknown request the call raises NotFound and changes nothing;
  -- for any other it returns the request as it is stored afterwards, cancelled if it was not complete.
  pub cancel_request_lem :
      let (result, c') = cancel_request requested_at t id c in
      ((lookup id c.by_request_id ≡ none) × (result ≡ err not_found) × (c' ≡ c))
      ⊎ ((r : Request) × (lookup id c.by_request_id ≡ some r)
          × (result ≡ ok (dump requested_at (ended t r)))
          × (lookup id c'.by_request_id ≡ some (ended t r)))
  unfolding cancel_request get_request
  cancel_request_lem =
      let spec = cancel_eq t id c i in
      let result = ap {B = Result (Unit {0})} (λ (x : Result (Unit {0}) × Collection). x.0) spec in
      let after = ap {B = Collection} (λ (x : Result (Unit {0}) × Collection). x.1) spec in
      elim (Option-cases (lookup id c.by_request_id)) [
        | inl e ↦
            let raised : (cancel t id c).0 ≡ err key_error = rw e at result in
            let kept : (cancel t id c).1 ≡ c = rw e at after in
            inl (e, ground (arith, raised), ground (arith, raised, kept))
        | inr (r, e) ↦
            let (returned, stored) = ended-lookup t id c r e in
            let good : (cancel t id c).0 ≡ ok tt = rw e at result ∙ returned in
            let found : lookup id (cancel t id c).1.by_request_id ≡ some (ended t r) =
              ap {B = Option Request} (λ (x : Collection). lookup id x.by_request_id)
                (rw e at after)
              ∙ stored in
            inr (r, e, ground (arith, good, found), ground (arith, good, found))
      ]
