-- ===== src/Tests/Rpc.antt =====
-- The calls on requests: cancelling one, and listing two.
use calamari.Prelude.{◌↔◌, ℕ, ◌*◌, ◌≡◌, ◌⊎◌, none, some, List, [], ◌∷◌}
use calamari.Prelude.Dict.{lookup, values}
use calamari.Exec.{ok, err, not_found}
use calamari.UserRequest.{Request, submitted, complete}
use calamari.RequestCollection.{Collection, new_collection}
use calamari.RpcInterface.{Dump, Filter, dump, cancel_request, list_requests}
use calamari.RpcInterface.Cancelled.{ended, cancel_request_lem}
use calamari.RpcInterface.Listed.{IsSorted, IsListed, IsDumped, list_requests_lem}
use calamari.Tests.Samples.{request}
use calamari.Tests.Collections.{working, working-IsIndexed}

-- Later requests have larger ids.
abbrev requested_at : ℕ → ℕ
requested_at id = id * 10

cancel_request_lem_example :
    let (result, c') = cancel_request requested_at 120 9 working in
    ((lookup 9 working.by_request_id ≡ none) × (result ≡ err not_found) × (c' ≡ working))
    ⊎ ((r : Request) × (lookup 9 working.by_request_id ≡ some r)
        × (result ≡ ok (dump requested_at (ended 120 r)))
        × (lookup 9 c'.by_request_id ≡ some (ended 120 r)))
cancel_request_lem_example = cancel_request_lem requested_at 120 9 working working-IsIndexed

abbrev three : Collection
three = record new_collection {
  by_request_id =
      (7, request 7 submitted none none)
      ∷ (8, request 8 complete none none)
      ∷ (9, request 9 submitted none none)
      ∷ [];
}

abbrev of_submitted : Filter
of_submitted = record { state = some submitted; fsid = none }

list_requests_lem_example :
    (l : List Dump) × (list_requests requested_at of_submitted three ≡ (ok l, three))
    × IsSorted l
    × ((d : Dump)
        → IsListed d l ↔ IsDumped requested_at of_submitted (values three.by_request_id) d)
list_requests_lem_example = list_requests_lem requested_at of_submitted three
