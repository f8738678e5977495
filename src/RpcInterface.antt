-- ===== src/RpcInterface.antt =====
-- cthulhu/cthulhu/manager/rpc.py: what the REST API calls. `Dispatch` leads the calls on the objects
-- of a cluster to its monitor; here are the calls on requests. `Cancelled` and `Listed` are proofs.
pub mod Dispatch
pub mod Listed
pub mod Cancelled
use calamari.Prelude.{
  ℕ, Bool, true, false, ◌&&◌, Option, none, some, List, [], ◌∷◌, ◌==◌, ltb, if◌then◌else◌,
}
use calamari.Prelude.Dict.{Dict, values}
use calamari.Exec.{Exception, Result, ok, err, Exec, pure, gets, ◌>>=◌, ◌>>◌, key_error, not_found}
use calamari.UserRequest.{State, submitted, fresh, complete, Message, Request}
use calamari.RequestCollection.{Collection, request_of, cancel}

-- `_dump_request`, without the texts of the headline and of the status
pub record Dump : Type 0 where
  pub id : ℕ
  pub state : State
  pub error : Bool
  pub error_message : Message
  pub requested_at : ℕ
  pub completed_at : Option ℕ

abbrev pub same_state : State → State → Bool
same_state fresh fresh = true
same_state submitted submitted = true
same_state complete complete = true
same_state _ _ = false

-- A filter's item is `none` where it is not given.
pub record Filter : Type 0 where
  pub state : Option State
  pub fsid : Option ℕ

abbrev pub has_state : Option State → Request → Bool
has_state none r = true
has_state (some x) r = same_state r.state x

abbrev pub has_fsid : Option ℕ → Option ℕ → Bool
has_fsid none fsid = true
has_fsid (some x) none = false
has_fsid (some x) (some y) = y == x

abbrev pub passes : Filter → Request → Bool
passes f r = has_state f.state r && has_fsid f.fsid r.fsid

-- `sorted(list, lambda a, b: cmp(b['requested_at'], a['requested_at']))`, which keeps the order of
-- those that were requested at the same time
unfoldable pub place : Dump → List Dump → List Dump
place d [] = d ∷ []
place d (x ∷ xs) =
    let rest = place d xs in if ltb d.requested_at x.requested_at then x ∷ rest else d ∷ x ∷ xs

unfoldable pub sorted : List Dump → List Dump
unfolding place
sorted [] = []
sorted (d ∷ ds) = place d (sorted ds)

-- `except KeyError: raise NotFound('request', request_id)`
abbrev pub or_not_found : {A : Type 0} → Exec Collection A → Exec Collection A
or_not_found m c =
    let (r, c') = m c in
    elim r [ ok a ↦ (ok a, c') | err key_error ↦ (err not_found, c') | err e ↦ (err e, c') ]

-- When each request was made, which its object keeps
module _ (requested_at : ℕ → ℕ) where
  abbrev pub dump : Request → Dump
  dump r = record {
    id = r.id;
    state = r.state;
    error = r.error;
    error_message = r.error_message;
    requested_at = requested_at r.id;
    completed_at = r.completed_at;
  }

  unfoldable pub get_request : ℕ → Exec Collection Dump
  get_request id = or_not_found (do r ← request_of id; pure (dump r))

  unfoldable pub cancel_request : ℕ → ℕ → Exec Collection Dump
  unfolding get_request
  cancel_request t id = or_not_found (do cancel t id; get_request id)

  abbrev pub dumps : Filter → List Request → List Dump
  dumps f [] = []
  dumps f (r ∷ rs) = let rest = dumps f rs in if passes f r then dump r ∷ rest else rest

  unfoldable pub list_requests : Filter → Exec Collection (List Dump)
  unfolding sorted
  list_requests f = gets (λ c. sorted (dumps f (values c.by_request_id)))
