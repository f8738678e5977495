-- ===== src/RequestCollection/Timed.antt =====
-- `tick`, `on_tick_response`, `cancel`, `fail_all` and `submit`. `t` is what `now()` reads, in
-- seconds.
use calamari.Prelude.{
  ℕ, ◌-◌, Bool, false, ◌||◌, Option, none, some, List, [], ◌∷◌, ltb, is_empty, add, if◌then◌else◌,
}
use calamari.Prelude.Dict.{Dict, lookup, insert, values}
use calamari.Exec.{ok, err, Exec, ◌>>=◌, ◌>>◌, gets, modify, type_error}
use calamari.Types.{Job, saltutil_running, kill_job, Salt}
use calamari.UserRequest.{
  Request, is_submitted, is_completed, lost_contact, cancelled, lost_server, update, set_error,
  clear_jid, complete_request, submit,
}
use calamari.RequestCollection.Index.{
  started, Collection, Operation, for_each, request_of, on_request, same_jid, update_index,
}

-- `get_all(SUBMITTED)`, as references.
unfoldable pub submitted_ids : Dict Request → List ℕ
submitted_ids [] = []
submitted_ids ((id, r) ∷ d) =
    let rest = submitted_ids d in if is_submitted r then id ∷ rest else rest

-- TICK_PERIOD * 3
abbrev pub stale_after : ℕ
stale_after = 60

-- `_now - request.alive_at > timedelta(seconds=TICK_PERIOD * 3)`
abbrev pub is_stale : ℕ → Option ℕ → Exec Collection Bool
is_stale t none c = (err type_error, c)
is_stale t (some at) c = (ok (ltb stale_after (t - at)), c)

-- The first loop of `tick`: the set of the stale requests.
unfoldable pub find_stale : ℕ → List ℕ → List ℕ → Exec Collection (List ℕ)
find_stale t [] stale = λ c. (ok stale, c)
find_stale t (id ∷ ids) stale = do
  r ← request_of id
  is_late ← is_stale t r.alive_at
  find_stale t ids (if is_late then add id stale else stale)

-- The body of the second loop.
unfoldable pub expire : ℕ → ℕ → Operation
expire t id =
    update_index id (on_request id (do set_error lost_contact; clear_jid; complete_request t))

abbrev pub has_minion : Option ℕ → List (Option ℕ) → Bool
has_minion m [] = false
has_minion m (x ∷ xs) = same_jid m x || has_minion m xs

-- The third loop: the minions of the jobs in flight.
unfoldable pub find_minions : List ℕ → List (Option ℕ) → Exec Collection (List (Option ℕ))
find_minions [] found = λ c. (ok found, c)
find_minions (id ∷ ids) found = do
  r ← request_of id
  find_minions ids (if has_minion r.minion_id found then found else r.minion_id ∷ found)

abbrev pub start : Job → Operation
start job = modify (λ c. record c { sent = job ∷ c.sent })

-- Pings the minions; whether that could be published makes no difference.
unfoldable pub ping : Operation
ping = do
  ids ← gets (λ c. values c.by_jid)
  minions ← find_minions ids []
  if is_empty minions then (λ c. (ok tt, c)) else start (saltutil_running minions)

unfoldable pub tick : ℕ → Operation
tick t = do
  ids ← gets (λ c. values c.by_jid)
  if is_empty ids
      then (λ c. (ok tt, c))
      else (do stale ← find_stale t ids []; for_each stale (expire t); ping)

-- The body of `on_tick_response`'s loop, for one job that a minion reports as running.
unfoldable pub heard_of : ℕ → ℕ → Operation
heard_of t jid c = elim (lookup jid c.by_jid) [
  | none ↦ (ok tt, c)
  | some id ↦ on_request id (update (λ r. record r { alive_at = some t })) c
]

unfoldable pub on_tick_response : ℕ → List ℕ → Operation
on_tick_response t jids = for_each jids (heard_of t)

abbrev pub kill : Option ℕ → Option ℕ → Operation
kill minion none = λ c. (ok tt, c)
kill minion (some j) = start (kill_job minion j)

unfoldable pub cancel : ℕ → ℕ → Operation
cancel t id = do
  r ← request_of id
  if is_completed r
      then (λ c. (ok tt, c))
      else update_index id (do
        on_request id (do clear_jid; set_error cancelled; complete_request t)
        kill r.minion_id r.jid)

-- The body of `fail_all`'s loop.
unfoldable pub give_up : ℕ → ℕ → ℕ → Operation
give_up t minion id =
    update_index id
      (on_request id (do set_error (lost_server minion); clear_jid; complete_request t))

unfoldable pub fail_all : ℕ → ℕ → Operation
fail_all t minion = do
  ids ← gets (λ c. submitted_ids c.by_request_id)
  for_each ids (give_up t minion)

abbrev store_request : Request → Operation
store_request r = modify (λ c. record c { by_request_id = insert r.id r c.by_request_id })

abbrev store_jid : ℕ → Option ℕ → Operation
store_jid id none = λ c. (ok tt, c)
store_jid id (some j) = modify (λ c. record c { by_jid = insert j id c.by_jid })

-- What `submit` does with the submitted object.
unfoldable pub file_request : Request → Operation
file_request r = do
  store_request r
  store_jid r.id r.jid
  modify (λ c. record c { events = started r.id ∷ c.events })

-- `submit(request, minion)`
unfoldable pub submit_request : Salt → ℕ → Request → ℕ → Operation
submit_request salt t r minion c =
    let (result, w) = submit salt t minion (record { self = r; sent = c.sent }) in
    let c' : Collection = record c { sent = w.sent } in
    elim result [ ok _ ↦ file_request w.self c' | err e ↦ (err e, c') ]
