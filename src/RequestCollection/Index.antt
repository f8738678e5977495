-- ===== src/RequestCollection/Index.antt =====
-- The collection's state, and the context manager that keeps the index of jobs up to date. Both
-- dicts of the program hold references to the same objects: the objects are kept by request id,
-- and the index of jobs leads to request ids.
use calamari.Prelude.{
  ℕ, Bool, true, false, Option, none, some, List, [], ◌∷◌, ◌==◌, not, if◌then◌else◌,
}
use calamari.Prelude.Dict.{Dict, lookup, insert, erase, contains}
use calamari.Exec.{ok, err, Exec, or_raise, ◌>>=◌, ◌>>◌, modify, when, key_error}
use calamari.Types.{Job}
use calamari.SyncObjects.{SyncObjects}
use calamari.UserRequest.{Request, Message, Method}

-- What the Eventer is told, for the request of an id.
pub data Event : Type 0 where
  started succeeded : ℕ → Event
  failed : ℕ → Message → Event

pub record Collection : Type 0 where
  pub by_request_id : Dict Request
  pub by_jid : Dict ℕ
  pub sent : List Job
  pub events : List Event
  pub clusters : Dict SyncObjects  -- `self._manager.clusters`, the maps of each cluster

-- The collection of a new manager.
abbrev pub new_collection : Collection
new_collection = record { by_request_id = []; by_jid = []; sent = []; events = []; clusters = [] }

abbrev pub Operation : Type 0
Operation = Exec Collection (Unit {0})

-- `for x in xs: f(x)`
unfoldable pub for_each {ℓ} : {A : Type ℓ} → List A → (A → Operation) → Operation
for_each [] f = λ c. (ok tt, c)
for_each (x ∷ xs) f = f x >> for_each xs f

-- The object that a reference leads to.
abbrev pub request_of : ℕ → Exec Collection Request
request_of id c = or_raise key_error (lookup id c.by_request_id) c

abbrev pub run_on : ℕ → Method (Unit {0}) → Request → Operation
run_on id m r c =
    let (result, w) = m (record { self = r; sent = c.sent }) in
    (result, record c { by_request_id = insert id w.self c.by_request_id; sent = w.sent })

-- A method call on the object of an id, which is changed in place also where the method raises.
unfoldable pub on_request : ℕ → Method (Unit {0}) → Operation
on_request id m = request_of id >>= run_on id m

abbrev pub same_jid : Option ℕ → Option ℕ → Bool
same_jid none none = true
same_jid (some a) (some b) = a == b
same_jid _ _ = false

-- `if old_jid: del self._by_jid[old_jid]`
abbrev pub drop_jid : Option ℕ → Operation
drop_jid none c = (ok tt, c)
drop_jid (some j) c =
    if contains j c.by_jid
    then (ok tt, record c { by_jid = erase j c.by_jid })
    else (err key_error, c)

-- `if request.jid: self._by_jid[request.jid] = request`
abbrev pub add_jid : ℕ → Option ℕ → Operation
add_jid id none = λ c. (ok tt, c)
add_jid id (some j) = modify (λ c. record c { by_jid = insert j id c.by_jid })

unfoldable pub reindex : ℕ → Option ℕ → Option ℕ → Operation
reindex id old new = when (not (same_jid new old)) (drop_jid old >> add_jid id new)

-- `with self._update_index(request): body`. Where the body raises, the rest is not run.
unfoldable pub update_index : ℕ → Operation → Operation
update_index id body = do
  before ← request_of id
  body
  after ← request_of id
  reindex id before.jid after.jid
