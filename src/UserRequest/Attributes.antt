-- ===== src/UserRequest/Attributes.antt =====
-- The attributes of a user request, and its construction.
use calamari.Prelude.{
  ℕ, String, Bool, true, false, Option, none, some, List, [], ◌∷◌, ◌++◌, ◌==◌, not, if◌then◌else◌,
}
use calamari.Exec.{Exception, Result, ok, err}
use calamari.Types.{Version, Arg, text, number, Command}
use calamari.UserRequest.PgProgress.{PgProgress, new_progress, goal}

-- `UserRequestBase.states`
pub data State : Type 0 where
  fresh submitted complete : State

-- `PgCreatingRequest._phase`
pub data Phase : Type 0 where
  jid_wait osd_map_wait pg_map_wait : Phase

-- What a job returned. A missing item of the dict is a KeyError where it is read; what is no dict
-- is a text, mostly an exception that salt has put into words.
pub record ReturnDict : Type 0 where
  pub error : Option Bool
  pub error_status : Option String
  pub osd_map_version : Option Version  -- result['versions']['osd_map']

pub data JobReturn : Type 0 where
  dict : ReturnDict → JobReturn
  other_return : String → JobReturn

-- `error_message`, a constructor for each text that the program puts together.
pub data Message : Type 0 where
  empty lost_contact cancelled pg_interrupted pg_failed : Message
  lost_server : (minion : ℕ) → Message
  internal_error : Exception → Message
  remote : String → Message
  pool_not_found : String → Message

pub record PoolCreation : Type 0 where
  pub awaiting_pgs : Bool
  pub pool_name : String
  pub pool_id : Option ℕ
  pub pg_count : Option ℕ

-- `post_create_commands` is `none` where the attribute is not set.
pub record PgCreation : Type 0 where
  pub pool_id : ℕ
  pub pool_name : String
  pub phase : Phase
  pub progress : PgProgress
  pub post_create_commands : Option (List Command)

pub data Class : Type 0 where
  rados : List Command → Class
  salt_request : String → List Arg → Class
  osd_map_modifying : List Command → Class
  pool_creating : List Command → PoolCreation → Class
  pg_creating : List Command → PgCreation → Class

pub record Request : Type 0 where
  pub id : ℕ
  pub fsid : Option ℕ
  pub minion_id : Option ℕ
  pub jid : Option ℕ
  pub state : State
  pub result : Option JobReturn
  pub error : Bool
  pub error_message : Message
  pub alive_at : Option ℕ
  pub completed_at : Option ℕ
  pub await_version : Version
  pub class : Class

abbrev pub is_submitted : Request → Bool
is_submitted r = elim (r.state) [ submitted ↦ true | _ ↦ false ]

abbrev pub is_completed : Request → Bool
is_completed r = elim (r.state) [ complete ↦ true | _ ↦ false ]

abbrev pub is_fresh : Request → Bool
is_fresh r = elim (r.state) [ fresh ↦ true | _ ↦ false ]

-- `UserRequestBase.__init__`; `id` is the new `uuid`.
unfoldable pub new_request : ℕ → Option ℕ → Class → Request
new_request id fsid class = record {
  id = id;
  fsid = fsid;
  minion_id = none;
  jid = none;
  state = fresh;
  result = none;
  error = false;
  error_message = empty;
  alive_at = none;
  completed_at = none;
  await_version = none;
  class = class;
}

unfoldable pub new_pool_creating : ℕ → ℕ → String → List Command → Request
unfolding new_request
new_pool_creating id fsid pool_name commands = new_request id (some fsid) (
    pool_creating commands
      (record { awaiting_pgs = false; pool_name = pool_name; pool_id = none; pg_count = none }))

-- `('osd pool set', {'pool': …, 'var': 'pg_num', 'val': …})`
abbrev pub set_pg_num : String → ℕ → Command
set_pg_num pool_name n =
    ("osd pool set", ("pool", text pool_name) ∷ ("var", text "pg_num") ∷ ("val", number n) ∷ [])

abbrev pub set_pgp_num : String → ℕ → Command
set_pgp_num pool_name n =
    ("osd pool set", ("pool", text pool_name) ∷ ("var", text "pgp_num") ∷ ("val", number n) ∷ [])

abbrev pg_creation : ℕ → ℕ → List Command → ℕ → String → ℕ → Bool → PgProgress → Request
pg_creation id fsid commands pool_id pool_name pgp_num grows p = new_request id (some fsid) (
    pg_creating (if grows then commands ++ set_pg_num pool_name (goal p) ∷ [] else commands)
      (record {
        pool_id = pool_id;
        pool_name = pool_name;
        phase = jid_wait;
        progress = p;
        post_create_commands = if grows then some (set_pgp_num pool_name pgp_num ∷ []) else none;
      }))

-- `PgCreatingRequest.__init__`, which raises where `PgProgress` does.
unfoldable pub new_pg_creating :
    ℕ → ℕ → List Command → ℕ → String → ℕ → (initial final block_size : ℕ) → Result Request
unfolding new_request new_progress
new_pg_creating id fsid commands pool_id pool_name pgp_num initial final block_size =
    elim (new_progress initial final block_size) [
      | ok p ↦
          ok (pg_creation id fsid commands pool_id pool_name pgp_num (not (initial == final)) p)
      | err e ↦ err e
    ]
