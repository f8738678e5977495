-- ===== src/Tests/Requests.antt =====
-- Single requests.
use calamari.Prelude.{◌≡◌, refl, arith, none, some, [], ◌∷◌}
use calamari.Prelude.Dict.{insert, lookup}
use calamari.Exec.{ok}
use calamari.Types.{osd_map, pools_by_id, by_pool}
use calamari.Types.Text.{not_creating, split, codes}
use calamari.UserRequest.{Request, submitted, new_pg_creating, Running, submit, on_map}
use calamari.UserRequest.Lifecycle.{Advances, on_map-Advances}
use calamari.UserRequest.Growth.{Obedient}
use calamari.UserRequest.Rounds.{Finished, planned, rounds}
use calamari.UserRequest.Splitting.{pool, first_sent, pg_creation-completes}
use calamari.Tests.Samples.{always, answered, data_pool, osds, pgs, request}

obedient : Obedient 3 5 osds pgs
unfolding pools_by_id by_pool lookup insert not_creating split
obedient = record {
  pools = λ g. (3, data_pool g) ∷ [];
  pool = data_pool;
  states = λ g. (codes "active+clean", g) ∷ [];
  by_pools = λ g. (3, (codes "active+clean", g) ∷ []) ∷ [];
  has_pools = λ g. refl;
  has_pool = λ g. refl;
  has_pg_num = λ g. refl;
  has_epoch = λ g. refl;
  has_by_pool = λ g. refl;
  has_states = λ g. refl;
  all_created = λ g. ground arith;
}

-- From 8 placement groups to 20, by blocks of 8: the goals are 16 and 20.
pg_creation-completes_example :
    (r : Request) × (new_pg_creating 9 1 [] 3 "data" 20 8 20 8 ≡ ok r)
    × (let (result, w) = submit always 100 2 (record { self = r; sent = [] }) in
        (result ≡ ok tt)
        × Finished
            (planned
              (pool always 100 5 osds pgs answered 9 1 3 20 8 20 8 2 "data" [] [])
              1
              16
              (first_sent always 100 5 osds pgs answered 9 1 3 20 8 20 8 2 "data" [] []))
            (rounds always 100 5 osds pgs 3 w))
pg_creation-completes_example =
    pg_creation-completes always 100 5 osds pgs answered 9 1 3 20 8 20 8 2 "data" [] [] 1
      (omega arith) obedient (omega arith) (omega arith)

abbrev waiting : Running
waiting = record { self = request 9 submitted none (some 5); sent = [] }

on_map-Advances_example : Advances waiting.self (on_map always 100 osd_map (osds 8) waiting).1.self
on_map-Advances_example = on_map-Advances always 100 osd_map (osds 8) waiting refl
