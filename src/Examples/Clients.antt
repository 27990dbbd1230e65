-- ===== src/Examples/Clients.antt =====
-- Examples for the client that keeps applications apart.
use database_router.Shared.{◌≡◌, refl, true, none, List, [], ◌∷◌, ◌++◌, All, arith}
use database_router.Shared.Action.{Result, ok, err}
use database_router.Shared.Int.{pos}
use database_router.Text.{Text, codes}
use database_router.Value.{Row, Fields, empty_row, entry, int, str}
use database_router.Service.Results.{QueryResult}
use database_router.Service.Postgres.{execute_query, insert_data}
use database_router.Service.Postgres.Sends.{Statements, IsInsert}
use database_router.Core.Inserts.{sent, pg_insert-Sends}
use database_router.Core.Cells.{Shows}
use database_router.Core.Queries.{pg_query-Shows}
use database_router.Fault.{message}
use database_router.Core.{Failure, Router, named_client}
use database_router.Core.Operations.{redis_set, redis_get, pg_query, pg_insert}
use database_router.Core.EndToEnd.{router_of, redis_get-redis_set, redis_get-hides_errors}
use database_router.Examples.World.{
  Keys, driver, driver-IsLawfulRedis, runtime, manager, fresh, ann,
}

abbrev app : Text
app = codes "shop"

abbrev router : Router Keys
router = router_of driver runtime manager none

abbrev describe : Failure → Text
describe e = []

abbrev new_struct : Row → Result Text Fields
new_struct row = err (codes "invalid type")

redis_get-redis_set_example :
    (redis_get runtime describe new_struct
      (named_client app router)
      (codes "cart")
      (redis_set runtime describe new_struct
        (named_client app router)
        (codes "cart")
        (codes "3")
        (pos 60)
        fresh).1).0
    ≡ ok (codes "3")
unfolding redis_set named_client database_router.Server.Redis.set_value
    database_router.Service.Redis.set_value
redis_get-redis_set_example =
    redis_get-redis_set driver runtime describe new_struct manager none fresh app (codes "cart")
      (codes "3") (pos 60) driver-IsLawfulRedis (ground arith) refl

redis_get-hides_errors_example :
    (redis_get runtime describe new_struct (named_client app router) (codes "cart") fresh).0 ≡ ok []
unfolding database_router.Examples.World.value_of
redis_get-hides_errors_example =
    redis_get-hides_errors driver runtime describe new_struct manager none fresh app 3
      (codes "cart") (message (codes "redis: nil")) refl refl

-- The rows of the world that scan.
abbrev people : QueryResult
people = record {
  columns = codes "id" ∷ codes "name" ∷ [];
  rows =
      entry (codes "id") (int (pos 1)) (entry (codes "name") (str (codes "ann")) empty_row)
      ∷ entry (codes "id") (int (pos 2)) (entry (codes "name") (str (codes "bob")) empty_row)
      ∷ [];
  rows_affected = pos 2;
  is_select = true;
}

selected :
    (execute_query driver runtime manager none
      (codes "SELECT * FROM people")
      (app ++ codes "_pg")
      fresh).0
    ≡ ok people
unfolding execute_query database_router.Manager.get_postgres_connection database_router.Text.text_eq
    database_router.Text.has_prefix database_router.Text.trim_space database_router.Text.to_upper
    database_router.Value.assign database_router.Service.Postgres.is_select_query
    database_router.Service.Results.collect_rows
selected = refl

pg_query-Shows_example :
    (out : List Row) × ((pg_query runtime describe new_struct
        (named_client app router)
        (codes "SELECT * FROM people")
        fresh).0
      ≡ ok out)
    × Shows runtime people.rows out
pg_query-Shows_example =
    pg_query-Shows driver runtime describe new_struct manager none fresh app
      (codes "SELECT * FROM people") people selected refl

pg_insert-Sends_example :
    All
      (Statements (IsInsert (codes "people") (sent runtime ann)))
      (pg_insert runtime describe new_struct
        (named_client app router)
        (codes "people")
        ann
        fresh).1.calls
    × ((id : Text)
        → (insert_data driver runtime manager none
            (app ++ codes "_pg")
            (codes "people")
            (sent runtime ann)
            fresh).0
          ≡ ok id
        → (pg_insert runtime describe new_struct
            (named_client app router)
            (codes "people")
            ann
            fresh).0
          ≡ ok id)
pg_insert-Sends_example =
    pg_insert-Sends driver runtime describe new_struct manager none [] app (codes "people") ann
