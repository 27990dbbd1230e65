-- ===== src/Examples/Documents.antt =====
-- Examples for the time limits and for the values in the responses.
use database_router.Shared.{some, none, Option, [], ◌∷◌}
use database_router.Shared.Action.{ok}
use database_router.Shared.Int.{pos}
use database_router.Text.{Text, codes}
use database_router.Value.{Fields, field, no_fields, string_value}
use database_router.Driver.{Driver}
use database_router.Service.Mongo
use database_router.Service.Redis
use database_router.Service.Backends.{new_postgres_service, new_mongo_service}
use database_router.Server.Postgres
use database_router.Server.Mongo.{find_documents}
use database_router.Server.Scalars.{RowsAreScalar, responses-RowsAreScalar}
use database_router.Examples.World.{Keys, driver, runtime, manager, fresh, ann}

abbrev shop : Text
shop = codes "shop"

abbrev carts : Text
carts = codes "carts"

abbrev document : Option Fields
document = some (field (codes "name") (string_value (codes "ann")) no_fields)

-- A cursor over one document.
abbrev found : Driver Keys
found = record driver { cursor_all = λ ctx h w. (ok (ann ∷ []), w) }

responses-RowsAreScalar_example :
    RowsAreScalar
      (λ resp. resp.rows)
      (Postgres.execute_query runtime
        (new_postgres_service found runtime manager)
        none
        (codes "SELECT * FROM people")
        shop
        fresh).0
    × RowsAreScalar
        (λ resp. resp.rows)
        (Postgres.select_data runtime
          (new_postgres_service found runtime manager)
          none
          shop
          carts
          (pos 0)
          fresh).0
    × RowsAreScalar
        (λ resp. resp.documents)
        (find_documents runtime (new_mongo_service found runtime manager) none shop carts fresh).0
responses-RowsAreScalar_example =
    responses-RowsAreScalar runtime none fresh (new_postgres_service found runtime manager)
      (new_mongo_service found runtime manager) (codes "SELECT * FROM people") shop carts (pos 0)
