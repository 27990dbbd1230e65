-- ===== src/Driver/Run.antt =====
-- The actions that call the drivers: each answers from the world, and is recorded in the trace.
use database_router.Shared.{ℕ, List, Option, none, some}
use database_router.Shared.Int.{ℤ}
use database_router.Shared.Action.{Result, ok, err, perform}
use database_router.Text.{Text}
use database_router.Value.{Value, Row}
use database_router.Fault.{GoError}
use database_router.Driver.{Driver, Go, RowSet, Affected, Counts}
use database_router.Driver.Calls.{Call, Ctx, Handle}

abbrev given : Result GoError Handle → Option Handle
given (ok h) = some h
given (err e) = none

module _ {W : Type 0} (d : Driver W) where
  abbrev pub sql_open : Text → Go W Handle
  sql_open dsn = perform (λ r. Call.sql_open dsn (given r)) (d.sql_open dsn)

  abbrev pub sql_ping : Ctx → Handle → Go W (Unit {0})
  sql_ping ctx db = perform (λ _. Call.sql_ping ctx db) (d.sql_ping ctx db)

  abbrev pub sql_query : Ctx → Handle → Text → List Value → Go W RowSet
  sql_query ctx db text args =
      perform (λ _. Call.sql_query ctx db text args) (d.sql_query ctx db text args)

  abbrev pub sql_query_row : Ctx → Handle → Text → List Value → Go W Value
  sql_query_row ctx db text args =
      perform (λ _. Call.sql_query_row ctx db text args) (d.sql_query_row ctx db text args)

  abbrev pub sql_exec : Ctx → Handle → Text → List Value → Go W Affected
  sql_exec ctx db text args =
      perform (λ _. Call.sql_exec ctx db text args) (d.sql_exec ctx db text args)

  abbrev pub sql_close : Handle → Go W (Unit {0})
  sql_close db = perform (λ _. Call.sql_close db) (d.sql_close db)

  abbrev pub mongo_connect : Ctx → Text → Go W Handle
  mongo_connect ctx uri = perform (λ _. Call.mongo_connect ctx uri) (d.mongo_connect ctx uri)

  abbrev pub mongo_ping : Ctx → Handle → Go W (Unit {0})
  mongo_ping ctx client = perform (λ _. Call.mongo_ping ctx client) (d.mongo_ping ctx client)

  abbrev pub mongo_disconnect : Ctx → Handle → Go W (Unit {0})
  mongo_disconnect ctx client =
      perform (λ _. Call.mongo_disconnect ctx client) (d.mongo_disconnect ctx client)

  abbrev pub list_database_names : Ctx → Handle → Go W (List Text)
  list_database_names ctx client =
      perform (λ _. Call.list_database_names ctx client) (d.list_database_names ctx client)

  abbrev pub list_collection_names : Ctx → Handle → Text → Go W (List Text)
  list_collection_names ctx client database =
      perform (λ _. Call.list_collection_names ctx client database)
        (d.list_collection_names ctx client database)

  abbrev pub insert_one : Ctx → Handle → Text → Text → Row → Go W Value
  insert_one ctx client database collection document =
      perform (λ _. Call.insert_one ctx client database collection document)
        (d.insert_one ctx client database collection document)

  abbrev pub find : Ctx → Handle → Text → Text → Go W Handle
  find ctx client database collection =
      perform (λ _. Call.find ctx client database collection)
        (d.find ctx client database collection)

  abbrev pub cursor_all : Ctx → Handle → Go W (List Row)
  cursor_all ctx cursor = perform (λ _. Call.cursor_all ctx cursor) (d.cursor_all ctx cursor)

  abbrev pub cursor_close : Ctx → Handle → Go W (Unit {0})
  cursor_close ctx cursor = perform (λ _. Call.cursor_close ctx cursor) (d.cursor_close ctx cursor)

  abbrev pub update_one : Ctx → Handle → Text → Text → ℕ → Row → Go W Counts
  update_one ctx client database collection id update =
      perform (λ _. Call.update_one ctx client database collection id update)
        (d.update_one ctx client database collection id update)

  abbrev pub delete_one : Ctx → Handle → Text → Text → ℕ → Go W ℤ
  delete_one ctx client database collection id =
      perform (λ _. Call.delete_one ctx client database collection id)
        (d.delete_one ctx client database collection id)

  abbrev pub redis_new_client : Text → Text → ℤ → Go W Handle
  redis_new_client addr password db =
      perform (λ _. Call.redis_new_client addr password db)
        (λ w. let (h, w') = d.redis_new_client addr password db w in (ok h, w'))

  abbrev pub redis_ping : Ctx → Handle → Go W (Unit {0})
  redis_ping ctx client = perform (λ _. Call.redis_ping ctx client) (d.redis_ping ctx client)

  abbrev pub redis_keys : Ctx → Handle → Text → Go W (List Text)
  redis_keys ctx client pattern =
      perform (λ _. Call.redis_keys ctx client pattern) (d.redis_keys ctx client pattern)

  abbrev pub redis_set : Ctx → Handle → Text → Text → ℤ → Go W (Unit {0})
  redis_set ctx client key value expiration =
      perform (λ _. Call.redis_set ctx client key value expiration)
        (d.redis_set ctx client key value expiration)

  abbrev pub redis_get : Ctx → Handle → Text → Go W Text
  redis_get ctx client key =
      perform (λ _. Call.redis_get ctx client key) (d.redis_get ctx client key)

  abbrev pub redis_ttl : Ctx → Handle → Text → Go W ℤ
  redis_ttl ctx client key =
      perform (λ _. Call.redis_ttl ctx client key) (d.redis_ttl ctx client key)

  abbrev pub redis_del : Ctx → Handle → Text → Go W ℤ
  redis_del ctx client key =
      perform (λ _. Call.redis_del ctx client key) (d.redis_del ctx client key)

  abbrev pub redis_info : Ctx → Handle → Go W Text
  redis_info ctx client = perform (λ _. Call.redis_info ctx client) (d.redis_info ctx client)

  abbrev pub redis_db_size : Ctx → Handle → Go W ℤ
  redis_db_size ctx client =
      perform (λ _. Call.redis_db_size ctx client) (d.redis_db_size ctx client)

  abbrev pub redis_close : Handle → Go W (Unit {0})
  redis_close client = perform (λ _. Call.redis_close client) (d.redis_close client)
