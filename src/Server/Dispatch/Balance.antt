-- ===== src/Server/Dispatch/Balance.antt =====
-- No request leaves a PostgreSQL connection open, whichever handler answers it.
use database_router.Shared.{◌≡◌, arith}
use database_router.Shared.Action.{State}
use database_router.Value.{Runtime}
use database_router.Driver.{Driver}
use database_router.Driver.Calls.{Call, Ctx}
use database_router.Driver.Handles.{still_open}
use database_router.Manager.{Manager}
use database_router.Service.Postgres.Leaks.{
  list_tables-Balanced, execute_query-Balanced, select_data-Balanced, insert_data-Balanced,
  update_data-Balanced, delete_data-Balanced,
}
use database_router.Server.Convert.{proto_fields_to_row}
use database_router.Server.Dispatch.{
  PostgresRequest, MongoRequest, RedisRequest, HealthRequest, Request, to_postgres, to_mongo,
  to_redis, to_health, handle_postgres, handle_mongo, handle_redis, handle_health, handle,
}
use database_router.Server.Registry.{new_servers}

module _ {W : Type 0} (d : Driver W) (rt : Runtime) (m : Manager) (ctx : Ctx)
    (s : State W Call) where
  handle_postgres-Balanced :
      (q : PostgresRequest)
      → still_open (handle_postgres rt (new_servers d rt m) ctx s q).calls ≡ still_open s.calls
  unfolding handle_postgres still_open
  handle_postgres-Balanced PostgresRequest.list_databases = ground arith
  handle_postgres-Balanced (PostgresRequest.create_database name) = ground arith
  handle_postgres-Balanced (PostgresRequest.list_tables database) =
      ground (arith, list_tables-Balanced d rt m ctx s database)
  handle_postgres-Balanced (PostgresRequest.execute_query query database) =
      ground (arith, execute_query-Balanced d rt m ctx s query database)
  handle_postgres-Balanced (PostgresRequest.select_data database table limit) = ground (
    arith,
    select_data-Balanced d rt m ctx s database table
        (database_router.Server.Postgres.limit_or_default limit),
  )
  handle_postgres-Balanced (PostgresRequest.insert_data database table fields) =
      ground (arith, insert_data-Balanced d rt m ctx s database table (proto_fields_to_row fields))
  handle_postgres-Balanced (PostgresRequest.update_data database table id fields) =
      ground
        (arith, update_data-Balanced d rt m ctx s database table id (proto_fields_to_row fields))
  handle_postgres-Balanced (PostgresRequest.delete_data database table id) =
      ground (arith, delete_data-Balanced d rt m ctx s database table id)

  handle_mongo-Balanced :
      (q : MongoRequest)
      → still_open (handle_mongo rt (new_servers d rt m) ctx s q).calls ≡ still_open s.calls
  unfolding handle_mongo still_open
  handle_mongo-Balanced MongoRequest.list_databases = ground arith
  handle_mongo-Balanced q = ground arith

  handle_redis-Balanced :
      (q : RedisRequest)
      → still_open (handle_redis rt (new_servers d rt m) ctx s q).calls ≡ still_open s.calls
  unfolding handle_redis still_open
  handle_redis-Balanced (RedisRequest.list_keys pattern) = ground arith
  handle_redis-Balanced q = ground arith

  handle_health-Balanced :
      (q : HealthRequest)
      → still_open (handle_health rt (new_servers d rt m) ctx s q).calls ≡ still_open s.calls
  unfolding handle_health still_open
  handle_health-Balanced HealthRequest.check = ground arith
  handle_health-Balanced q = ground arith

  -- Whatever the request and whatever the drivers answer, the server ends a request with exactly the
  -- PostgreSQL connections open that were open before it.
  pub handle-Balanced :
      (q : Request) → still_open (handle rt (new_servers d rt m) ctx s q).calls ≡ still_open s.calls
  unfolding handle
  handle-Balanced (to_postgres q) = handle_postgres-Balanced q
  handle-Balanced (to_mongo q) = handle_mongo-Balanced q
  handle-Balanced (to_redis q) = handle_redis-Balanced q
  handle-Balanced (to_health q) = handle_health-Balanced q
