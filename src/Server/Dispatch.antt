-- ===== src/Server/Dispatch.antt =====
-- The gRPC server of cmd/main.go: the requests of the four services that it registers, each with the
-- handler that answers it.
pub mod Balance
pub mod Effort
pub mod Use
pub mod Own
pub mod Concurrent
use database_router.Shared.{ℕ, Option, List, [], ◌∷◌}
use database_router.Shared.Action.{State}
use database_router.Shared.Int.{ℤ}
use database_router.Text.{Text}
use database_router.Value.{Runtime, Fields}
use database_router.Driver.{Driver}
use database_router.Driver.Calls.{Call, Ctx}
use database_router.Manager.{Manager}
use database_router.Service.{PostgresService, MongoService, RedisService, HealthService}
use database_router.Service.Backends.{new_postgres_service, new_mongo_service, new_redis_service}
use database_router.Service.Health.{new_health_service}
use database_router.Server.Registry.{Servers}
use database_router.Server.Postgres
use database_router.Server.Mongo
use database_router.Server.Redis
use database_router.Server.Health

pub data PostgresRequest : Type 0 where
  list_databases : PostgresRequest
  create_database list_tables : Text → PostgresRequest
  execute_query : Text → Text → PostgresRequest
  select_data : Text → Text → ℤ → PostgresRequest
  insert_data : Text → Text → Fields → PostgresRequest
  update_data : Text → Text → Text → Fields → PostgresRequest
  delete_data : Text → Text → Text → PostgresRequest

pub data MongoRequest : Type 0 where
  list_databases : MongoRequest
  list_collections : Text → MongoRequest
  insert_document : Text → Text → Option Fields → MongoRequest
  find_documents : Text → Text → MongoRequest
  update_document : Text → Text → Text → Option Fields → MongoRequest
  delete_document : Text → Text → Text → MongoRequest

pub data RedisRequest : Type 0 where
  list_keys : Text → RedisRequest
  set_value : Text → Text → ℤ → RedisRequest
  get_value delete_key : Text → RedisRequest
  info : RedisRequest

pub data HealthRequest : Type 0 where
  check check_postgres check_mongo check_redis : HealthRequest

pub data Request : Type 0 where
  to_postgres : PostgresRequest → Request
  to_mongo : MongoRequest → Request
  to_redis : RedisRequest → Request
  to_health : HealthRequest → Request

-- The state behind each handler; the responses are those of its module.
module _ {W : Type 0} (rt : Runtime) (srv : Servers W) (ctx : Ctx) (s : State W Call) where
  handle_postgres : PostgresRequest → State W Call
  unfolding Postgres.list_databases Postgres.create_database Postgres.list_tables
      Postgres.execute_query Postgres.select_data Postgres.insert_data Postgres.update_data
      Postgres.delete_data database_router.Service.Postgres.list_databases
      database_router.Service.Postgres.create_database database_router.Service.Postgres.list_tables
      database_router.Service.Postgres.execute_query database_router.Service.Postgres.select_data
      database_router.Service.Postgres.insert_data database_router.Service.Postgres.update_data
      database_router.Service.Postgres.delete_data
  handle_postgres PostgresRequest.list_databases =
      (Postgres.list_databases rt srv.postgres.svc ctx s).1
  handle_postgres (PostgresRequest.create_database name) =
      (Postgres.create_database rt srv.postgres.svc ctx name s).1
  handle_postgres (PostgresRequest.list_tables database) =
      (Postgres.list_tables rt srv.postgres.svc ctx database s).1
  handle_postgres (PostgresRequest.execute_query query database) =
      (Postgres.execute_query rt srv.postgres.svc ctx query database s).1
  handle_postgres (PostgresRequest.select_data database table limit) =
      (Postgres.select_data rt srv.postgres.svc ctx database table limit s).1
  handle_postgres (PostgresRequest.insert_data database table fields) =
      (Postgres.insert_data rt srv.postgres.svc ctx database table fields s).1
  handle_postgres (PostgresRequest.update_data database table id fields) =
      (Postgres.update_data rt srv.postgres.svc ctx database table id fields s).1
  handle_postgres (PostgresRequest.delete_data database table id) =
      (Postgres.delete_data rt srv.postgres.svc ctx database table id s).1

  handle_mongo : MongoRequest → State W Call
  unfolding Mongo.list_databases Mongo.list_collections Mongo.insert_document Mongo.find_documents
      Mongo.update_document Mongo.delete_document database_router.Service.Mongo.list_databases
      database_router.Service.Mongo.list_collections database_router.Service.Mongo.insert_document
      database_router.Service.Mongo.find_documents database_router.Service.Mongo.update_document
      database_router.Service.Mongo.delete_document
  handle_mongo MongoRequest.list_databases = (Mongo.list_databases rt srv.mongo.svc ctx s).1
  handle_mongo (MongoRequest.list_collections database) =
      (Mongo.list_collections rt srv.mongo.svc ctx database s).1
  handle_mongo (MongoRequest.insert_document database collection document) =
      (Mongo.insert_document rt srv.mongo.svc ctx database collection document s).1
  handle_mongo (MongoRequest.find_documents database collection) =
      (Mongo.find_documents rt srv.mongo.svc ctx database collection s).1
  handle_mongo (MongoRequest.update_document database collection id update) =
      (Mongo.update_document rt srv.mongo.svc ctx database collection id update s).1
  handle_mongo (MongoRequest.delete_document database collection id) =
      (Mongo.delete_document rt srv.mongo.svc ctx database collection id s).1

  handle_redis : RedisRequest → State W Call
  unfolding Redis.list_keys Redis.set_value Redis.get_value Redis.delete_key Redis.info
      database_router.Service.Redis.list_keys database_router.Service.Redis.set_value
      database_router.Service.Redis.get_value database_router.Service.Redis.delete_key
      database_router.Service.Redis.info
  handle_redis (RedisRequest.list_keys pattern) = (Redis.list_keys srv.redis.svc ctx pattern s).1
  handle_redis (RedisRequest.set_value key value ttl) =
      (Redis.set_value srv.redis.svc ctx key value ttl s).1
  handle_redis (RedisRequest.get_value key) = (Redis.get_value srv.redis.svc ctx key s).1
  handle_redis (RedisRequest.delete_key key) = (Redis.delete_key srv.redis.svc ctx key s).1
  handle_redis RedisRequest.info = (Redis.info srv.redis.svc ctx s).1

  handle_health : HealthRequest → State W Call
  unfolding Health.check Health.check_postgres Health.check_mongo Health.check_redis
      database_router.Service.Health.check_all database_router.Service.Postgres.test_connection
      database_router.Service.Mongo.test_connection database_router.Service.Redis.test_connection
  handle_health HealthRequest.check =
      (Health.check srv.health.health srv.health.pg srv.health.mongo srv.health.redis ctx s).1
  handle_health HealthRequest.check_postgres =
      (Health.check_postgres srv.health.health srv.health.pg srv.health.mongo srv.health.redis ctx
        s).1
  handle_health HealthRequest.check_mongo =
      (Health.check_mongo srv.health.health srv.health.pg srv.health.mongo srv.health.redis ctx s).1
  handle_health HealthRequest.check_redis =
      (Health.check_redis srv.health.health srv.health.pg srv.health.mongo srv.health.redis ctx s).1

  unfoldable pub handle : Request → State W Call
  unfolding handle_postgres handle_mongo handle_redis handle_health
  handle (to_postgres q) = handle_postgres q
  handle (to_mongo q) = handle_mongo q
  handle (to_redis q) = handle_redis q
  handle (to_health q) = handle_health q
