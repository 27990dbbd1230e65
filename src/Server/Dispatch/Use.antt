-- ===== src/Server/Dispatch/Use.antt =====
-- Every request uses PostgreSQL connections only while they are open.
use database_router.Shared.{◌≡◌, true, none, some, Option, List, arith, Option-cases, inl, inr}
use database_router.Shared.Action.{State}
use database_router.Value.{Runtime}
use database_router.Driver.{Driver}
use database_router.Driver.Calls.{Call, Ctx, Handle}
use database_router.Driver.Handles.{still_open, is_open, WellUsed}
use database_router.Manager.{Manager, get_postgres_connection}
use database_router.Server.Dispatch.{
  PostgresRequest, MongoRequest, RedisRequest, HealthRequest, Request, to_postgres, to_mongo,
  to_redis, to_health, handle_postgres, handle_mongo, handle_redis, handle_health, handle,
}
use database_router.Server.Registry.{new_servers}

-- The connection of a manager, if it has one, is open.
abbrev pub HoldsOpen : Option Handle → List Call → Type 0
HoldsOpen none calls = Unit
HoldsOpen (some db) calls = is_open db (still_open calls) ≡ true

module _ {W : Type 0} (d : Driver W) (rt : Runtime) (m : Manager) (ctx : Ctx) (s : State W Call)
    (holds : HoldsOpen m.postgres_db s.calls) (used : WellUsed s.calls) where
  handle_postgres-WellUsed :
      (q : PostgresRequest) → WellUsed (handle_postgres rt (new_servers d rt m) ctx s q).calls
  unfolding handle_postgres still_open get_postgres_connection
  handle_postgres-WellUsed PostgresRequest.list_databases = ground arith
  handle_postgres-WellUsed q = ground arith

  handle_mongo-WellUsed :
      (q : MongoRequest) → WellUsed (handle_mongo rt (new_servers d rt m) ctx s q).calls
  unfolding handle_mongo
  handle_mongo-WellUsed MongoRequest.list_databases = ground arith
  handle_mongo-WellUsed q = ground arith

  handle_redis-WellUsed :
      (q : RedisRequest) → WellUsed (handle_redis rt (new_servers d rt m) ctx s q).calls
  unfolding handle_redis
  handle_redis-WellUsed RedisRequest.info = ground arith
  handle_redis-WellUsed q = ground arith

  handle_health-WellUsed :
      (q : HealthRequest) → WellUsed (handle_health rt (new_servers d rt m) ctx s q).calls
  unfolding handle_health still_open
  handle_health-WellUsed HealthRequest.check = elim (Option-cases m.postgres_db) [
    | inl off ↦ ground arith
    | inr (db, on) ↦
        let db_open : is_open db (still_open s.calls) ≡ true = ground arith in ground arith
  ]
  handle_health-WellUsed q = ground arith

  -- Whatever the request and whatever the drivers answer, if the connection of the manager is open and
  -- the trace uses PostgreSQL connections only while they are open, it does so behind the request too.
  pub handle-WellUsed : (q : Request) → WellUsed (handle rt (new_servers d rt m) ctx s q).calls
  unfolding handle
  handle-WellUsed (to_postgres q) = handle_postgres-WellUsed q
  handle-WellUsed (to_mongo q) = handle_mongo-WellUsed q
  handle-WellUsed (to_redis q) = handle_redis-WellUsed q
  handle-WellUsed (to_health q) = handle_health-WellUsed q
