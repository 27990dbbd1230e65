-- ===== src/Server/Disabled.antt =====
-- What the handlers answer for a backend that is not connected.
use database_router.Shared.{◌≡◌, none, Option, ◌++◌, arith}
use database_router.Shared.Action.{State, err}
use database_router.Shared.Int.{ℤ}
use database_router.Text.{Text, codes}
use database_router.Value.{Runtime, Fields}
use database_router.Fault.{status, unavailable, to_grpc_error}
use database_router.Driver.{Driver}
use database_router.Driver.Calls.{Call, Ctx}
use database_router.Manager.{Manager}
use database_router.Service.Mongo
use database_router.Service.Redis
use database_router.Service.Backends.{new_mongo_service, new_redis_service}
use database_router.Server.Rpc.{Rpc}

-- `act` answers Unavailable with the name of the backend, and has made no call.
abbrev IsUnavailable : {W A : Type 0} → State W Call → Rpc W A → Text → Type 0
IsUnavailable s act backend =
    act s ≡ (err (status unavailable (backend ++ codes " not enabled")), s)

module _ {W : Type 0} (d : Driver W) (rt : Runtime) (m : Manager) (ctx : Ctx)
    (s : State W Call) where
  -- With MongoDB not connected, its six handlers answer Unavailable and make no call.
  mongo-IsUnavailable :
      (database collection id : Text) (document : Option Fields)
      → m.mongo_db ≡ none
      → IsUnavailable s
          (database_router.Server.Mongo.list_databases rt (new_mongo_service d rt m) ctx)
          (codes "MongoDB")
        × IsUnavailable s
            (database_router.Server.Mongo.list_collections rt
              (new_mongo_service d rt m)
              ctx
              database)
            (codes "MongoDB")
        × IsUnavailable s
            (database_router.Server.Mongo.insert_document rt
              (new_mongo_service d rt m)
              ctx
              database
              collection
              document)
            (codes "MongoDB")
        × IsUnavailable s
            (database_router.Server.Mongo.find_documents rt
              (new_mongo_service d rt m)
              ctx
              database
              collection)
            (codes "MongoDB")
        × IsUnavailable s
            (database_router.Server.Mongo.update_document rt
              (new_mongo_service d rt m)
              ctx
              database
              collection
              id
              document)
            (codes "MongoDB")
        × IsUnavailable s
            (database_router.Server.Mongo.delete_document rt
              (new_mongo_service d rt m)
              ctx
              database
              collection
              id)
            (codes "MongoDB")
  unfolding database_router.Server.Mongo.list_databases
      database_router.Server.Mongo.list_collections database_router.Server.Mongo.insert_document
      database_router.Server.Mongo.find_documents database_router.Server.Mongo.update_document
      database_router.Server.Mongo.delete_document Mongo.list_databases Mongo.list_collections
      Mongo.insert_document Mongo.find_documents Mongo.update_document Mongo.delete_document
      to_grpc_error
  mongo-IsUnavailable database collection id document h =
      (ground arith, ground arith, ground arith, ground arith, ground arith, ground arith)

  -- With Redis not connected, its five handlers answer Unavailable and make no call.
  redis-IsUnavailable :
      (key value : Text) (ttl : ℤ)
      → m.redis_client ≡ none
      → IsUnavailable s
          (database_router.Server.Redis.list_keys (new_redis_service d rt m) ctx key)
          (codes "Redis")
        × IsUnavailable s
            (database_router.Server.Redis.set_value (new_redis_service d rt m) ctx key value ttl)
            (codes "Redis")
        × IsUnavailable s
            (database_router.Server.Redis.get_value (new_redis_service d rt m) ctx key)
            (codes "Redis")
        × IsUnavailable s
            (database_router.Server.Redis.delete_key (new_redis_service d rt m) ctx key)
            (codes "Redis")
        × IsUnavailable s
            (database_router.Server.Redis.info (new_redis_service d rt m) ctx)
            (codes "Redis")
  unfolding database_router.Server.Redis.list_keys database_router.Server.Redis.set_value
      database_router.Server.Redis.get_value database_router.Server.Redis.delete_key
      database_router.Server.Redis.info Redis.list_keys Redis.set_value Redis.get_value
      Redis.delete_key Redis.info to_grpc_error
  redis-IsUnavailable key value ttl h =
      (ground arith, ground arith, ground arith, ground arith, ground arith)
