-- ===== src/Core/EndToEnd.antt =====
-- The client over the router itself: the stubs answer with what the handlers return.
use database_router.Shared.{◌≡◌, some, [], ◌++◌, arith, Option-cases, inl, inr}
use database_router.Shared.Action.{pure, State, Result, ok, err}
use database_router.Shared.Int.{ℤ, IsInt}
use database_router.Text.{Text, codes, contains, to_lower}
use database_router.Value.{Runtime, Row, Fields}
use database_router.Fault.{Status, GoError, to_grpc_error}
use database_router.Driver.{Driver}
use database_router.Driver.Calls.{Call, Ctx, Handle}
use database_router.Manager.{Manager, with_timeout}
use database_router.Service.Backends.{new_postgres_service, new_mongo_service, new_redis_service}
use database_router.Server.Rpc.{Rpc}
use database_router.Server.Postgres
use database_router.Server.Mongo
use database_router.Server.Redis
use database_router.Server.Redis.RoundTrip.{IsLawfulRedis}
use database_router.Service.Redis.{expiration}
use database_router.Fault.{is_bad_input}
use database_router.Core.{Failure, status_error, Remote, Router, named_client, says}
use database_router.Core.Operations.{redis_set, redis_get}

-- A status crosses the wire with its message.
abbrev received : {A : Type 0} → Result Status A → Result Failure A
received (ok a) = ok a
received (err st) = err (status_error st.text)

abbrev over_wire : {W A : Type 0} → Rpc W A → Remote W A
over_wire act s = (received (act s).0, (act s).1)

-- The client of the SDK, whose requests run under `ctx` on the server. Closing it calls no handler.
abbrev pub router_of : {W : Type 0} → Driver W → Runtime → Manager → Ctx → Router W
router_of d rt m ctx = record {
  create_database =
      λ name. over_wire (Postgres.create_database rt (new_postgres_service d rt m) ctx name);
  execute_query = λ query database.
      over_wire (Postgres.execute_query rt (new_postgres_service d rt m) ctx query database);
  insert_data = λ database table fields.
      over_wire (Postgres.insert_data rt (new_postgres_service d rt m) ctx database table fields);
  insert_document = λ database collection document.
      over_wire
        (Mongo.insert_document rt (new_mongo_service d rt m) ctx database collection document);
  set_value =
      λ key value ttl. over_wire (Redis.set_value (new_redis_service d rt m) ctx key value ttl);
  get_value = λ key. over_wire (Redis.get_value (new_redis_service d rt m) ctx key);
  close = pure tt;
}

module _ {W : Type 0} (d : Driver W) (rt : Runtime) (describe : Failure → Text)
    (new_struct : Row → Result Text Fields) (m : Manager) (ctx : Ctx) (s : State W Call)
    (app : Text) where
  -- Through the client, the handlers, the service and a lawful Redis: whenever RedisSet with an
  -- int32 time to live succeeds, a RedisGet of the same key in the same namespace right behind it
  -- returns the value.
  pub redis_get-redis_set :
      (key value : Text) (ttl : ℤ)
      → IsLawfulRedis d
      → IsInt 32 ttl
      → (redis_set rt describe new_struct
          (named_client app (router_of d rt m ctx))
          key
          value
          ttl
          s).0
        ≡ ok tt
      → (redis_get rt describe new_struct
          (named_client app (router_of d rt m ctx))
          key
          (redis_set rt describe new_struct
            (named_client app (router_of d rt m ctx))
            key
            value
            ttl
            s).1).0
        ≡ ok value
  unfolding redis_set redis_get named_client Redis.set_value Redis.get_value
      database_router.Service.Redis.set_value database_router.Service.Redis.get_value
  redis_get-redis_set key value ttl laws h e = elim (Option-cases m.redis_client) [
    | inl off ↦ ground arith
    | inr (client, on) ↦
        let five : Ctx = with_timeout ctx 5 in
        ground (
          arith,
          laws.get-set five five client (app ++ codes ":" ++ key) value (expiration ttl) s.world,
        )
  ]

  -- RedisGet returns the empty text and no error whenever GET fails on the server, for whatever
  -- reason: a Redis that is out of reach looks like a missing key.
  pub redis_get-hides_errors :
      (client : Handle) (key : Text) (e : GoError)
      → m.redis_client ≡ some client
      → (d.redis_get (with_timeout ctx 5) client (app ++ codes ":" ++ key) s.world).0 ≡ err e
      → (redis_get rt describe new_struct (named_client app (router_of d rt m ctx)) key s).0 ≡ ok []
  unfolding redis_get named_client Redis.get_value says contains to_lower to_grpc_error
      database_router.Service.Redis.get_value is_bad_input
  redis_get-hides_errors client key e on failed = ground arith
