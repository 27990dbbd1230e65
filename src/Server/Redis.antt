-- ===== src/Server/Redis.antt =====
-- internal/server/redis_server.go: the handlers of RedisService.
pub mod RoundTrip
use database_router.Shared.{List, if◌then◌else◌}
use database_router.Shared.Action.{pure, ◌>>=◌, ◌>>◌}
use database_router.Shared.Int.{ℤ, wrap}
use database_router.Text.{Text, codes, is_empty}
use database_router.Driver.Calls.{Ctx}
use database_router.Service.{RedisService}
use database_router.Server.Messages.{
  ListKeysResponse, SetValueResponse, GetValueResponse, DeleteKeyResponse, RedisInfoResponse,
}
use database_router.Server.Postgres.{count_of}
use database_router.Server.Rpc.{Rpc, checked}

module _ {W : Type 0} (svc : RedisService W) (ctx : Ctx) where
  unfoldable pub list_keys : Text → Rpc W ListKeysResponse
  list_keys pattern = do
    keys ← checked (svc.list_keys ctx (if is_empty pattern then codes "*" else pattern))
    pure (record { keys = keys; count = count_of keys })

  -- `ttl` is an int32; `int(ttl)` is the same number.
  unfoldable pub set_value : Text → Text → ℤ → Rpc W SetValueResponse
  set_value key value ttl = do
    checked (svc.set_value ctx key value ttl)
    pure (record { key = key; value = value; ttl = ttl })

  unfoldable pub get_value : Text → Rpc W GetValueResponse
  get_value key = do
    (value, ttl) ← checked (svc.get_value ctx key)
    pure (record { key = key; value = value; ttl = wrap 32 ttl })

  unfoldable pub delete_key : Text → Rpc W DeleteKeyResponse
  delete_key key = do
    deleted ← checked (svc.delete_key ctx key)
    pure (record { key = key; deleted = deleted })

  unfoldable pub info : Rpc W RedisInfoResponse
  info = do
    (db_size, text) ← checked (svc.info ctx)
    pure (record { db_size = db_size; info = text })
