-- ===== src/Core/Operations.antt =====
-- core/go/client.go: the operations of the client, each on the database or the keys of its
-- namespace.
use database_router.Shared.{List, [], ◌++◌, some, if◌then◌else◌}
use database_router.Shared.Action.{Result, ok, err, pure, lift, attempt, ◌>>=◌, ◌>>◌}
use database_router.Shared.Int.{ℤ}
use database_router.Text.{Text, codes}
use database_router.Value.{Row, Fields, Runtime}
use database_router.Core.{Failure, plain_error, Remote, Client, unpack_rows, pack_row, says, print}
use database_router.Server.Messages.{CreateDatabaseResponse}

-- `describe` is `%v` of an error, `new_struct` is structpb.NewStruct.
module _ {W : Type 0} (rt : Runtime) (describe : Failure → Text)
    (new_struct : Row → Result Text Fields) (c : Client W) where
  workspace_report : Result Failure CreateDatabaseResponse → Remote W (Unit {0})
  workspace_report (ok resp) = print (codes "[OK] Provisioned workspace: " ++ c.pg_db)
  workspace_report (err e) =
      if says rt e (codes "already exists")
      then pure tt
      else print (codes "[WARN] Workspace check failed: " ++ describe e)

  unfoldable pub init_workspace : Remote W (Unit {0})
  unfolding workspace_report
  init_workspace = do created ← attempt (c.dbr.create_database c.pg_db); workspace_report created

  unfoldable pub pg_query : Text → Remote W (List Row)
  pg_query query = do resp ← c.dbr.execute_query query c.pg_db; lift (unpack_rows [] resp.rows)

  unfoldable pub pg_insert : Text → Row → Remote W Text
  pg_insert table row = do
    resp ← c.dbr.insert_data c.pg_db table (pack_row rt row)
    pure resp.inserted_id

  packed : Result Text Fields → Result Failure Fields
  packed (ok fields) = ok fields
  packed (err text) = err (plain_error (codes "packing document: " ++ text))

  unfoldable pub mongo_insert : Text → Row → Remote W Text
  unfolding packed
  mongo_insert collection doc = do
    fields ← lift (packed (new_struct doc))
    resp ← c.dbr.insert_document c.mongo_db collection (some fields)
    pure resp.inserted_id

  unfoldable pub redis_set : Text → Text → ℤ → Remote W (Unit {0})
  redis_set key value ttl = do c.dbr.set_value (c.redis_prefix ++ key) value ttl; pure tt

  unfoldable pub redis_get : Text → Remote W Text
  redis_get key s =
      let (got, s') = c.dbr.get_value (c.redis_prefix ++ key) s in
      elim got [
        | ok resp ↦ (ok resp.value, s')
        | err e ↦ if says rt e (codes "not found") then (ok [], s') else (err e, s')
      ]

  pub close : Remote W (Unit {0})
  close = c.dbr.close
