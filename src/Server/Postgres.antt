-- ===== src/Server/Postgres.antt =====
-- internal/server/postgres_server.go: the handlers of PostgresService.
pub mod Reach
use database_router.Shared.{zero, List, [], map, length, if◌then◌else◌}
use database_router.Shared.Action.{pure, ◌>>=◌, ◌>>◌}
use database_router.Shared.Int.{ℤ, pos, wrap}
use database_router.Text.{Text, codes, is_empty}
use database_router.Value.{Fields, Runtime}
use database_router.Driver.Calls.{Ctx}
use database_router.Service.{PostgresService}
use database_router.Service.Results.{QueryResult}
use database_router.Server.Convert.{row_to_proto_fields, proto_fields_to_row}
use database_router.Server.Messages.{
  CreateDatabaseResponse, ListTablesResponse, ExecuteQueryResponse, SelectDataResponse,
  InsertDataResponse, UpdateDataResponse, DeleteDataResponse,
}
use database_router.Server.Rpc.{Rpc, checked}

-- int64(len(l))
abbrev pub count_of : {A : Type 0} → List A → ℤ
count_of l = wrap 64 (pos (length l))

-- `if limit == 0 { limit = 100 }`
pub limit_or_default : ℤ → ℤ
limit_or_default (pos zero) = pos 100
limit_or_default limit = limit

-- `isSelect` decides which fields of the response are set.
query_response : Runtime → QueryResult → ExecuteQueryResponse
unfolding row_to_proto_fields
query_response rt r =
    if r.is_select
    then record {
      columns = r.columns;
      rows = map (row_to_proto_fields rt) r.rows;
      count = count_of r.rows;
      rows_affected = pos 0;
      message = [];
    }
    else record {
      columns = [];
      rows = [];
      count = pos 0;
      rows_affected = r.rows_affected;
      message = codes "Command executed successfully";
    }

insert_response : Text → Text → Text → InsertDataResponse
insert_response database table id = record {
  database = database;
  table = table;
  inserted_id = id;
  message = if is_empty id then codes "Row inserted successfully" else [];
}

-- The arguments behind the context are the fields of the request.
module _ {W : Type 0} (rt : Runtime) (svc : PostgresService W) (ctx : Ctx) where
  unfoldable pub list_databases : Rpc W (List Text)
  list_databases = checked (svc.list_databases ctx)

  unfoldable pub create_database : Text → Rpc W CreateDatabaseResponse
  create_database name = do
    checked (svc.create_database ctx name)
    pure (record { name = name; message = codes "Database created successfully" })

  unfoldable pub list_tables : Text → Rpc W ListTablesResponse
  list_tables database = do
    tables ← checked (svc.list_tables ctx database)
    pure (record { database = database; tables = tables })

  unfoldable pub execute_query : Text → Text → Rpc W ExecuteQueryResponse
  unfolding query_response
  execute_query query database = do
    r ← checked (svc.execute_query ctx query database)
    pure (query_response rt r)

  unfoldable pub select_data : Text → Text → ℤ → Rpc W SelectDataResponse
  unfolding limit_or_default row_to_proto_fields
  select_data database table limit = do
    rows ← checked (svc.select_data ctx database table (limit_or_default limit))
    pure (record {
      database = database;
      table = table;
      rows = map (row_to_proto_fields rt) rows;
      count = count_of rows;
    })

  unfoldable pub insert_data : Text → Text → Fields → Rpc W InsertDataResponse
  unfolding insert_response proto_fields_to_row
  insert_data database table fields = do
    id ← checked (svc.insert_data ctx database table (proto_fields_to_row fields))
    pure (insert_response database table id)

  unfoldable pub update_data : Text → Text → Text → Fields → Rpc W UpdateDataResponse
  unfolding proto_fields_to_row
  update_data database table id fields = do
    affected ← checked (svc.update_data ctx database table id (proto_fields_to_row fields))
    pure (record { database = database; table = table; id = id; rows_affected = affected })

  unfoldable pub delete_data : Text → Text → Text → Rpc W DeleteDataResponse
  delete_data database table id = do
    affected ← checked (svc.delete_data ctx database table id)
    pure (record { database = database; table = table; id = id; rows_affected = affected })
