-- ===== src/Service/Postgres/Contexts.antt =====
-- Under which contexts the PostgreSQL service works.
use database_router.Shared.{◌≡◌, [], All, arith}
use database_router.Shared.Int.{ℤ}
use database_router.Text.{Text}
use database_router.Value.{Runtime, Row}
use database_router.Driver.{Driver, Go}
use database_router.Driver.Calls.{Call, Ctx}
use database_router.Manager.{Manager, with_timeout, get_postgres_connection}
use database_router.Service.Postgres.{
  list_databases, create_database, list_tables, execute_query, select_data, insert_data,
  update_data, delete_data,
}

-- A statement runs under the context `ctx`, and the ping of a new connection under `ping`.
abbrev RunsUnder : Ctx → Ctx → Call → Type 0
RunsUnder ctx ping (Call.sql_query c h text args) = c ≡ ctx
RunsUnder ctx ping (Call.sql_query_row c h text args) = c ≡ ctx
RunsUnder ctx ping (Call.sql_exec c h text args) = c ≡ ctx
RunsUnder ctx ping (Call.sql_ping c h) = c ≡ ping
RunsUnder ctx ping _ = Unit

abbrev pub AllRunUnder : {W A : Type 0} → Ctx → Ctx → W → Go W A → Type 0
AllRunUnder ctx ping w act =
    All (RunsUnder ctx ping) (act (record { world = w; calls = [] })).1.calls

module _ {W : Type 0} (d : Driver W) (rt : Runtime) (m : Manager) (ctx : Ctx) (w : W) where
  -- Whatever the drivers answer, each statement of the service runs under the context of the request,
  -- with its deadline and no other, while the ping of a new connection runs under 5 seconds of the
  -- manager's context, not the request's.
  pub operations-AllRunUnder :
      (database table id query : Text) (limit : ℤ) (row : Row)
      → AllRunUnder ctx (with_timeout m.ctx 5) w (list_databases d rt m ctx)
        × AllRunUnder ctx (with_timeout m.ctx 5) w (create_database d rt m ctx database)
        × AllRunUnder ctx (with_timeout m.ctx 5) w (list_tables d rt m ctx database)
        × AllRunUnder ctx (with_timeout m.ctx 5) w (execute_query d rt m ctx query database)
        × AllRunUnder ctx (with_timeout m.ctx 5) w (select_data d rt m ctx database table limit)
        × AllRunUnder ctx (with_timeout m.ctx 5) w (insert_data d rt m ctx database table row)
        × AllRunUnder ctx (with_timeout m.ctx 5) w (update_data d rt m ctx database table id row)
        × AllRunUnder ctx (with_timeout m.ctx 5) w (delete_data d rt m ctx database table id)
  unfolding list_databases create_database list_tables execute_query select_data insert_data
      update_data delete_data get_postgres_connection
  operations-AllRunUnder database table id query limit row = (
    ground arith,
    ground arith,
    ground arith,
    ground arith,
    ground arith,
    ground arith,
    ground arith,
    ground arith,
  )
