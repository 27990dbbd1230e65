-- ===== src/Service/Postgres/Leaks.antt =====
-- No operation of the service leaks a connection: each temporary one is closed on every path.
use database_router.Shared.{◌≡◌, arith}
use database_router.Shared.Action.{State}
use database_router.Shared.Int.{ℤ}
use database_router.Text.{Text}
use database_router.Value.{Runtime, Row}
use database_router.Driver.{Driver, Go}
use database_router.Driver.Calls.{Call, Ctx}
use database_router.Driver.Handles.{still_open}
use database_router.Manager.{Manager, get_postgres_connection}
use database_router.Service.Postgres.{
  list_tables, execute_query, select_data, insert_data, update_data, delete_data,
}

-- `act` ends with the connections open that were open before it, whatever the drivers answer.
abbrev Balanced : {W A : Type 0} → State W Call → Go W A → Type 0
Balanced s act = still_open (act s).1.calls ≡ still_open s.calls

module _ {W : Type 0} (d : Driver W) (rt : Runtime) (m : Manager) (ctx : Ctx)
    (s : State W Call) where
  pub list_tables-Balanced : (database : Text) → Balanced s (list_tables d rt m ctx database)
  unfolding list_tables get_postgres_connection still_open
  list_tables-Balanced database = ground arith

  pub execute_query-Balanced :
      (query database : Text) → Balanced s (execute_query d rt m ctx query database)
  unfolding execute_query get_postgres_connection still_open
  execute_query-Balanced query database = ground arith

  pub select_data-Balanced :
      (database table : Text) (limit : ℤ) → Balanced s (select_data d rt m ctx database table limit)
  unfolding select_data get_postgres_connection still_open
  select_data-Balanced database table limit = ground arith

  pub insert_data-Balanced :
      (database table : Text) (row : Row) → Balanced s (insert_data d rt m ctx database table row)
  unfolding insert_data get_postgres_connection still_open
  insert_data-Balanced database table row = ground arith

  pub update_data-Balanced :
      (database table id : Text) (row : Row)
      → Balanced s (update_data d rt m ctx database table id row)
  unfolding update_data get_postgres_connection still_open
  update_data-Balanced database table id row = ground arith

  pub delete_data-Balanced :
      (database table id : Text) → Balanced s (delete_data d rt m ctx database table id)
  unfolding delete_data get_postgres_connection still_open
  delete_data-Balanced database table id = ground arith

  -- Whatever the drivers answer, and on every path, errors included, each operation that works on a
  -- database of the caller's choice ends with exactly the PostgreSQL connections open that were open
  -- before it: a temporary connection is closed.
  operations-Balanced :
      (database table id query : Text) (limit : ℤ) (row : Row)
      → Balanced s (list_tables d rt m ctx database)
        × Balanced s (execute_query d rt m ctx query database)
        × Balanced s (select_data d rt m ctx database table limit)
        × Balanced s (insert_data d rt m ctx database table row)
        × Balanced s (update_data d rt m ctx database table id row)
        × Balanced s (delete_data d rt m ctx database table id)
  operations-Balanced database table id query limit row = (
    list_tables-Balanced database,
    execute_query-Balanced query database,
    select_data-Balanced database table limit,
    insert_data-Balanced database table row,
    update_data-Balanced database table id row,
    delete_data-Balanced database table id,
  )
