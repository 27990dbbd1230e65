-- ===== src/Service/Postgres/Rejections.antt =====
-- What the service refuses before it makes any call.
use database_router.Shared.{◌≡◌, ◌⊎◌, true, false, none, some, arith}
use database_router.Shared.Action.{State, err}
use database_router.Shared.Int.{ℤ, pos, ◌≤ℤ◌}
use database_router.Text.{Text, codes}
use database_router.Value.{Runtime, Row, empty_row, keys}
use database_router.Fault.{GoError, not_enabled, message}
use database_router.Sql.{is_valid_identifier}
use database_router.Driver.{Driver, Go}
use database_router.Driver.Calls.{Call, Ctx, Handle}
use database_router.Manager.{Manager}
use database_router.Service.Postgres.{
  list_databases, create_database, list_tables, execute_query, select_data, insert_data,
  update_data, delete_data, test_connection,
}

-- `act` ends with the error `e`, and has made no call.
abbrev pub Refuses : {W A : Type 0} → State W Call → Go W A → GoError → Type 0
Refuses s act e = act s ≡ (err e, s)

module _ {W : Type 0} (d : Driver W) (rt : Runtime) (m : Manager) (ctx : Ctx)
    (s : State W Call) where
  -- With PostgreSQL not connected, all nine operations end with NotEnabledError and make no call.
  disabled-Refuses :
      (database table id query : Text) (limit : ℤ) (row : Row)
      → m.postgres_db ≡ none
      → Refuses s (list_databases d rt m ctx) (not_enabled (codes "PostgreSQL"))
        × Refuses s (create_database d rt m ctx database) (not_enabled (codes "PostgreSQL"))
        × Refuses s (list_tables d rt m ctx database) (not_enabled (codes "PostgreSQL"))
        × Refuses s (execute_query d rt m ctx query database) (not_enabled (codes "PostgreSQL"))
        × Refuses s (select_data d rt m ctx database table limit) (not_enabled (codes "PostgreSQL"))
        × Refuses s (insert_data d rt m ctx database table row) (not_enabled (codes "PostgreSQL"))
        × Refuses s
            (update_data d rt m ctx database table id row)
            (not_enabled (codes "PostgreSQL"))
        × Refuses s (delete_data d rt m ctx database table id) (not_enabled (codes "PostgreSQL"))
        × Refuses s (test_connection d rt m ctx) (not_enabled (codes "PostgreSQL"))
  unfolding list_databases create_database list_tables execute_query select_data insert_data
      update_data delete_data test_connection
  disabled-Refuses database table id query limit row h = (
    ground arith,
    ground arith,
    ground arith,
    ground arith,
    ground arith,
    ground arith,
    ground arith,
    ground arith,
    ground arith,
  )

  module _ (db : Handle) (enabled : m.postgres_db ≡ some db) where
    -- With PostgreSQL connected, a table name that is no identifier ends each of the four operations
    -- on a table with "invalid table name" and no call, whatever the other arguments are.
    invalid_table-Refuses :
        (database table id : Text) (limit : ℤ) (row : Row)
        → is_valid_identifier table ≡ false
        → Refuses s
            (select_data d rt m ctx database table limit)
            (message (codes "invalid table name"))
          × Refuses s
              (insert_data d rt m ctx database table row)
              (message (codes "invalid table name"))
          × Refuses s
              (update_data d rt m ctx database table id row)
              (message (codes "invalid table name"))
          × Refuses s
              (delete_data d rt m ctx database table id)
              (message (codes "invalid table name"))
    unfolding select_data insert_data update_data delete_data
    invalid_table-Refuses database table id limit row h =
        (ground arith, ground arith, ground arith, ground arith)

    -- With PostgreSQL connected and a valid table, a limit below 1 or above 10000 ends SelectData,
    -- and an empty row ends UpdateData, with their own errors and no call.
    bad_arguments-Refuses :
        (database table id : Text) (limit : ℤ)
        → is_valid_identifier table ≡ true
        → (limit ≤ℤ pos 0) ⊎ (pos 10001 ≤ℤ limit)
        → Refuses s
            (select_data d rt m ctx database table limit)
            (message (codes "limit must be between 1 and 10000"))
          × Refuses s
              (update_data d rt m ctx database table id empty_row)
              (message (codes "no data to update"))
    unfolding select_data update_data keys
    bad_arguments-Refuses database table id limit valid h = (ground arith, ground arith)
