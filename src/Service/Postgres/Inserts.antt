-- ===== src/Service/Postgres/Inserts.antt =====
-- The two statements of InsertData.
use database_router.Shared.{◌≡◌, true, some, [], ◌∷◌, arith}
use database_router.Shared.Action.{State, Result, ok, err}
use database_router.Text.{Text}
use database_router.Value.{Value, Runtime, Row, keys, values}
use database_router.Fault.{GoError}
use database_router.Sql.{is_valid_identifier, insert_sql, insert_returning_sql}
use database_router.Driver.{Driver, Affected}
use database_router.Driver.Calls.{Call, Ctx, Handle}
use database_router.Manager.{Manager, get_postgres_connection}
use database_router.Service.Postgres.{insert_data}

-- The result where the first statement has failed, by the result of the second one.
abbrev pub second_result : Result GoError Affected → Result GoError Text
second_result (ok a) = ok []
second_result (err e) = err e

module _ {W : Type 0} (d : Driver W) (rt : Runtime) (m : Manager) (ctx : Ctx) (s : State W Call)
    (db : Handle) (enabled : m.postgres_db ≡ some db) (table : Text) (row : Row)
    (valid : is_valid_identifier table ≡ true) where
  -- On the default database with a valid table, an INSERT with RETURNING id that succeeds is the only
  -- call of InsertData, which then returns the id.
  insert_data-returning :
      (id : Value)
      → (d.sql_query_row ctx db (insert_returning_sql table (keys row)) (values row) s.world).0
        ≡ ok id
      → ((insert_data d rt m ctx [] table row s).0 ≡ ok (rt.sprint id))
        × ((insert_data d rt m ctx [] table row s).1.calls
            ≡ Call.sql_query_row ctx db (insert_returning_sql table (keys row)) (values row)
              ∷ s.calls)
  unfolding insert_data get_postgres_connection
  insert_data-returning id h = (ground arith, ground arith)

  -- Where the first statement fails, the second one alone decides the result.
  insert_data-again :
      (e : GoError)
      → (d.sql_query_row ctx db (insert_returning_sql table (keys row)) (values row) s.world).0
        ≡ err e
      → ((insert_data d rt m ctx [] table row s).0
          ≡ second_result
              (d.sql_exec ctx db
                (insert_sql table (keys row))
                (values row)
                (d.sql_query_row ctx db
                  (insert_returning_sql table (keys row))
                  (values row)
                  s.world).1).0)
        × ((insert_data d rt m ctx [] table row s).1.calls
            ≡ Call.sql_exec ctx db (insert_sql table (keys row)) (values row)
              ∷ Call.sql_query_row ctx db (insert_returning_sql table (keys row)) (values row)
              ∷ s.calls)
  unfolding insert_data get_postgres_connection
  insert_data-again e h = (ground arith, ground arith)

abbrev with_reason : GoError → Result GoError Value → Result GoError Value
with_reason reason (ok v) = ok v
with_reason reason (err e) = err reason

-- The same driver, where each statement that returns one row fails for the same reason if it fails.
abbrev pub failing_for : {W : Type 0} → GoError → Driver W → Driver W
failing_for reason d = record d {
  sql_query_row = λ ctx db text args w. (
    with_reason reason (d.sql_query_row ctx db text args w).0,
    (d.sql_query_row ctx db text args w).1,
  );
}

module _ {W : Type 0} (d : Driver W) (rt : Runtime) (m : Manager) (ctx : Ctx) where
  -- InsertData does not look at the reason for which its INSERT with RETURNING id fails: whatever the
  -- reason, "column id does not exist" or a connection that is lost behind the insertion, it makes
  -- the same calls, answers the same and leaves the same world, for all databases, tables and rows and
  -- from all states.
  pub insert_data-ignores_reason :
      (reason : GoError) (database table : Text) (row : Row) (s : State W Call)
      → insert_data (failing_for reason d) rt m ctx database table row s
        ≡ insert_data d rt m ctx database table row s
  unfolding insert_data get_postgres_connection
  insert_data-ignores_reason reason database table row s = ground arith
