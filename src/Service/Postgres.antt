-- ===== src/Service/Postgres.antt =====
-- internal/service/postgres.go: the PostgreSQL service. The SQL texts are in `Sql.antt`.
pub mod Contexts
pub mod Maps
pub mod Inserts
pub mod Leaks
pub mod Rejections
pub mod Sends
pub mod Queries
pub mod Outcomes
pub mod Tables
pub mod Changes
use database_router.Shared.{
  ℕ, Bool, true, false, not, ◌||◌, ◌+◌, Option, none, some, List, [], ◌∷◌, ◌++◌, length, ◌==◌,
  if◌then◌else◌,
}
use database_router.Shared.Action.{
  Result, ok, err, pure, raise, lift, attempt, finally, ◌>>=◌, ◌>>◌,
}
use database_router.Shared.Int.{ℤ, pos, ltb_ℤ, wrap}
use database_router.Text.{Text, codes, is_empty, trim_space, to_upper, has_prefix}
use database_router.Value.{Value, str, int, Row, keys, values, Runtime}
use database_router.Fault.{GoError, not_enabled, message}
use database_router.Sql.{
  is_valid_identifier, create_database_sql, select_sql, delete_sql, insert_sql,
  insert_returning_sql, update_sql,
}
use database_router.Driver.Run
use database_router.Driver.{Driver, Go, tell, RowSet, Affected}
use database_router.Driver.Calls.{Call, Ctx, Handle}
use database_router.Manager.{Manager, get_postgres_connection}
use database_router.Service.Results.{QueryResult, collect_names, collect_rows, columns_or_none}

abbrev list_databases_sql : Text
list_databases_sql = codes "SELECT datname FROM pg_database WHERE datistemplate = false"

abbrev list_tables_sql : Text
list_tables_sql =
    codes
      "\n\t\tSELECT table_name\n\t\tFROM information_schema.tables\n\t\tWHERE table_schema = 'public' AND table_type = 'BASE TABLE'"

-- Does the statement return rows? The test of ExecuteQuery, on the trimmed text.
unfoldable pub is_select_query : (ℕ → ℕ) → Text → Bool
is_select_query upper trimmed =
    let text = to_upper upper trimmed in
    has_prefix text (codes "SELECT")
    || has_prefix text (codes "SHOW")
    || has_prefix text (codes "WITH")
    || has_prefix text (codes "TABLE")
    || has_prefix text (codes "VALUES")

-- `affected, _ := result.RowsAffected()`
abbrev affected_or_zero : Affected → ℤ
affected_or_zero (ok n) = n
affected_or_zero (err e) = pos 0

-- `if !condition { return fmt.Errorf(text) }`
abbrev pub require : {W : Type 0} → Bool → Text → Go W (Unit {0})
require true text = pure tt
require false text = raise (message text)

module _ {W : Type 0} (d : Driver W) (rt : Runtime) (m : Manager) (ctx : Ctx) where
  -- `if s.db.PostgresDB == nil { return ErrNotEnabled("PostgreSQL") }`, and the handle otherwise
  abbrev postgres_enabled : Go W Handle
  postgres_enabled = elim m.postgres_db [
    | none ↦ raise (not_enabled (codes "PostgreSQL"))
    | some db ↦ pure db
  ]

  -- `if isTemp { defer conn.Close() }`
  abbrev close_if : Bool → Handle → Go W (Unit {0})
  close_if true conn = do attempt (Run.sql_close d conn); pure tt
  close_if false conn = pure tt

  -- The connection to a database, for as long as `body` runs.
  with_connection : {A : Type 0} → Text → (Handle → Go W A) → Go W A
  with_connection database body = do
    (conn, is_temp) ← get_postgres_connection d m database
    finally (body conn) (close_if is_temp conn)

  unfoldable pub list_databases : Go W (List Text)
  list_databases = do
    db ← postgres_enabled
    rows ← Run.sql_query d ctx db list_databases_sql []
    finally (pure (collect_names rt.as_string [] rows.rows)) (tell (Call.rows_close db))

  unfoldable pub create_database : Text → Go W (Unit {0})
  create_database name = do
    db ← postgres_enabled
    require (is_valid_identifier name) (codes "invalid database name: " ++ rt.quoted name)
    Run.sql_exec d ctx db (create_database_sql name) []
    pure tt

  unfoldable pub list_tables : Text → Go W (List Text)
  unfolding with_connection
  list_tables database = do
    postgres_enabled
    with_connection database λ conn. do
      rows ← Run.sql_query d ctx conn list_tables_sql []
      finally (pure (collect_names rt.as_string [] rows.rows)) (tell (Call.rows_close conn))

  -- The branch of ExecuteQuery for a statement that returns rows.
  run_select : Handle → Text → Go W QueryResult
  run_select conn trimmed = do
    rows ← Run.sql_query d ctx conn trimmed []
    finally
        (do
          columns ← lift rows.columns
          let results = collect_rows columns [] rows.rows
          pure (record {
            columns = columns;
            rows = results;
            rows_affected = wrap 64 (pos (length results));
            is_select = true;
          }))
        (tell (Call.rows_close conn))

  run_exec : Handle → Text → Go W QueryResult
  run_exec conn trimmed = do
    result ← Run.sql_exec d ctx conn trimmed []
    pure (record {
      columns = [];
      rows = [];
      rows_affected = affected_or_zero result;
      is_select = false;
    })

  unfoldable pub execute_query : Text → Text → Go W QueryResult
  unfolding with_connection run_select run_exec
  execute_query query database = do
    postgres_enabled
    with_connection database λ conn.
        let trimmed = trim_space query in
        if is_select_query rt.upper trimmed then run_select conn trimmed else run_exec conn trimmed

  unfoldable pub select_data : Text → Text → ℤ → Go W (List Row)
  unfolding with_connection
  select_data database table limit = do
    postgres_enabled
    require (is_valid_identifier table) (codes "invalid table name")
    require (not (ltb_ℤ limit (pos 1) || ltb_ℤ (pos 10000) limit))
        (codes "limit must be between 1 and 10000")
    with_connection database λ conn. do
      rows ← Run.sql_query d ctx conn (select_sql table) (int limit ∷ [])
      finally (pure (collect_rows (columns_or_none rows.columns) [] rows.rows))
          (tell (Call.rows_close conn))

  -- What InsertData does with the outcome of the statement that returns the id.
  after_insert : Handle → Text → Row → Result GoError Value → Go W Text
  after_insert conn table row (ok id) = pure (rt.sprint id)
  after_insert conn table row (err e) = do
    Run.sql_exec d ctx conn (insert_sql table (keys row)) (values row)
    pure []

  unfoldable pub insert_data : Text → Text → Row → Go W Text
  unfolding with_connection after_insert
  insert_data database table row = do
    postgres_enabled
    require (is_valid_identifier table) (codes "invalid table name")
    with_connection database λ conn. do
      inserted ←
          attempt
            (Run.sql_query_row d ctx conn (insert_returning_sql table (keys row)) (values row))
      after_insert conn table row inserted

  unfoldable pub update_data : Text → Text → Text → Row → Go W ℤ
  unfolding with_connection
  update_data database table id row = do
    postgres_enabled
    require (is_valid_identifier table) (codes "invalid table name")
    require (not (length (keys row) == 0)) (codes "no data to update")
    with_connection database λ conn. do
      result ← Run.sql_exec d ctx conn (update_sql table (keys row)) (values row ++ str id ∷ [])
      pure (affected_or_zero result)

  unfoldable pub delete_data : Text → Text → Text → Go W ℤ
  unfolding with_connection
  delete_data database table id = do
    postgres_enabled
    require (is_valid_identifier table) (codes "invalid table name")
    with_connection database λ conn. do
      result ← Run.sql_exec d ctx conn (delete_sql table) (str id ∷ [])
      pure (affected_or_zero result)

  unfoldable pub test_connection : Go W (Text × Text)
  test_connection = do
    db ← postgres_enabled
    Run.sql_ping d ctx db
    pure (m.config.postgres.host, m.config.postgres.database)
