-- ===== src/Service/Postgres/Outcomes.antt =====
-- What the service returns for what the driver answers.
use database_router.Shared.{◌≡◌, refl, true, false, none, some, [], ◌∷◌, arith, List}
use database_router.Shared.Action.{State, Result, ok, err}
use database_router.Shared.Int.{ℤ, pos, ltb_ℤ, ◌≤ℤ◌}
use database_router.Text.{Text}
use database_router.Value.{int, Runtime, Row}
use database_router.Fault.{GoError}
use database_router.Sql.{is_valid_identifier, select_sql}
use database_router.Driver.{Driver, RowSet}
use database_router.Driver.Calls.{Call, Ctx, Handle}
use database_router.Manager.{Manager, get_postgres_connection}
use database_router.Service.Results.{columns_or_none, collect_rows}
use database_router.Service.Results.Rows.{ShowsRows, collect_rows-ShowsRows}
use database_router.Service.Postgres.{execute_query, select_data}

abbrev without_stop : Result GoError RowSet → Result GoError RowSet
without_stop (ok rows) = ok (record rows { stopped_by = none })
without_stop (err e) = err e

-- The same driver, where no result set reports an error behind its rows.
abbrev pub unstopped : {W : Type 0} → Driver W → Driver W
unstopped d = record d {
  sql_query = λ ctx db text args w.
      (without_stop (d.sql_query ctx db text args w).0, (d.sql_query ctx db text args w).1);
}

-- What the service may answer to what the driver has answered: rows that show those of the driver, or
-- its error.
abbrev pub Answers : Result GoError RowSet → Result GoError (List Row) → Type 0
Answers (ok set) r =
    (rows : List Row) × (r ≡ ok rows) × ShowsRows (columns_or_none set.columns) set.rows rows
Answers (err e) r = r ≡ err e

abbrev collected : Result GoError RowSet → Result GoError (List Row)
collected (ok set) = ok (collect_rows (columns_or_none set.columns) [] set.rows)
collected (err e) = err e

collected-Answers : (r : Result GoError RowSet) → Answers r (collected r)
collected-Answers (ok set) =
    (_, refl, collect_rows-ShowsRows (columns_or_none set.columns) set.rows)
collected-Answers (err e) = refl

module _ {W : Type 0} (d : Driver W) (rt : Runtime) (m : Manager) (ctx : Ctx)
    (s : State W Call) where
  -- An error that ends a result set early is lost: ExecuteQuery makes the same calls and returns the
  -- same result as if the rows read so far were all the rows.
  pub execute_query-unstopped :
      (query database : Text)
      → execute_query (unstopped d) rt m ctx query database s
        ≡ execute_query d rt m ctx query database s
  unfolding execute_query get_postgres_connection
  execute_query-unstopped query database = ground arith

  module _ (db : Handle) (enabled : m.postgres_db ≡ some db) (table : Text)
      (valid : is_valid_identifier table ≡ true) where
    select_data-collected :
        (limit : ℤ)
        → pos 1 ≤ℤ limit
        → limit ≤ℤ pos 10000
        → (select_data d rt m ctx [] table limit s).0
          ≡ collected (d.sql_query ctx db (select_sql table) (int limit ∷ []) s.world).0
    unfolding select_data get_postgres_connection
    select_data-collected limit low high =
        let above : ltb_ℤ limit (pos 1) ≡ false = ground arith in
        let below : ltb_ℤ (pos 10000) limit ≡ false = ground arith in ground arith

    -- On the default database, with a valid table and a limit from 1 to 10000, SelectData returns the
    -- driver's error, or one row for each row of the driver's result that scans and has as many cells
    -- as columns, in their order: it has, under each name and nothing else, the cell of the last
    -- column of that name.
    pub select_data-rows :
        (limit : ℤ)
        → pos 1 ≤ℤ limit
        → limit ≤ℤ pos 10000
        → Answers
            (d.sql_query ctx db (select_sql table) (int limit ∷ []) s.world).0
            (select_data d rt m ctx [] table limit s).0
    select_data-rows limit low high =
        let answered = d.sql_query ctx db (select_sql table) (int limit ∷ []) s.world in
        rw (select_data-collected limit low high) (collected-Answers answered.0)
