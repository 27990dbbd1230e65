-- ===== src/Service/Postgres/Maps.antt =====
-- The rows that ExecuteQuery returns are maps.
use database_router.Shared.{[], All, arith, Option-cases, inl, inr}
use database_router.Shared.Action.{State, Result, ok, err, Result-cases}
use database_router.Text.{Text, trim_space}
use database_router.Value.{Runtime}
use database_router.Value.Rows.{HasDistinctKeys}
use database_router.Fault.{GoError}
use database_router.Driver.{Driver}
use database_router.Driver.Calls.{Call, Ctx, Handle}
use database_router.Manager.{Manager, get_postgres_connection}
use database_router.Service.Results.{QueryResult}
use database_router.Service.Results.Rows.{collect_rows-HasDistinctKeys}
use database_router.Service.Postgres.{run_select, run_exec, execute_query}

abbrev pub HasMaps : Result GoError QueryResult → Type 0
HasMaps (ok r) = All HasDistinctKeys r.rows
HasMaps (err e) = Unit

module _ {W : Type 0} (d : Driver W) (rt : Runtime) (m : Manager) (ctx : Ctx) where
  run_select-HasMaps :
      (conn : Handle) (trimmed : Text) (s : State W Call)
      → HasMaps (run_select d rt m ctx conn trimmed s).0
  unfolding run_select
  run_select-HasMaps conn trimmed s =
      elim (Result-cases (d.sql_query ctx conn trimmed [] s.world).0) [
        | inr (e, failed) ↦ rw failed tt
        | inl (rows, queried) ↦ elim (Result-cases rows.columns) [
          | inr (e, failed) ↦ rw (queried, failed) tt
          | inl (columns, found) ↦
              rw (queried, found) (collect_rows-HasDistinctKeys columns [] rows.rows tt)
        ]
      ]

  run_exec-HasMaps :
      (conn : Handle) (trimmed : Text) (s : State W Call)
      → HasMaps (run_exec d rt m ctx conn trimmed s).0
  unfolding run_exec
  run_exec-HasMaps conn trimmed s = elim (Result-cases (d.sql_exec ctx conn trimmed [] s.world).0) [
    | inr (e, failed) ↦ rw failed tt
    | inl (affected, done) ↦ rw done tt
  ]

  pub execute_query-HasMaps :
      (query database : Text) (s : State W Call)
      → HasMaps (execute_query d rt m ctx query database s).0
  unfolding execute_query
  execute_query-HasMaps query database s = elim (Option-cases m.postgres_db) [
    | inl off ↦ ground arith
    | inr (db, on) ↦ elim (Result-cases (get_postgres_connection d m database s).0) [
      | inr (e, failed) ↦ ground arith
      | inl ((conn, is_temp), opened) ↦ ground (
        arith,
        run_select-HasMaps conn (trim_space query) (get_postgres_connection d m database s).1,
        run_exec-HasMaps conn (trim_space query) (get_postgres_connection d m database s).1,
      )
    ]
  ]
