-- ===== src/Examples/Concurrent.antt =====
-- Two requests whose calls interleave.
use database_router.Shared.{ℕ, zero, suc, ◌<◌, ◌≡◌, refl, none, some, List, [], ◌∷◌, arith, ◌++◌}
use database_router.Shared.Action.{State, ok}
use database_router.Text.{Text, codes}
use database_router.Driver.{Driver}
use database_router.Driver.Calls.{Call, Handle}
use database_router.Driver.Handles.{still_open, WellUsed}
use database_router.Driver.Handles.Counts.{count}
use database_router.Server.Dispatch.{PostgresRequest, to_postgres}
use database_router.Server.Dispatch.Concurrent.{
  Job, Mixed, calls_of, of_request, trace_of, Interleaves, interleaved-WellUsed,
}
use database_router.Manager.{Manager, conn_str, new_manager, close}
use database_router.Boot.Concurrent.{program-WellUsed}
use database_router.Examples.World.{Keys, driver, runtime, config, manager, fresh}

-- The connections that a request opens have another number than that of the manager.
abbrev elsewhere : Driver Keys
elsewhere = record driver { sql_open = λ dsn w. (ok 9, w) }

abbrev connected : Manager
connected = record manager { postgres_db = some 7; mongo_db = none }

abbrev jobs : ℕ → Job Keys
jobs zero = record {
  driver = elsewhere;
  ctx = none;
  world = [];
  request = to_postgres (PostgresRequest.execute_query (codes "select 1") (codes "logs"));
}
jobs (suc i) = record {
  driver = driver;
  ctx = some 30;
  world = [];
  request = to_postgres PostgresRequest.list_databases;
}

abbrev logs_dsn : Text
logs_dsn = conn_str config.postgres (codes "logs")

abbrev names_sql : Text
names_sql = codes "SELECT datname FROM pg_database WHERE datistemplate = false"

abbrev calls : Mixed
calls =
    (0, Call.sql_close 9)
    ∷ (1, Call.rows_close 7)
    ∷ (0, Call.rows_close 9)
    ∷ (0, Call.sql_query none 9 (codes "select 1") [])
    ∷ (1, Call.sql_query (some 30) 7 names_sql [])
    ∷ (0, Call.sql_ping (some 5) 9)
    ∷ (0, Call.sql_open logs_dsn (some 9))
    ∷ []

traces : (i : ℕ) → i < 2 → of_request i calls ≡ trace_of runtime connected (jobs i)
unfolding database_router.Server.Dispatch.handle database_router.Manager.get_postgres_connection
    database_router.Text.text_eq database_router.Service.Postgres.is_select_query
    database_router.Text.has_prefix database_router.Text.to_upper database_router.Text.trim_space
traces zero b = refl
traces (suc zero) b = refl
traces (suc (suc i)) b = absurd (omega (arith, b))

mixed : Interleaves runtime connected 2 jobs calls
mixed = (ground arith, λ i low. ([], traces i low))

-- The connection of the manager has been opened.
abbrev base : List Call
base = Call.sql_open [] (some 7) ∷ []

interleaved-WellUsed_example : WellUsed (calls_of calls ++ base)
unfolding still_open
interleaved-WellUsed_example =
    interleaved-WellUsed runtime connected base refl tt 2 jobs calls mixed

was_started : (new_manager driver config fresh).0 ≡ ok connected
unfolding new_manager database_router.Text.text_eq
was_started = refl

abbrev stopped : State Keys Call
stopped = record { world = []; calls = calls_of calls ++ (new_manager driver config fresh).1.calls }

program-WellUsed_example :
    WellUsed (close driver connected stopped).1.calls
    × ((h : Handle)
        → count h (still_open (close driver connected stopped).1.calls) ≡ count h (still_open []))
program-WellUsed_example =
    program-WellUsed driver runtime config fresh tt connected was_started 7 refl 2 jobs calls mixed
      traces stopped refl
