-- ===== src/Server/Postgres/Reach.antt =====
-- Which PostgreSQL servers a request can make the router connect to.
use database_router.Shared.{
  ◌≡◌, ◌≢◌, refl, false, some, List, [], ◌∷◌, ◌++◌, arith, ◌||◌, if◌then◌else◌,
}
use database_router.Shared.Action.{State}
use database_router.Text.{Text, codes, text_eq, is_empty}
use database_router.Text.Laws.{text_eq_iff}
use database_router.Value.{Runtime}
use database_router.Driver.{Driver}
use database_router.Driver.Calls.{Call, Ctx, Handle}
use database_router.Manager.{Manager, conn_str, get_postgres_connection}
use database_router.Manager.Dsn.{settings, effective}
use database_router.Manager.Dsn.Settings.{IsBare, IsBareConfig}
use database_router.Manager.Dsn.Injection.{effective-injected}
use database_router.Service.Postgres
use database_router.Service.Backends.{new_postgres_service}
use database_router.Server.Postgres.{execute_query}

-- The connection strings that a trace opens, the latest first.
abbrev pub opened : List Call → List Text
opened [] = []
opened (Call.sql_open dsn h ∷ calls) = dsn ∷ opened calls
opened (_ ∷ calls) = opened calls

is_empty-append : (s t : Text) → IsBare s → is_empty (s ++ t) ≡ false
is_empty-append [] t h = absurd h
is_empty-append (c ∷ s) t h = refl

module _ {W : Type 0} (d : Driver W) (rt : Runtime) (m : Manager) (ctx : Ctx) (s : State W Call)
    (db : Handle) (enabled : m.postgres_db ≡ some db) where
  -- With PostgreSQL connected, ExecuteQuery opens one connection for a database that is not the
  -- default one, by the connection string of that name, whatever the name holds and whatever the
  -- drivers answer, and none for the default database.
  opened-execute_query :
      (query database : Text)
      → (opened (execute_query rt (new_postgres_service d rt m) ctx query database s).1.calls ≡ (
          if is_empty database || text_eq database m.config.postgres.database
          then opened s.calls
          else conn_str m.config.postgres database ∷ opened s.calls))
  unfolding execute_query Postgres.execute_query get_postgres_connection
  opened-execute_query query database = ground arith

  -- So a client chooses the server: for the database `name host=host`, where no value of the
  -- configuration needs quotes, ExecuteQuery opens a connection whose string names the server `host`,
  -- with the user and the password of the configuration.
  pub execute_query-reaches :
      (query name host : Text)
      → IsBareConfig m.config.postgres
      → IsBare name
      → IsBare host
      → name ++ (codes " host=" ++ host) ≢ m.config.postgres.database
      → (dsn : Text) × (opened
            (execute_query rt
              (new_postgres_service d rt m)
              ctx
              query
              (name ++ (codes " host=" ++ host))
              s).1.calls
          ≡ dsn ∷ opened s.calls)
        × (effective (codes "host") (settings dsn) ≡ some host)
        × (effective (codes "user") (settings dsn) ≡ some m.config.postgres.user)
        × (effective (codes "password") (settings dsn) ≡ some m.config.postgres.password)
  execute_query-reaches query name host bare bare_name bare_host other =
      let injected = effective-injected m.config.postgres bare name host bare_name bare_host in
      let database = name ++ (codes " host=" ++ host) in
      (
        conn_str m.config.postgres database,
        ground (
          arith,
          opened-execute_query query database,
          text_eq_iff database m.config.postgres.database,
          is_empty-append name (codes " host=" ++ host) bare_name,
        ),
        injected.0,
        injected.1,
        injected.2,
      )
