-- ===== src/Core/Confinement.antt =====
-- Where the operations of a client work: in the databases and the keys of its own namespace.
use database_router.Shared.{
  ◌≡◌, ◌⊎◌, refl, sym, true, some, List, [], ◌∷◌, ◌++◌, All, All-append, arith, Option-cases, inl,
  inr,
}
use database_router.Shared.Action.{State, Result}
use database_router.Shared.Int.{ℤ}
use database_router.Text.{Text, codes, text_eq, is_empty}
use database_router.Text.Laws.{text_eq_iff}
use database_router.Value.{Runtime, Row, Fields}
use database_router.Driver.{Driver}
use database_router.Driver.Calls.{Call, Ctx, Handle}
use database_router.Config.{PostgresConfig}
use database_router.Manager.{Manager, conn_str, get_postgres_connection}
use database_router.Manager.Dsn.{settings, effective}
use database_router.Manager.Dsn.Settings.{IsPlain, IsBare, IsBareConfig, settings-conn_str}
use database_router.Service.Postgres
use database_router.Service.Mongo
use database_router.Service.Redis
use database_router.Core.{Failure, Remote, Client, named_client}
use database_router.Core.Operations.{pg_query, pg_insert, mongo_insert, redis_set, redis_get}
use database_router.Core.EndToEnd.{router_of}

-- One of the calls has opened the connection `h`.
abbrev Opened : Handle → List Call → Type 0
Opened h [] = ⊥
Opened h (Call.sql_open dsn (some k) ∷ calls) = (h ≡ k) ⊎ Opened h calls
Opened h (_ ∷ calls) = Opened h calls

-- The connection `h` is one to the database of the namespace: it has been opened by the calls `before`,
-- or it is that of the manager, whose database is this one.
abbrev OnOwn : Manager → Text → Handle → List Call → Type 0
OnOwn m app h before =
    Opened h before ⊎ ((m.postgres_db ≡ some h) × (m.config.postgres.database ≡ app ++ codes "_pg"))

-- A call of the server that stays within the namespace `app`, behind the calls `before`: a connection to
-- its database, a statement on a connection to it, a document for its database,
-- or a key with its prefix. Any other call on data does not.
abbrev StaysIn : Manager → Text → List Call → Call → Type 0
StaysIn m app before (Call.sql_open dsn h) =
    effective (codes "dbname") (settings dsn) ≡ some (app ++ codes "_pg")
StaysIn m app before (Call.insert_one c h db coll doc) = db ≡ app ++ codes "_mongo"
StaysIn m app before (Call.redis_set c h key value e) = (k : Text) × (key ≡ app ++ codes ":" ++ k)
StaysIn m app before (Call.redis_get c h key) = (k : Text) × (key ≡ app ++ codes ":" ++ k)
StaysIn m app before (Call.redis_ttl c h key) = (k : Text) × (key ≡ app ++ codes ":" ++ k)
StaysIn m app before (Call.sql_ping c h) = OnOwn m app h before
StaysIn m app before (Call.sql_query c h text args) = OnOwn m app h before
StaysIn m app before (Call.sql_query_row c h text args) = OnOwn m app h before
StaysIn m app before (Call.sql_exec c h text args) = OnOwn m app h before
StaysIn m app before (Call.rows_close h) = Unit
StaysIn m app before (Call.sql_close h) = OnOwn m app h before
StaysIn m app before _ = ⊥

-- The calls of a trace, the latest first, all stay within the namespace.
abbrev AllStayIn : Manager → Text → List Call → Type 0
AllStayIn m app [] = Unit
AllStayIn m app (call ∷ before) = StaysIn m app before call × AllStayIn m app before

-- The calls that `act` makes from a world stay within the namespace.
abbrev pub Confined : {W A : Type 0} → Manager → Text → W → Remote W A → Type 0
Confined m app w act = AllStayIn m app (act (record { world = w; calls = [] })).1.calls

IsBare-append : (s t : Text) → IsBare s → All IsPlain t → IsBare (s ++ t)
IsBare-append [] t h k = absurd h
IsBare-append (c ∷ s) t (hc, h) k = (hc, All-append IsPlain s t h k)

effective-conn_str :
    (c : PostgresConfig) (dbname : Text)
    → IsBareConfig c
    → IsBare dbname
    → effective (codes "dbname") (settings (conn_str c dbname)) ≡ some dbname
unfolding effective text_eq
effective-conn_str c dbname bare h = rw (settings-conn_str c bare dbname h) refl

module _ {W : Type 0} (d : Driver W) (rt : Runtime) (describe : Failure → Text)
    (new_struct : Row → Result Text Fields) (m : Manager) (ctx : Ctx) (app : Text) (w : W)
    (bare : IsBareConfig m.config.postgres) (bare_app : IsBare app) where
  abbrev client : Client W
  client = named_client app (router_of d rt m ctx)

  abbrev from : State W Call
  from = record { world = w; calls = [] }

  prefixed : (key : Text) → (k : Text) × (app ++ codes ":" ++ key ≡ app ++ codes ":" ++ k)
  prefixed key = (key, refl)

  dsn_stays :
      effective (codes "dbname") (settings (conn_str m.config.postgres (app ++ codes "_pg")))
      ≡ some (app ++ codes "_pg")
  unfolding database_router.Text.is_space
  dsn_stays =
      effective-conn_str m.config.postgres (app ++ codes "_pg") bare
        (IsBare-append app (codes "_pg") bare_app (ground arith))

  same_database :
      text_eq (app ++ codes "_pg") m.config.postgres.database ≡ true
      → m.config.postgres.database ≡ app ++ codes "_pg"
  same_database h = sym ((text_eq_iff (app ++ codes "_pg") m.config.postgres.database).0 h)

  pg_query-StaysIn :
      (query : Text) → AllStayIn m app (pg_query rt describe new_struct client query from).1.calls
  unfolding pg_query named_client database_router.Server.Postgres.execute_query
      Postgres.execute_query get_postgres_connection
  pg_query-StaysIn query = elim (Option-cases m.postgres_db) [
    | inl off ↦ ground arith
    | inr (h, on) ↦ ground (arith, dsn_stays, same_database)
  ]

  pg_insert-StaysIn :
      (table : Text) (row : Row)
      → AllStayIn m app (pg_insert rt describe new_struct client table row from).1.calls
  unfolding pg_insert named_client database_router.Server.Postgres.insert_data Postgres.insert_data
      get_postgres_connection
  pg_insert-StaysIn table row = elim (Option-cases m.postgres_db) [
    | inl off ↦ ground arith
    | inr (h, on) ↦ ground (arith, dsn_stays, same_database)
  ]

  mongo_insert-StaysIn :
      (collection : Text) (doc : Row)
      → AllStayIn m app (mongo_insert rt describe new_struct client collection doc from).1.calls
  unfolding mongo_insert named_client database_router.Server.Mongo.insert_document
      Mongo.insert_document
  mongo_insert-StaysIn collection doc = ground arith

  redis_set-StaysIn :
      (key value : Text) (ttl : ℤ)
      → AllStayIn m app (redis_set rt describe new_struct client key value ttl from).1.calls
  unfolding redis_set named_client database_router.Server.Redis.set_value Redis.set_value
  redis_set-StaysIn key value ttl = elim (Option-cases m.redis_client) [
    | inl off ↦ ground arith
    | inr (h, on) ↦ ground (arith, prefixed key)
  ]

  redis_get-StaysIn :
      (key : Text) → AllStayIn m app (redis_get rt describe new_struct client key from).1.calls
  unfolding redis_get named_client database_router.Server.Redis.get_value Redis.get_value
  redis_get-StaysIn key = elim (Option-cases m.redis_client) [
    | inl off ↦ ground arith
    | inr (h, on) ↦ ground (arith, prefixed key)
  ]

  -- The five operations on data of a client make only calls within its namespace, whatever the drivers
  -- answer, if neither the namespace nor the configuration holds a character that is special in a
  -- connection string: they open only the database of the namespace, send statements only on a
  -- connection to it, which they have opened or which is that of a manager with this database, store
  -- documents only in its own database, and read and write only keys with its prefix.
  pub operations-StaysIn :
      (query table collection key value : Text) (row : Row) (ttl : ℤ)
      → Confined m app w (pg_query rt describe new_struct client query)
        × Confined m app w (pg_insert rt describe new_struct client table row)
        × Confined m app w (mongo_insert rt describe new_struct client collection row)
        × Confined m app w (redis_set rt describe new_struct client key value ttl)
        × Confined m app w (redis_get rt describe new_struct client key)
  operations-StaysIn query table collection key value row ttl = (
    pg_query-StaysIn query,
    pg_insert-StaysIn table row,
    mongo_insert-StaysIn collection row,
    redis_set-StaysIn key value ttl,
    redis_get-StaysIn key,
  )
