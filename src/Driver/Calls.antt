-- ===== src/Driver/Calls.antt =====
-- The calls that the program makes to its surroundings, as values: the trace of a run is a list of
-- them. They carry all arguments of the call, the context's time limit in seconds first, where the
-- call takes a context.
use database_router.Shared.{ℕ, Option, List}
use database_router.Shared.Int.{ℤ}
use database_router.Text.{Text}
use database_router.Value.{Value, Row}
use database_router.Tls.{Credentials}

-- A context, by the time that it leaves to a call.
abbrev pub Ctx : Type 0
Ctx = Option ℕ

-- A handle of a driver: a *sql.DB, a *mongo.Client, a cursor, a *redis.Client.
abbrev pub Handle : Type 0
Handle = ℕ

pub data Call : Type 0 where
  log : Text → Call
  -- the file system
  stat read_file : Text → Call
  write_file : Text → Text → Call
  -- net.Listen
  listen : Text → Call
  -- Serve of a grpc.Server with these credentials
  serve : Credentials → Call
  -- database/sql with lib/pq
  -- with the handle that it gave, if it gave one
  sql_open : Text → Option Handle → Call
  set_max_open_conns set_max_idle_conns set_conn_max_lifetime : Handle → ℕ → Call
  sql_ping : Ctx → Handle → Call
  sql_query : Ctx → Handle → Text → List Value → Call
  -- QueryRowContext and Scan of one value
  sql_query_row : Ctx → Handle → Text → List Value → Call
  sql_exec : Ctx → Handle → Text → List Value → Call
  -- rows.Close()
  rows_close : Handle → Call
  sql_close : Handle → Call
  -- the MongoDB driver
  mongo_connect : Ctx → Text → Call
  mongo_ping : Ctx → Handle → Call
  mongo_disconnect : Ctx → Handle → Call
  list_database_names : Ctx → Handle → Call
  list_collection_names : Ctx → Handle → Text → Call
  insert_one : Ctx → Handle → Text → Text → Row → Call
  find : Ctx → Handle → Text → Text → Call
  cursor_all : Ctx → Handle → Call
  cursor_close : Ctx → Handle → Call
  -- by `_id`, with the `$set` of a row
  update_one : Ctx → Handle → Text → Text → ℕ → Row → Call
  delete_one : Ctx → Handle → Text → Text → ℕ → Call
  -- go-redis
  redis_new_client : Text → Text → ℤ → Call
  redis_ping : Ctx → Handle → Call
  redis_keys : Ctx → Handle → Text → Call
  -- key, value, expiration in nanoseconds
  redis_set : Ctx → Handle → Text → Text → ℤ → Call
  redis_get redis_ttl redis_del : Ctx → Handle → Text → Call
  redis_info redis_db_size : Ctx → Handle → Call
  redis_close : Handle → Call
