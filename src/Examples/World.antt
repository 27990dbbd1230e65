-- ===== src/Examples/World.antt =====
-- A small world for the examples: a Redis that keeps its keys, a PostgreSQL and a MongoDB that answer
-- each call in one way, and a configuration.
use database_router.Shared.{true, refl, none, some, List, [], ◌∷◌, if◌then◌else◌}
use database_router.Shared.Action.{State, Result, ok, err}
use database_router.Shared.Int.{ℤ, pos, negsuc}
use database_router.Text.{Text, codes, text_eq}
use database_router.Text.Laws.{text_eq_refl}
use database_router.Value.{int, str, Runtime, Row, empty_row, entry}
use database_router.Fault.{GoError, message}
use database_router.Config.{Config, TlsConfig}
use database_router.Driver.{Driver, RowSet, scannable, unscannable}
use database_router.Driver.Calls.{Call}
use database_router.Manager.{Manager}
use database_router.Tls.{Crypto}
use database_router.Server.Redis.RoundTrip.{remaining, IsLawfulRedis}

-- The keys of the Redis, each with its value and the time that TTL reports.
abbrev pub Keys : Type 0
Keys = List (Text × Text × ℤ)

unfoldable pub value_of : Text → Keys → Result GoError Text
value_of key [] = err (message (codes "redis: nil"))
value_of key ((k, v, t) ∷ rest) = if text_eq k key then ok v else value_of key rest

pub ttl_of : Text → Keys → Result GoError ℤ
ttl_of key [] = ok (negsuc 1)
ttl_of key ((k, v, t) ∷ rest) = if text_eq k key then ok t else ttl_of key rest

abbrev pub two_rows : RowSet
two_rows = record {
  columns = ok (codes "id" ∷ codes "name" ∷ []);
  rows =
      scannable (int (pos 1) ∷ str (codes "ann") ∷ [])
      ∷ unscannable []
      ∷ scannable (int (pos 2) ∷ str (codes "bob") ∷ [])
      ∷ [];
  stopped_by = some (message (codes "connection reset"));
}

abbrev pub driver : Driver Keys
driver = record {
  sql_open = λ dsn w. (ok 7, w);
  sql_ping = λ ctx h w. (ok tt, w);
  sql_query = λ ctx h text args w. (ok two_rows, w);
  sql_query_row = λ ctx h text args w. (err (message (codes "column id does not exist")), w);
  sql_exec = λ ctx h text args w. (ok (ok (pos 1)), w);
  sql_close = λ h w. (ok tt, w);
  mongo_connect = λ ctx uri w. (ok 8, w);
  mongo_ping = λ ctx h w. (err (message (codes "no reachable servers")), w);
  mongo_disconnect = λ ctx h w. (ok tt, w);
  list_database_names = λ ctx h w. (ok (codes "admin" ∷ []), w);
  list_collection_names = λ ctx h db w. (ok (codes "users" ∷ []), w);
  insert_one = λ ctx h db coll doc w. (ok (int (pos 5)), w);
  find = λ ctx h db coll w. (ok 9, w);
  cursor_all = λ ctx h w. (ok (empty_row ∷ []), w);
  cursor_close = λ ctx h w. (ok tt, w);
  update_one = λ ctx h db coll id row w. (ok (pos 1, pos 1), w);
  delete_one = λ ctx h db coll id w. (ok (pos 1), w);
  redis_new_client = λ addr password db w. (3, w);
  redis_ping = λ ctx h w. (err (message (codes "connection refused")), w);
  redis_keys = λ ctx h pattern w. (ok [], w);
  redis_set = λ ctx h key value e w. (ok tt, (key, value, remaining e) ∷ w);
  redis_get = λ ctx h key w. (value_of key w, w);
  redis_ttl = λ ctx h key w. (ttl_of key w, w);
  redis_del = λ ctx h key w. (ok (pos 1), w);
  redis_info = λ ctx h w. (ok (codes "redis_version:7"), w);
  redis_db_size = λ ctx h w. (ok (pos 1), w);
  redis_close = λ h w. (ok tt, w);
  object_id_from_hex = λ s. err (message (codes "the provided hex string is not valid"));
}

pub driver-IsLawfulRedis : IsLawfulRedis driver
unfolding value_of ttl_of
driver-IsLawfulRedis = record {
  get-set = λ ctx ctx' client key value e w h. rw (text_eq_refl key) refl;
  ttl-get-set = λ ctx ctx' ctx'' client key value e w h. rw (text_eq_refl key) refl;
}

-- The same world, where no PostgreSQL answers a ping.
abbrev pub silent : Driver Keys
silent = record driver { sql_ping = λ ctx h w. (err (message (codes "connection refused")), w) }

abbrev pub runtime : Runtime
runtime = record {
  upper = λ c. c;
  lower = λ c. c;
  sprint = λ v. codes "map[]";
  quoted = λ s. s;
  as_string = λ v. none;
  string_of_bytes = λ b. b;
}

abbrev pub tls_config : TlsConfig
tls_config = record {
  enabled = true;
  cert_file = codes "server.crt";
  key_file = codes "server.key";
  ca_file = codes "ca.crt";
  client_auth = codes "require";
}

abbrev pub config : Config
config = record {
  postgres = record {
    enabled = codes "true";
    host = codes "db";
    port = pos 5432;
    user = codes "admin";
    password = codes "secret";
    database = codes "main";
    ssl_mode = codes "disable";
  };
  mongo = record { enabled = codes "true"; uri = codes "mongodb://mongo"; database = codes "docs" };
  redis = record {
    enabled = codes "true";
    host = codes "cache";
    port = pos 6379;
    password = [];
    db = pos 0;
  };
  tls = tls_config;
}

abbrev pub manager : Manager
manager = record {
  config = config;
  postgres_db = some 1;
  mongo_db = some 2;
  redis_client = some 3;
  ctx = none;
}

-- No backend is connected.
abbrev pub offline : Manager
offline = record manager { postgres_db = none; mongo_db = none; redis_client = none }

abbrev pub fresh : State Keys Call
fresh = record { world = []; calls = [] }

abbrev pub ann : Row
ann = entry (codes "na\"me") (str (codes "ann")) (entry (codes "age") (int (pos 30)) empty_row)

abbrev pub crypto : Crypto
crypto = record {
  load_key_pair = λ cert key. ok 11;
  key_pair = λ cert key. ok 12;
  read_file = λ path. ok (codes "pem");
  pool_of_pem = λ pem. some 13;
}
