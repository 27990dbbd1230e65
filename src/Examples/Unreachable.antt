-- ===== src/Examples/Unreachable.antt =====
-- Databases that cannot be reached: the examples replace the calls that they are about.
use database_router.Shared.Action.{err}
use database_router.Text.{codes}
use database_router.Fault.{GoError, message}
use database_router.Driver.{Driver}

abbrev pub lost : GoError
lost = message (codes "driver: bad connection")

-- All calls fail and change nothing.
abbrev pub unreachable : {W : Type 0} → Driver W
unreachable = record {
  sql_open = λ dsn w. (err lost, w);
  sql_ping = λ ctx h w. (err lost, w);
  sql_query = λ ctx h text args w. (err lost, w);
  sql_query_row = λ ctx h text args w. (err lost, w);
  sql_exec = λ ctx h text args w. (err lost, w);
  sql_close = λ h w. (err lost, w);
  mongo_connect = λ ctx uri w. (err lost, w);
  mongo_ping = λ ctx h w. (err lost, w);
  mongo_disconnect = λ ctx h w. (err lost, w);
  list_database_names = λ ctx h w. (err lost, w);
  list_collection_names = λ ctx h db w. (err lost, w);
  insert_one = λ ctx h db coll doc w. (err lost, w);
  find = λ ctx h db coll w. (err lost, w);
  cursor_all = λ ctx h w. (err lost, w);
  cursor_close = λ ctx h w. (err lost, w);
  update_one = λ ctx h db coll id row w. (err lost, w);
  delete_one = λ ctx h db coll id w. (err lost, w);
  redis_new_client = λ addr password db w. (3, w);
  redis_ping = λ ctx h w. (err lost, w);
  redis_keys = λ ctx h pattern w. (err lost, w);
  redis_set = λ ctx h key value e w. (err lost, w);
  redis_get = λ ctx h key w. (err lost, w);
  redis_ttl = λ ctx h key w. (err lost, w);
  redis_del = λ ctx h key w. (err lost, w);
  redis_info = λ ctx h w. (err lost, w);
  redis_db_size = λ ctx h w. (err lost, w);
  redis_close = λ h w. (err lost, w);
  object_id_from_hex = λ s. err lost;
}
