-- ===== src/Server/Dispatch/Own.antt =====
-- Every request uses the PostgreSQL connection of the manager and those that it has opened itself, and
-- closes only its own.
use database_router.Shared.{
  ◌≡◌, ◌||◌, Bool, true, none, some, Option, List, [], ◌∷◌, ◌++◌, ◌==◌, arith,
}
use database_router.Shared.Action.{State}
use database_router.Value.{Runtime}
use database_router.Driver.{Driver}
use database_router.Driver.Calls.{Call, Ctx, Handle}
use database_router.Driver.Handles.{still_open, is_open}
use database_router.Driver.Handles.Counts.{handle_of, Meets, Closes}
use database_router.Manager.{Manager, get_postgres_connection}
use database_router.Server.Dispatch.{
  PostgresRequest, MongoRequest, RedisRequest, HealthRequest, Request, to_postgres, to_mongo,
  to_redis, to_health, handle_postgres, handle_mongo, handle_redis, handle_health, handle,
}
use database_router.Server.Registry.{new_servers}

-- May a request use the connection, where it has opened those of the list?
abbrev pub may_use : Option Handle → Handle → List Handle → Bool
may_use none h own = is_open h own
may_use (some db) h own = db == h || is_open h own

may_use-own :
    (db : Option Handle) (h : Handle) (own : List Handle)
    → is_open h own ≡ true
    → may_use db h own ≡ true
may_use-own none h own o = o
may_use-own (some db) h own o = ground arith

-- From the trace of one request alone, whose latest call stands first.
abbrev pub Tidy : Option Handle → List Call → Type 0
Tidy db [] = Unit
Tidy db (Call.set_max_open_conns h n ∷ calls) =
    (may_use db h (still_open calls) ≡ true) × Tidy db calls
Tidy db (Call.set_max_idle_conns h n ∷ calls) =
    (may_use db h (still_open calls) ≡ true) × Tidy db calls
Tidy db (Call.set_conn_max_lifetime h n ∷ calls) =
    (may_use db h (still_open calls) ≡ true) × Tidy db calls
Tidy db (Call.sql_ping c h ∷ calls) = (may_use db h (still_open calls) ≡ true) × Tidy db calls
Tidy db (Call.sql_query c h text args ∷ calls) =
    (may_use db h (still_open calls) ≡ true) × Tidy db calls
Tidy db (Call.sql_query_row c h text args ∷ calls) =
    (may_use db h (still_open calls) ≡ true) × Tidy db calls
Tidy db (Call.sql_exec c h text args ∷ calls) =
    (may_use db h (still_open calls) ≡ true) × Tidy db calls
Tidy db (Call.rows_close h ∷ calls) = (may_use db h (still_open calls) ≡ true) × Tidy db calls
Tidy db (Call.sql_close h ∷ calls) = (is_open h (still_open calls) ≡ true) × Tidy db calls
Tidy db (_ ∷ calls) = Tidy db calls

-- What a call that keeps a trace tidy may use and close.
pub Tidy-step :
    (db : Option Handle) (c : Call) (calls : List Call)
    → Tidy db (c ∷ calls)
    → Meets (λ h. may_use db h (still_open calls)) (handle_of c)
      × Closes c (still_open calls)
      × Tidy db calls
Tidy-step db (Call.set_max_open_conns h n) calls (u, t) = (u, tt, t)
Tidy-step db (Call.set_max_idle_conns h n) calls (u, t) = (u, tt, t)
Tidy-step db (Call.set_conn_max_lifetime h n) calls (u, t) = (u, tt, t)
Tidy-step db (Call.sql_ping c h) calls (u, t) = (u, tt, t)
Tidy-step db (Call.sql_query c h text args) calls (u, t) = (u, tt, t)
Tidy-step db (Call.sql_query_row c h text args) calls (u, t) = (u, tt, t)
Tidy-step db (Call.sql_exec c h text args) calls (u, t) = (u, tt, t)
Tidy-step db (Call.rows_close h) calls (u, t) = (u, tt, t)
Tidy-step db (Call.sql_close h) calls (u, t) = (may_use-own db h (still_open calls) u, u, t)
Tidy-step db _ calls t = (tt, tt, t)

pub Tidy-earlier :
    (db : Option Handle) (later calls : List Call) → Tidy db (later ++ calls) → Tidy db calls
Tidy-earlier db [] calls t = t
Tidy-earlier db (c ∷ later) calls t =
    Tidy-earlier db later calls (Tidy-step db c (later ++ calls) t).2

abbrev pub started : {W : Type 0} → W → State W Call
started w = record { world = w; calls = [] }

module _ {W : Type 0} (d : Driver W) (rt : Runtime) (m : Manager) (ctx : Ctx) (w : W) where
  handle_postgres-Tidy :
      (q : PostgresRequest)
      → Tidy m.postgres_db (handle_postgres rt (new_servers d rt m) ctx (started w) q).calls
  unfolding handle_postgres still_open get_postgres_connection
  handle_postgres-Tidy PostgresRequest.list_databases = ground arith
  handle_postgres-Tidy q = ground arith

  handle_mongo-Tidy :
      (q : MongoRequest)
      → Tidy m.postgres_db (handle_mongo rt (new_servers d rt m) ctx (started w) q).calls
  unfolding handle_mongo
  handle_mongo-Tidy MongoRequest.list_databases = ground arith
  handle_mongo-Tidy q = ground arith

  handle_redis-Tidy :
      (q : RedisRequest)
      → Tidy m.postgres_db (handle_redis rt (new_servers d rt m) ctx (started w) q).calls
  unfolding handle_redis
  handle_redis-Tidy RedisRequest.info = ground arith
  handle_redis-Tidy q = ground arith

  handle_health-Tidy :
      (q : HealthRequest)
      → Tidy m.postgres_db (handle_health rt (new_servers d rt m) ctx (started w) q).calls
  unfolding handle_health still_open
  handle_health-Tidy HealthRequest.check = ground arith
  handle_health-Tidy q = ground arith

  -- Whatever the request and whatever the drivers answer, a request uses the connection of the
  -- manager and those that it has opened and not closed, and closes only the latter.
  pub handle-Tidy :
      (q : Request) → Tidy m.postgres_db (handle rt (new_servers d rt m) ctx (started w) q).calls
  unfolding handle
  handle-Tidy (to_postgres q) = handle_postgres-Tidy q
  handle-Tidy (to_mongo q) = handle_mongo-Tidy q
  handle-Tidy (to_redis q) = handle_redis-Tidy q
  handle-Tidy (to_health q) = handle_health-Tidy q
