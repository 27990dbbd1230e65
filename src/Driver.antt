-- ===== src/Driver.antt =====
-- The drivers that the program calls, and the actions that call them. `W` is the outside world, with
-- the databases and the network in it: a driver's function answers from it and changes it.
pub mod Calls
pub mod Run
pub mod Handles
use database_router.Shared.{ℕ, List, [], ◌∷◌, Option, none, some}
use database_router.Shared.Int.{ℤ}
use database_router.Shared.Action.{Result, ok, Action, State}
use database_router.Text.{Text}
use database_router.Value.{Value, Row}
use database_router.Fault.{GoError}
use database_router.Driver.Calls.{Call, Ctx, Handle}

-- A row of a result, as database/sql holds it: `unscannable` is a row with a value that Scan cannot
-- convert.
pub data RawRow : Type 0 where
  scannable unscannable : List Value → RawRow

-- What QueryContext gives: rows.Columns(), the rows up to the end of the iteration, and the error
-- that rows.Err() reports then.
pub record RowSet : Type 0 where
  pub columns : Result GoError (List Text)
  pub rows : List RawRow
  pub stopped_by : Option GoError

-- sql.Result, by its RowsAffected()
abbrev pub Affected : Type 0
Affected = Result GoError ℤ

-- The matched and the modified documents of an update.
abbrev pub Counts : Type 0
Counts = ℤ × ℤ

pub record Driver (W : Type 0) : Type 0 where
  pub sql_open : Text → W → Result GoError Handle × W
  pub sql_ping : Ctx → Handle → W → Result GoError (Unit {0}) × W
  pub sql_query : Ctx → Handle → Text → List Value → W → Result GoError RowSet × W
  pub sql_query_row : Ctx → Handle → Text → List Value → W → Result GoError Value × W
  pub sql_exec : Ctx → Handle → Text → List Value → W → Result GoError Affected × W
  pub sql_close : Handle → W → Result GoError (Unit {0}) × W
  pub mongo_connect : Ctx → Text → W → Result GoError Handle × W
  pub mongo_ping : Ctx → Handle → W → Result GoError (Unit {0}) × W
  pub mongo_disconnect : Ctx → Handle → W → Result GoError (Unit {0}) × W
  pub list_database_names : Ctx → Handle → W → Result GoError (List Text) × W
  pub list_collection_names : Ctx → Handle → Text → W → Result GoError (List Text) × W
  pub insert_one : Ctx → Handle → Text → Text → Row → W → Result GoError Value × W
  pub find : Ctx → Handle → Text → Text → W → Result GoError Handle × W
  pub cursor_all : Ctx → Handle → W → Result GoError (List Row) × W
  pub cursor_close : Ctx → Handle → W → Result GoError (Unit {0}) × W
  pub update_one : Ctx → Handle → Text → Text → ℕ → Row → W → Result GoError Counts × W
  pub delete_one : Ctx → Handle → Text → Text → ℕ → W → Result GoError ℤ × W
  pub redis_new_client : Text → Text → ℤ → W → Handle × W
  pub redis_ping : Ctx → Handle → W → Result GoError (Unit {0}) × W
  pub redis_keys : Ctx → Handle → Text → W → Result GoError (List Text) × W
  pub redis_set : Ctx → Handle → Text → Text → ℤ → W → Result GoError (Unit {0}) × W
  pub redis_get : Ctx → Handle → Text → W → Result GoError Text × W
  pub redis_ttl : Ctx → Handle → Text → W → Result GoError ℤ × W
  pub redis_del : Ctx → Handle → Text → W → Result GoError ℤ × W
  pub redis_info : Ctx → Handle → W → Result GoError Text × W
  pub redis_db_size : Ctx → Handle → W → Result GoError ℤ × W
  pub redis_close : Handle → W → Result GoError (Unit {0}) × W
  -- primitive.ObjectIDFromHex
  pub object_id_from_hex : Text → Result GoError ℕ

-- A Go function that calls the drivers and may return an error.
abbrev pub Go : Type 0 → Type 0 → Type 0
Go W A = Action W Call GoError A

-- Calls that only note something: a log line, a setting of the connection pool, the end of a
-- result set.
abbrev pub tell : {W : Type 0} → Call → Go W (Unit {0})
tell c s = (ok tt, record s { calls = c ∷ s.calls })
