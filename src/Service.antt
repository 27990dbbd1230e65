-- ===== src/Service.antt =====
-- internal/service/service.go: the interfaces that the server layer is written against. Each backend
-- has a module that implements its interface.
pub mod Limits
pub mod Results
pub mod Postgres
pub mod Redis
pub mod Mongo
pub mod Health
pub mod Backends
use database_router.Shared.{Bool, List}
use database_router.Shared.Int.{ℤ}
use database_router.Text.{Text}
use database_router.Value.{Row}
use database_router.Driver.{Go, Counts}
use database_router.Driver.Calls.{Ctx}
use database_router.Service.Results.{QueryResult}

pub record PostgresService (W : Type 0) : Type 0 where
  pub list_databases : Ctx → Go W (List Text)
  pub create_database : Ctx → Text → Go W (Unit {0})
  pub list_tables : Ctx → Text → Go W (List Text)
  pub execute_query : Ctx → Text → Text → Go W QueryResult
  pub select_data : Ctx → Text → Text → ℤ → Go W (List Row)
  pub insert_data : Ctx → Text → Text → Row → Go W Text
  pub update_data : Ctx → Text → Text → Text → Row → Go W ℤ
  pub delete_data : Ctx → Text → Text → Text → Go W ℤ
  pub test_connection : Ctx → Go W (Text × Text)

pub record MongoService (W : Type 0) : Type 0 where
  pub list_databases : Ctx → Go W (List Text)
  pub list_collections : Ctx → Text → Go W (List Text)
  pub insert_document : Ctx → Text → Text → Row → Go W Text
  pub find_documents : Ctx → Text → Text → Go W (List Row)
  pub update_document : Ctx → Text → Text → Text → Row → Go W Counts
  pub delete_document : Ctx → Text → Text → Text → Go W ℤ
  pub test_connection : Ctx → Go W Text

pub record RedisService (W : Type 0) : Type 0 where
  pub list_keys : Ctx → Text → Go W (List Text)
  pub set_value : Ctx → Text → Text → ℤ → Go W (Unit {0})
  pub get_value : Ctx → Text → Go W (Text × ℤ)
  pub delete_key : Ctx → Text → Go W Bool
  pub info : Ctx → Go W (ℤ × Text)
  pub test_connection : Ctx → Go W (Text × Text)

-- The three flags of CheckAll; a check returns no error.
pub record HealthService (W : Type 0) : Type 0 where
  pub check_all : Ctx → Go W (Bool × Bool × Bool)
