-- ===== src/Server/Messages.antt =====
-- The messages of proto/dbrouter.proto that carry data. An int64 or int32 field is an integer.
use database_router.Shared.{Bool, List}
use database_router.Shared.Int.{ℤ}
use database_router.Text.{Text}
use database_router.Value.{Fields}

pub record ConnectionStatus : Type 0 where
  pub status : Text
  pub enabled : Bool
  pub host : Text
  pub port : Text
  pub database : Text
  pub error : Text

pub record HealthCheckResponse : Type 0 where
  pub overall_healthy : Bool
  pub postgres : ConnectionStatus
  pub mongo : ConnectionStatus
  pub redis : ConnectionStatus

pub record CreateDatabaseResponse : Type 0 where
  pub name : Text
  pub message : Text

pub record ListTablesResponse : Type 0 where
  pub database : Text
  pub tables : List Text

pub record ExecuteQueryResponse : Type 0 where
  pub columns : List Text
  pub rows : List Fields
  pub count : ℤ
  pub rows_affected : ℤ
  pub message : Text

pub record SelectDataResponse : Type 0 where
  pub database : Text
  pub table : Text
  pub rows : List Fields
  pub count : ℤ

pub record InsertDataResponse : Type 0 where
  pub database : Text
  pub table : Text
  pub inserted_id : Text
  pub message : Text

pub record UpdateDataResponse : Type 0 where
  pub database : Text
  pub table : Text
  pub id : Text
  pub rows_affected : ℤ

pub record DeleteDataResponse : Type 0 where
  pub database : Text
  pub table : Text
  pub id : Text
  pub rows_affected : ℤ

pub record ListCollectionsResponse : Type 0 where
  pub database : Text
  pub collections : List Text

pub record InsertDocumentResponse : Type 0 where
  pub database : Text
  pub collection : Text
  pub inserted_id : Text

pub record FindDocumentsResponse : Type 0 where
  pub database : Text
  pub collection : Text
  pub documents : List Fields
  pub count : ℤ

pub record UpdateDocumentResponse : Type 0 where
  pub database : Text
  pub collection : Text
  pub matched_count : ℤ
  pub modified_count : ℤ

pub record DeleteDocumentResponse : Type 0 where
  pub database : Text
  pub collection : Text
  pub deleted_count : ℤ

pub record ListKeysResponse : Type 0 where
  pub keys : List Text
  pub count : ℤ

pub record SetValueResponse : Type 0 where
  pub key : Text
  pub value : Text
  pub ttl : ℤ

pub record GetValueResponse : Type 0 where
  pub key : Text
  pub value : Text
  pub ttl : ℤ

pub record DeleteKeyResponse : Type 0 where
  pub key : Text
  pub deleted : Bool

pub record RedisInfoResponse : Type 0 where
  pub db_size : ℤ
  pub info : Text
