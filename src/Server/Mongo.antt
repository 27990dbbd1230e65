-- ===== src/Server/Mongo.antt =====
-- internal/server/mongo_server.go: the handlers of MongoService.
pub mod Ids
pub mod Identity
use database_router.Shared.{Option, none, some, List, map}
use database_router.Shared.Action.{pure, ◌>>=◌}
use database_router.Text.{Text}
use database_router.Value.{Fields, Row, empty_row, Runtime}
use database_router.Driver.Calls.{Ctx}
use database_router.Service.{MongoService}
use database_router.Server.Convert.{row_to_proto_fields, proto_fields_to_row}
use database_router.Server.Messages.{
  ListCollectionsResponse, InsertDocumentResponse, FindDocumentsResponse, UpdateDocumentResponse,
  DeleteDocumentResponse,
}
use database_router.Server.Postgres.{count_of}
use database_router.Server.Rpc.{Rpc, checked}

-- A missing `document` or `update` of the request gives an empty row.
pub document_row : Option Fields → Row
unfolding proto_fields_to_row
document_row none = empty_row
document_row (some fields) = proto_fields_to_row fields

module _ {W : Type 0} (rt : Runtime) (svc : MongoService W) (ctx : Ctx) where
  unfoldable pub list_databases : Rpc W (List Text)
  list_databases = checked (svc.list_databases ctx)

  unfoldable pub list_collections : Text → Rpc W ListCollectionsResponse
  list_collections database = do
    cols ← checked (svc.list_collections ctx database)
    pure (record { database = database; collections = cols })

  unfoldable pub insert_document : Text → Text → Option Fields → Rpc W InsertDocumentResponse
  unfolding document_row
  insert_document database collection document = do
    id ← checked (svc.insert_document ctx database collection (document_row document))
    pure (record { database = database; collection = collection; inserted_id = id })

  unfoldable pub find_documents : Text → Text → Rpc W FindDocumentsResponse
  unfolding row_to_proto_fields
  find_documents database collection = do
    docs ← checked (svc.find_documents ctx database collection)
    pure (record {
      database = database;
      collection = collection;
      documents = map (row_to_proto_fields rt) docs;
      count = count_of docs;
    })

  unfoldable pub update_document : Text → Text → Text → Option Fields → Rpc W UpdateDocumentResponse
  unfolding document_row
  update_document database collection id update = do
    (matched, modified) ←
        checked (svc.update_document ctx database collection id (document_row update))
    pure (record {
      database = database;
      collection = collection;
      matched_count = matched;
      modified_count = modified;
    })

  unfoldable pub delete_document : Text → Text → Text → Rpc W DeleteDocumentResponse
  delete_document database collection id = do
    deleted ← checked (svc.delete_document ctx database collection id)
    pure (record { database = database; collection = collection; deleted_count = deleted })
