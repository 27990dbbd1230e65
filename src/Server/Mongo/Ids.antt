-- ===== src/Server/Mongo/Ids.antt =====
-- What the handlers answer for an id that is none.
use database_router.Shared.{◌≡◌, some, Option, ◌++◌, arith}
use database_router.Shared.Action.{State, err}
use database_router.Text.{Text, codes}
use database_router.Value.{Runtime, Fields}
use database_router.Fault.{GoError, error_text, invalid_argument, status}
use database_router.Fault.Laws.{to_grpc_error-messages}
use database_router.Driver.{Driver}
use database_router.Driver.Calls.{Call, Ctx, Handle}
use database_router.Manager.{Manager}
use database_router.Service.Mongo
use database_router.Service.Backends.{new_mongo_service}
use database_router.Server.Mongo.{update_document, delete_document}

module _ {W : Type 0} (d : Driver W) (rt : Runtime) (m : Manager) (ctx : Ctx)
    (s : State W Call) where
  -- With MongoDB connected, an id that the driver refuses ends UpdateDocument and DeleteDocument with
  -- InvalidArgument and the driver's reason, and no call is made.
  pub bad_id-invalid_argument :
      (database collection id : Text) (update : Option Fields) (client : Handle) (e : GoError)
      → m.mongo_db ≡ some client
      → d.object_id_from_hex id ≡ err e
      → (update_document rt (new_mongo_service d rt m) ctx database collection id update s
          ≡ (err (status invalid_argument (codes "invalid ID format: " ++ error_text e)), s))
        × (delete_document rt (new_mongo_service d rt m) ctx database collection id s
            ≡ (err (status invalid_argument (codes "invalid ID format: " ++ error_text e)), s))
  unfolding update_document delete_document Mongo.update_document Mongo.delete_document
  bad_id-invalid_argument database collection id update client e on bad = (
    ground (arith, (to_grpc_error-messages (error_text e)).0),
    ground (arith, (to_grpc_error-messages (error_text e)).0),
  )
