-- ===== src/Server/Mongo/Identity.antt =====
-- The id that InsertDocument answers with, as the id of a document.
use database_router.Shared.{
  ℕ, ◌≤◌, ◌≡◌, ◌≢◌, ◌⊎◌, All, some, Option, ◌∷◌, ◌++◌, length, length-append, arith,
}
use database_router.Shared.Action.{State, ok, err}
use database_router.Text.{Text, codes}
use database_router.Value.{other, Runtime, Fields}
use database_router.Fault.{GoError, invalid_argument, status}
use database_router.Driver.{Driver}
use database_router.Driver.Calls.{Call, Ctx, Handle}
use database_router.Manager.{Manager, with_timeout}
use database_router.Service.Mongo
use database_router.Service.Backends.{new_mongo_service}
use database_router.Server.Rpc.{Rpc}
use database_router.Server.Mongo.{document_row, insert_document, update_document, delete_document}
use database_router.Server.Mongo.Ids.{bad_id-invalid_argument}

-- A digit from 0 to 9 or from a to f.
abbrev pub IsHexDigit : ℕ → Type 0
IsHexDigit c = ((48 ≤ c) × (c ≤ 57)) ⊎ ((97 ≤ c) × (c ≤ 102))

-- The documented behaviour of primitive.ObjectID, for those of the other values that are ObjectIDs (`IsId`): one
-- has 24 hexadecimal digits, `%v` prints it with them in quotes, and ObjectIDFromHex reads the digits and
-- refuses every text of another length.
pub record IsObjectId {W : Type 0} (d : Driver W) (rt : Runtime) (IsId : ℕ → Type 0) : Type 0 where
  pub hex : ℕ → Text
  pub length-hex : (id : ℕ) → IsId id → length (hex id) ≡ 24
  pub digits : (id : ℕ) → IsId id → All IsHexDigit (hex id)
  pub printed :
      (id : ℕ) → IsId id → rt.sprint (other id) ≡ codes "ObjectID(\"" ++ (hex id ++ codes "\")")
  pub read : (id : ℕ) → IsId id → d.object_id_from_hex (hex id) ≡ ok id
  pub refused : (s : Text) → length s ≢ 24 → (e : GoError) × (d.object_id_from_hex s ≡ err e)

-- From each state, `act` answers InvalidArgument and makes no call.
abbrev pub IsInvalid : {W A : Type 0} → Rpc W A → Type 0
IsInvalid {W} act =
    (s : State W Call) → (reason : Text) × (act s ≡ (err (status invalid_argument reason), s))

module _ {W : Type 0} (d : Driver W) (rt : Runtime) (m : Manager) (ctx : Ctx) (IsId : ℕ → Type 0)
    (ids : IsObjectId d rt IsId) where
  printed_refused :
      (id : ℕ) → IsId id → (e : GoError) × (d.object_id_from_hex (rt.sprint (other id)) ≡ err e)
  printed_refused id is_id = ids.refused (rt.sprint (other id)) (
      rw (ids.printed id is_id) (
        omega (
          arith,
          length-append (codes "ObjectID(\"") (ids.hex id ++ codes "\")"),
          length-append (ids.hex id) (codes "\")"),
          ids.length-hex id is_id,
        )))

  -- With MongoDB connected, a document that is stored under an ObjectID is answered with an id that
  -- UpdateDocument and DeleteDocument refuse as invalid in each later state, before any call, while
  -- the hexadecimal digits of the same id make DeleteDocument send the id to the database.
  pub inserted_id-IsInvalid :
      (database collection : Text) (document : Option Fields) (client : Handle) (id : ℕ)
      (s : State W Call)
      → IsId id
      → m.mongo_db ≡ some client
      → (d.insert_one
          (with_timeout ctx 5)
          client
          database
          collection
          (document_row document)
          s.world).0
        ≡ ok (other id)
      → (text : Text) × ((insert_document rt
            (new_mongo_service d rt m)
            ctx
            database
            collection
            document
            s).0
          ≡ ok (record { database = database; collection = collection; inserted_id = text }))
        × ((update : Option Fields)
            → IsInvalid
                (update_document rt (new_mongo_service d rt m) ctx database collection text update))
        × IsInvalid (delete_document rt (new_mongo_service d rt m) ctx database collection text)
        × ((t : State W Call)
            → (delete_document rt
                (new_mongo_service d rt m)
                ctx
                database
                collection
                (ids.hex id)
                t).1.calls
              ≡ Call.delete_one (with_timeout ctx 5) client database collection id ∷ t.calls)
  unfolding insert_document delete_document Mongo.insert_document Mongo.delete_document
  inserted_id-IsInvalid database collection document client id s is_id on stored =
      let (e, bad) = printed_refused id is_id in
      (
        rt.sprint (other id),
        ground arith,
        λ update t. (
          _,
          (bad_id-invalid_argument d rt m ctx t database collection (rt.sprint (other id)) update
              client e on bad).0,
        ),
        λ t. (
          _,
          (bad_id-invalid_argument d rt m ctx t database collection (rt.sprint (other id)) document
              client e on bad).1,
        ),
        λ t. ground (arith, ids.read id is_id),
      )
