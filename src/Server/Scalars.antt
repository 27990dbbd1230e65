-- ===== src/Server/Scalars.antt =====
-- What kinds of values leave the server.
use database_router.Shared.{List, [], ◌∷◌, All, map, Bool-cases, inl, inr}
use database_router.Shared.Action.{State, Result, ok, err, Result-cases}
use database_router.Shared.Int.{ℤ}
use database_router.Text.{Text}
use database_router.Value.{
  Value, nil, bool, float64, float32, int, int32, int64, str, bytes, map_of, slice_of, other, Row,
  empty_row, entry, Fields, Runtime,
}
use database_router.Fault.{Status}
use database_router.Driver.Calls.{Call, Ctx}
use database_router.Service.{PostgresService, MongoService}
use database_router.Server.Convert.{to_proto_value, row_to_proto_fields}
use database_router.Server.Convert.RoundTrip.{IsScalar, AllScalar}
use database_router.Server.Postgres.{limit_or_default}
use database_router.Server.Postgres
use database_router.Server.Mongo

-- If `act` responds, each value in the rows of its response is a null, a number, a text or a Boolean.
abbrev pub RowsAreScalar : {R : Type 0} → (R → List Fields) → Result Status R → Type 0
RowsAreScalar rows (ok resp) = All AllScalar (rows resp)
RowsAreScalar rows (err st) = Unit

to_proto_value-IsScalar : (rt : Runtime) (v : Value) → IsScalar (to_proto_value rt v)
unfolding to_proto_value
to_proto_value-IsScalar rt nil = tt
to_proto_value-IsScalar rt (bool b) = tt
to_proto_value-IsScalar rt (float64 x) = tt
to_proto_value-IsScalar rt (float32 x) = tt
to_proto_value-IsScalar rt (int n) = tt
to_proto_value-IsScalar rt (int32 n) = tt
to_proto_value-IsScalar rt (int64 n) = tt
to_proto_value-IsScalar rt (str s) = tt
to_proto_value-IsScalar rt (bytes b) = tt
to_proto_value-IsScalar rt (map_of r) = tt
to_proto_value-IsScalar rt (slice_of l) = tt
to_proto_value-IsScalar rt (other k) = tt

row_to_proto_fields-AllScalar : (rt : Runtime) (r : Row) → AllScalar (row_to_proto_fields rt r)
unfolding row_to_proto_fields
row_to_proto_fields-AllScalar rt empty_row = tt
row_to_proto_fields-AllScalar rt (entry k v r) =
    (to_proto_value-IsScalar rt v, row_to_proto_fields-AllScalar rt r)

rows-AllScalar :
    (rt : Runtime) (rows : List Row) → All AllScalar (map (row_to_proto_fields rt) rows)
rows-AllScalar rt [] = tt
rows-AllScalar rt (r ∷ rows) = (row_to_proto_fields-AllScalar rt r, rows-AllScalar rt rows)

module _ {W : Type 0} (rt : Runtime) (ctx : Ctx) (s : State W Call) where
  execute_query-RowsAreScalar :
      (svc : PostgresService W) (query database : Text)
      → RowsAreScalar (λ resp. resp.rows) (Postgres.execute_query rt svc ctx query database s).0
  unfolding Postgres.execute_query
  execute_query-RowsAreScalar svc query database =
      elim (Result-cases (svc.execute_query ctx query database s).0) [
        | inr (e, failed) ↦ rw failed tt
        | inl (r, answered) ↦ elim (Bool-cases r.is_select) [
          | inl select ↦ rw (answered, select) (rows-AllScalar rt r.rows)
          | inr exec ↦ rw (answered, exec) tt
        ]
      ]

  select_data-RowsAreScalar :
      (svc : PostgresService W) (database table : Text) (limit : ℤ)
      → RowsAreScalar (λ resp. resp.rows) (Postgres.select_data rt svc ctx database table limit s).0
  unfolding Postgres.select_data
  select_data-RowsAreScalar svc database table limit =
      elim (Result-cases (svc.select_data ctx database table (limit_or_default limit) s).0) [
        | inr (e, failed) ↦ rw failed tt
        | inl (rows, answered) ↦ rw answered (rows-AllScalar rt rows)
      ]

  find_documents-RowsAreScalar :
      (svc : MongoService W) (database collection : Text)
      → RowsAreScalar
          (λ resp. resp.documents)
          (Mongo.find_documents rt svc ctx database collection s).0
  unfolding Mongo.find_documents
  find_documents-RowsAreScalar svc database collection =
      elim (Result-cases (svc.find_documents ctx database collection s).0) [
        | inr (e, failed) ↦ rw failed tt
        | inl (docs, answered) ↦ rw answered (rows-AllScalar rt docs)
      ]

  -- Whatever the services return, nested documents and lists included, each value in the rows that
  -- ExecuteQuery, SelectData and FindDocuments respond with is a null, a number, a text or a Boolean.
  pub responses-RowsAreScalar :
      (pg : PostgresService W) (mongo : MongoService W) (query database name : Text) (limit : ℤ)
      → RowsAreScalar (λ resp. resp.rows) (Postgres.execute_query rt pg ctx query database s).0
        × RowsAreScalar (λ resp. resp.rows) (Postgres.select_data rt pg ctx database name limit s).0
        × RowsAreScalar
            (λ resp. resp.documents)
            (Mongo.find_documents rt mongo ctx database name s).0
  responses-RowsAreScalar pg mongo query database name limit = (
    execute_query-RowsAreScalar pg query database,
    select_data-RowsAreScalar pg database name limit,
    find_documents-RowsAreScalar mongo database name,
  )
