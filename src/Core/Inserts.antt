-- ===== src/Core/Inserts.antt =====
-- What PgInsert stores, through the handler and the service.
use database_router.Shared.{◌≡◌, refl, ap, [], ◌++◌, All, arith}
use database_router.Shared.Action.{Result, ok}
use database_router.Text.{Text, codes}
use database_router.Value.{Value, bool, float64, int, str, Row, empty_row, entry, Fields, Runtime}
use database_router.Value.Float.{float64_of_int}
use database_router.Driver.{Driver}
use database_router.Driver.Calls.{Ctx}
use database_router.Manager.{Manager}
use database_router.Service.Postgres
use database_router.Service.Postgres.Sends.{Statements, IsInsert, insert_data-SendsOnly}
use database_router.Server.Convert.{proto_fields_to_row}
use database_router.Core.{Failure, named_client, pack_row}
use database_router.Core.EndToEnd.{router_of}
use database_router.Core.Operations.{pg_insert}

-- What becomes of a value of the application on its way to the database.
abbrev arrived : Runtime → Value → Value
arrived rt (str s) = str s
arrived rt (bool b) = bool b
arrived rt (float64 x) = float64 x
arrived rt (int n) = float64 (float64_of_int n)
arrived rt v = str (rt.sprint v)

abbrev pub sent : Runtime → Row → Row
sent rt empty_row = empty_row
sent rt (entry k v row) = entry k (arrived rt v) (sent rt row)

row-pack_row : (rt : Runtime) (row : Row) → proto_fields_to_row (pack_row rt row) ≡ sent rt row
unfolding proto_fields_to_row pack_row
row-pack_row rt empty_row = refl
row-pack_row rt (entry k (str s) row) = ap (entry k (str s)) (row-pack_row rt row)
row-pack_row rt (entry k (bool b) row) = ap (entry k (bool b)) (row-pack_row rt row)
row-pack_row rt (entry k (float64 x) row) = ap (entry k (float64 x)) (row-pack_row rt row)
row-pack_row rt (entry k v row) = ap (entry k (arrived rt v)) (row-pack_row rt row)

module _ {W : Type 0} (d : Driver W) (rt : Runtime) (describe : Failure → Text)
    (new_struct : Row → Result Text Fields) (m : Manager) (ctx : Ctx) (w : W) (app : Text) where
  -- From any world, whatever the drivers answer: each statement that a PgInsert sends is one INSERT of
  -- exactly the keys of its row into the table, whose name is a valid identifier, with nothing or
  -- RETURNING id behind it. Its arguments are the values of the row in its order: texts, Booleans and
  -- float64 as they are, an int as a float64, and every other value, a nil too, as the text that `%v`
  -- prints of it. PgInsert returns the id that InsertData returns.
  pub pg_insert-Sends :
      (table : Text) (row : Row)
      → All
          (Statements (IsInsert table (sent rt row)))
          (pg_insert rt describe new_struct
            (named_client app (router_of d rt m ctx))
            table
            row
            (record { world = w; calls = [] })).1.calls
        × ((id : Text)
            → (Postgres.insert_data d rt m ctx
                (app ++ codes "_pg")
                table
                (sent rt row)
                (record { world = w; calls = [] })).0
              ≡ ok id
            → (pg_insert rt describe new_struct
                (named_client app (router_of d rt m ctx))
                table
                row
                (record { world = w; calls = [] })).0
              ≡ ok id)
  unfolding pg_insert named_client database_router.Server.Postgres.insert_data proto_fields_to_row
  pg_insert-Sends table row =
      let same = row-pack_row rt row in
      let sends = insert_data-SendsOnly d rt m ctx w (app ++ codes "_pg") table (sent rt row) in
      (rw same (ground (arith, sends)), λ id h. rw same (ground arith))
