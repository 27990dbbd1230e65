-- ===== src/Core/Queries.antt =====
-- What PgQuery returns, through the handler and the service.
use mathlib.Core.Path.{subst}
use database_router.Shared.{◌≡◌, true, List, [], ◌++◌, arith}
use database_router.Shared.Action.{State, Result, ok}
use database_router.Text.{Text, codes}
use database_router.Value.{Runtime, Row, Fields}
use database_router.Driver.{Driver}
use database_router.Driver.Calls.{Call, Ctx}
use database_router.Manager.{Manager}
use database_router.Service.Results.{QueryResult}
use database_router.Service.Postgres
use database_router.Service.Postgres.Maps.{HasMaps, execute_query-HasMaps}
use database_router.Core.{Failure, named_client}
use database_router.Core.Cells.{Shows, unpack_rows-Shows}
use database_router.Core.EndToEnd.{router_of}
use database_router.Core.Operations.{pg_query}

module _ {W : Type 0} (d : Driver W) (rt : Runtime) (describe : Failure → Text)
    (new_struct : Row → Result Text Fields) (m : Manager) (ctx : Ctx) (s : State W Call)
    (app : Text) where
  -- Where the service returns the rows of a SELECT on the database of the namespace, PgQuery succeeds
  -- and returns each of them in its place: under each column the cell, with an integer or a float32 as
  -- a float64, bytes and all other values as a text, and a NULL left out.
  pub pg_query-Shows :
      (query : Text) (r : QueryResult)
      → (Postgres.execute_query d rt m ctx query (app ++ codes "_pg") s).0 ≡ ok r
      → r.is_select ≡ true
      → (out : List Row) × ((pg_query rt describe new_struct
            (named_client app (router_of d rt m ctx))
            query
            s).0
          ≡ ok out)
        × Shows rt r.rows out
  unfolding pg_query named_client database_router.Server.Postgres.execute_query
  pg_query-Shows query r selected is_select =
      let maps =
        subst HasMaps selected (execute_query-HasMaps d rt m ctx query (app ++ codes "_pg") s) in
      let (out, unpacked, shown) = unpack_rows-Shows rt r.rows [] maps in
      (out, ground (arith, unpacked), shown)
