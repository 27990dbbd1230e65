-- ===== src/Service/Postgres/Changes.antt =====
-- The changes to a table by the operations of the PostgreSQL service, and what they send.
pub mod Refinement
use mathlib.Core.List.Perm
use database_router.Shared.{
  ℕ, ◌+◌, ◌≤◌, ◌≡◌, ◌⊎◌, refl, sym, ap, ◌∙◌, true, false, some, List, [], ◌∷◌, ◌++◌, length, ◌==◌,
  arith, Bool-cases, inl, inr,
}
use database_router.Shared.Action.{State, Result, ok, err, Result-cases}
use database_router.Shared.Int.{ℤ, pos}
use database_router.Text.{Text}
use database_router.Value.{Value, str, Row, empty_row, keys, values, Runtime}
use database_router.Fault.{GoError}
use database_router.Sql.{
  is_valid_identifier, delete_sql, insert_sql, insert_returning_sql, update_sql,
}
use database_router.Sql.Statements.{tokens-insert, tokens-update, tokens-statements}
use database_router.Driver.{Driver, Affected}
use database_router.Driver.Calls.{Call, Ctx, Handle}
use database_router.Manager.{Manager, get_postgres_connection}
use database_router.Service.Postgres.{affected_or_zero, insert_data, update_data, delete_data}
use database_router.Service.Postgres.Inserts.{second_result}
use database_router.Service.Postgres.Tables.{
  Tables, Change, insert, update, delete, Reply, failed, inserted, counted, Semantics, table_of,
  touched, most, Same, Carried, Times, Allowed, AllowedChanges, Says, IsSqlServer,
}

abbrev insert_reply : Result GoError Text → Reply
insert_reply (ok id) = inserted
insert_reply (err e) = failed

abbrev count_reply : Result GoError ℤ → Reply
count_reply (ok n) = counted n
count_reply (err e) = failed

abbrev count_result : Result GoError Affected → Result GoError ℤ
count_result (ok a) = ok (affected_or_zero a)
count_result (err e) = err e

module _ (table : Text) (row : Row) where
  insert_returning_sql-Says :
      Says (insert table row) (insert_returning_sql table (keys row)) (values row)
  insert_returning_sql-Says = (_, (tokens-insert table (keys row)).0, inr refl, refl)

  insert_sql-Says : Says (insert table row) (insert_sql table (keys row)) (values row)
  insert_sql-Says = (_, (tokens-insert table (keys row)).1, inl refl, refl)

  update_sql-Says :
      (id : Text)
      → Says (update table id row) (update_sql table (keys row)) (values row ++ str id ∷ [])
  update_sql-Says id = (tokens-update table (keys row), refl)

  delete_sql-Says : (id : Text) → Says (delete table id) (delete_sql table) (str id ∷ [])
  delete_sql-Says id = ((tokens-statements table).1, refl)

module _ {W : Type 0} (d : Driver W) (rt : Runtime) (m : Manager) (ctx : Ctx) where
  -- A change to the default database by the operation of the service.
  unfoldable pub execute : Change → State W Call → Reply × State W Call
  execute (insert t row) s =
      (insert_reply (insert_data d rt m ctx [] t row s).0, (insert_data d rt m ctx [] t row s).1)
  execute (update t id row) s = (
    count_reply (update_data d rt m ctx [] t id row s).0,
    (update_data d rt m ctx [] t id row s).1,
  )
  execute (delete t id) s =
      (count_reply (delete_data d rt m ctx [] t id s).0, (delete_data d rt m ctx [] t id s).1)

  pub execute_all : List Change → State W Call → List Reply × State W Call
  execute_all [] s = ([], s)
  execute_all (c ∷ cs) s =
      let (r, s') = execute c s in let (rs, s'') = execute_all cs s' in (r ∷ rs, s'')

  module _ (db : Handle) (enabled : m.postgres_db ≡ some db) where
    module _ (t : Text) (row : Row) (s : State W Call) where
      abbrev deleting : Text → Result GoError Affected × W
      deleting id = d.sql_exec ctx db (delete_sql t) (str id ∷ []) s.world

      abbrev updating : Text → Result GoError Affected × W
      updating id = d.sql_exec ctx db (update_sql t (keys row)) (values row ++ str id ∷ []) s.world

      abbrev inserting : Result GoError Value × W
      inserting = d.sql_query_row ctx db (insert_returning_sql t (keys row)) (values row) s.world

      abbrev inserting_again : Result GoError Affected × W
      inserting_again = d.sql_exec ctx db (insert_sql t (keys row)) (values row) inserting.1

      refused :
          (id : Text)
          → is_valid_identifier t ≡ false
          → (execute (insert t row) s ≡ (failed, s))
            × (execute (update t id row) s ≡ (failed, s))
            × (execute (delete t id) s ≡ (failed, s))
      unfolding execute insert_data update_data delete_data get_postgres_connection
      refused id bad = (ground arith, ground arith, ground arith)

      module _ (valid : is_valid_identifier t ≡ true) where
        deleted :
            (id : Text)
            → ((execute (delete t id) s).0 ≡ count_reply (count_result (deleting id).0))
              × ((execute (delete t id) s).1.world ≡ (deleting id).1)
        unfolding execute delete_data get_postgres_connection
        deleted id = (ground arith, ground arith)

        updated :
            (id : Text)
            → (length (keys row) == 0) ≡ false
            → ((execute (update t id row) s).0 ≡ count_reply (count_result (updating id).0))
              × ((execute (update t id row) s).1.world ≡ (updating id).1)
        unfolding execute update_data get_postgres_connection
        updated id nonempty = (ground arith, ground arith)

        without_data :
            (id : Text)
            → (length (keys row) == 0) ≡ true
            → execute (update t id row) s ≡ (failed, s)
        unfolding execute update_data get_postgres_connection
        without_data id empty = ground arith

        returned :
            (v : Value)
            → inserting.0 ≡ ok v
            → ((execute (insert t row) s).0 ≡ inserted)
              × ((execute (insert t row) s).1.world ≡ inserting.1)
        unfolding execute insert_data get_postgres_connection
        returned v h = (ground arith, ground arith)

        repeated :
            (e : GoError)
            → inserting.0 ≡ err e
            → ((execute (insert t row) s).0 ≡ insert_reply (second_result inserting_again.0))
              × ((execute (insert t row) s).1.world ≡ inserting_again.1)
        unfolding execute insert_data get_postgres_connection
        repeated e h = (ground arith, ground arith)
