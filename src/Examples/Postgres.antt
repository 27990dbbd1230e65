-- ===== src/Examples/Postgres.antt =====
-- Examples for the PostgreSQL service and its statements.
use database_router.Shared.{
  ◌≡◌, ◌↔◌, refl, true, false, none, some, List, [], ◌∷◌, ◌++◌, length, map, arith, ◌+◌,
}
use database_router.Shared.Action.{ok}
use database_router.Shared.Int.{pos}
use database_router.Text.{Text, codes}
use database_router.Value.{keys, int, str, empty_row, entry}
use database_router.Fault.{message}
use database_router.Sql.{
  is_valid_identifier, select_sql, insert_sql, insert_returning_sql, update_sql,
}
use database_router.Sql.Identifier.{IsPlainName, plain_name_lem}
use database_router.Sql.Lexer.{word, ident, mark, param, tokens}
use database_router.Sql.Reading.{commas}
use database_router.Sql.Statements.{
  insert_body, returning_tail, clause_tokens, numbered, tokens-insert, tokens-update,
}
use database_router.Service.Results.{collect_rows}
use database_router.Service.Postgres.{
  list_databases, create_database, list_tables, execute_query, select_data, insert_data,
  update_data, delete_data,
}
use database_router.Service.Postgres.Inserts.{failing_for, insert_data-ignores_reason}
use database_router.Value.{values}
use database_router.Service.Postgres.Sends.{
  SendsOnly, IsSelect, IsInsert, IsUpdate, IsDelete, operations-SendsOnly,
}
use database_router.Service.Postgres.Contexts.{AllRunUnder, operations-AllRunUnder}
use database_router.Service.Postgres.Outcomes.{
  unstopped, Answers, execute_query-unstopped, select_data-rows,
}
use database_router.Examples.World.{driver, runtime, manager, fresh, ann}

abbrev users : Text
users = codes "users"

abbrev hostile : Text
hostile = codes "users\"; DROP TABLE users; --"

-- Another database than the default one.
abbrev logs : Text
logs = codes "logs"

abbrev id : Text
id = codes "42"

abbrev columns : List Text
columns = codes "name" ∷ codes "a\", \"b" ∷ []

users_valid : is_valid_identifier users ≡ true
unfolding is_valid_identifier database_router.Text.Regex.matches
users_valid = refl

hostile_invalid : is_valid_identifier hostile ≡ false
unfolding is_valid_identifier database_router.Text.Regex.matches
hostile_invalid = refl

-- The fallback of InsertData is reached: the world refuses RETURNING id.
inserted : (insert_data driver runtime manager none [] users ann fresh).0 ≡ ok []
unfolding insert_data is_valid_identifier database_router.Text.Regex.matches
    database_router.Manager.get_postgres_connection
inserted = refl

-- The second of three rows does not scan.
two_read :
    (select_data driver runtime manager none logs users (pos 10) fresh).0
    ≡ ok (
        entry (codes "id") (int (pos 1)) (entry (codes "name") (str (codes "ann")) empty_row)
        ∷ entry (codes "id") (int (pos 2)) (entry (codes "name") (str (codes "bob")) empty_row)
        ∷ [])
unfolding select_data is_valid_identifier database_router.Text.Regex.matches
    database_router.Manager.get_postgres_connection database_router.Text.text_eq
    database_router.Value.assign collect_rows
two_read = refl

operations-SendsOnly_example :
    SendsOnly (IsSelect users) [] (select_data driver runtime manager none logs users (pos 10))
    × SendsOnly (IsInsert users ann) [] (insert_data driver runtime manager none logs users ann)
    × SendsOnly
        (IsUpdate users id ann)
        []
        (update_data driver runtime manager none logs users id ann)
    × SendsOnly (IsDelete users id) [] (delete_data driver runtime manager none logs users id)
operations-SendsOnly_example =
    operations-SendsOnly driver runtime manager none [] logs users id (pos 10) ann

tokens-insert_example :
    (tokens (insert_returning_sql hostile columns)
      ≡ word (codes "INSERT")
        ∷ word (codes "INTO")
        ∷ insert_body hostile columns (mark b')' ∷ returning_tail))
    × (tokens (insert_sql hostile columns)
        ≡ word (codes "INSERT")
          ∷ word (codes "INTO")
          ∷ insert_body hostile columns (mark b')' ∷ []))
tokens-insert_example = tokens-insert hostile columns

tokens-update_example :
    tokens (update_sql hostile columns)
    ≡ word (codes "UPDATE")
      ∷ ident hostile
      ∷ word (codes "SET")
      ∷ (commas (map clause_tokens (numbered 1 columns))
          ++ (word (codes "WHERE")
              ∷ word (codes "id")
              ∷ mark b'='
              ∷ param (1 + length columns)
              ∷ []))
tokens-update_example = tokens-update hostile columns

execute_query-unstopped_example :
    execute_query (unstopped driver) runtime manager none (codes "select 1") logs fresh
    ≡ execute_query driver runtime manager none (codes "select 1") logs fresh
execute_query-unstopped_example =
    execute_query-unstopped driver runtime manager none fresh (codes "select 1") logs

select_data-rows_example :
    Answers
      (driver.sql_query none 1 (select_sql users) (int (pos 10) ∷ []) []).0
      (select_data driver runtime manager none [] users (pos 10) fresh).0
select_data-rows_example =
    select_data-rows driver runtime manager none fresh 1 refl users users_valid (pos 10)
      (ground arith) (ground arith)

insert_data-ignores_reason_example :
    insert_data
      (failing_for (message (codes "driver: bad connection")) driver)
      runtime
      manager
      none
      logs
      users
      ann
      fresh
    ≡ insert_data driver runtime manager none logs users ann fresh
insert_data-ignores_reason_example =
    insert_data-ignores_reason driver runtime manager none
      (message (codes "driver: bad connection")) logs users ann fresh

operations-AllRunUnder_example :
    AllRunUnder (some 9) (some 5) [] (list_databases driver runtime manager (some 9))
    × AllRunUnder (some 9) (some 5) [] (create_database driver runtime manager (some 9) logs)
    × AllRunUnder (some 9) (some 5) [] (list_tables driver runtime manager (some 9) logs)
    × AllRunUnder
        (some 9)
        (some 5)
        []
        (execute_query driver runtime manager (some 9) (codes "select 1") logs)
    × AllRunUnder
        (some 9)
        (some 5)
        []
        (select_data driver runtime manager (some 9) logs users (pos 10))
    × AllRunUnder (some 9) (some 5) [] (insert_data driver runtime manager (some 9) logs users ann)
    × AllRunUnder
        (some 9)
        (some 5)
        []
        (update_data driver runtime manager (some 9) logs users id ann)
    × AllRunUnder (some 9) (some 5) [] (delete_data driver runtime manager (some 9) logs users id)
operations-AllRunUnder_example =
    operations-AllRunUnder driver runtime manager (some 9) [] logs users id (codes "select 1")
      (pos 10) ann

plain_name_lem_example : (is_valid_identifier users ≡ true) ↔ IsPlainName users
plain_name_lem_example = plain_name_lem users
