-- ===== src/Service/Postgres/Sends.antt =====
-- What the service sends to the database.
use database_router.Shared.{
  ◌≡◌, ◌⊎◌, ◌+◌, refl, true, false, arith, ◌++◌, [], ◌∷◌, List, All, map, length, ap, suc, inl, inr,
  length-append, Bool-cases,
}
use database_router.Shared.Int.{ℤ, pos, ltb_ℤ, ◌≤ℤ◌}
use database_router.Text.{Text, codes}
use database_router.Value.{Value, int, str, Runtime, Row, empty_row, entry, keys, values}
use database_router.Sql.{
  is_valid_identifier, select_sql, delete_sql, insert_sql, insert_returning_sql, update_sql,
}
use database_router.Sql.Lexer.{Token, word, ident, mark, param, tokens}
use database_router.Sql.Reading.{commas}
use database_router.Sql.Statements.{
  insert_body, returning_tail, clause_tokens, numbered, tokens-insert, tokens-update,
  tokens-statements,
}
use database_router.Driver.{Driver, Go}
use database_router.Driver.Calls.{Call, Ctx}
use database_router.Manager.{Manager, get_postgres_connection}
use database_router.Service.Postgres.{select_data, insert_data, update_data, delete_data}

-- What a statement with arguments may be.
abbrev Allowed : Type 1
Allowed = Text → List Value → Type 0

-- The calls of a trace that send a statement all meet `P`.
abbrev pub Statements : Allowed → Call → Type 0
Statements P (Call.sql_query c h text args) = P text args
Statements P (Call.sql_query_row c h text args) = P text args
Statements P (Call.sql_exec c h text args) = P text args
Statements P _ = Unit

-- All statements that `act` sends from a world meet `P`.
abbrev pub SendsOnly : {W A : Type 0} → Allowed → W → Go W A → Type 0
SendsOnly P w act = All (Statements P) (act (record { world = w; calls = [] })).1.calls

-- SELECT * FROM "table" LIMIT $1, with a limit from 1 to 10000
abbrev pub IsSelect : Text → Allowed
IsSelect table text args =
    (is_valid_identifier table ≡ true)
    × (tokens text
        ≡ word (codes "SELECT")
          ∷ mark b'*'
          ∷ word (codes "FROM")
          ∷ ident table
          ∷ word (codes "LIMIT")
          ∷ param 1
          ∷ [])
    × ((limit : ℤ) × (args ≡ int limit ∷ []) × (pos 1 ≤ℤ limit) × (limit ≤ℤ pos 10000))

abbrev pub IsDelete : Text → Text → Allowed
IsDelete table id text args =
    (is_valid_identifier table ≡ true)
    × (tokens text
        ≡ word (codes "DELETE")
          ∷ word (codes "FROM")
          ∷ ident table
          ∷ word (codes "WHERE")
          ∷ word (codes "id")
          ∷ mark b'='
          ∷ param 1
          ∷ [])
    × (args ≡ str id ∷ [])

abbrev insert_tokens : Text → Row → List Token → List Token
insert_tokens table row tail =
    word (codes "INSERT") ∷ word (codes "INTO") ∷ insert_body table (keys row) tail

-- INSERT INTO "table" (the keys) VALUES ($1, …), with nothing or RETURNING id behind it, and with the
-- values of the row as the arguments
abbrev pub IsInsert : Text → Row → Allowed
IsInsert table row text args =
    (is_valid_identifier table ≡ true)
    × ((tokens text ≡ insert_tokens table row (mark b')' ∷ []))
        ⊎ (tokens text ≡ insert_tokens table row (mark b')' ∷ returning_tail)))
    × (args ≡ values row)
    × (length args ≡ length (keys row))

-- UPDATE "table" SET the keys to $1, … WHERE id = the last parameter, which is the id
abbrev pub IsUpdate : Text → Text → Row → Allowed
IsUpdate table id row text args =
    (is_valid_identifier table ≡ true)
    × (tokens text
        ≡ word (codes "UPDATE")
          ∷ ident table
          ∷ word (codes "SET")
          ∷ (commas (map clause_tokens (numbered 1 (keys row)))
              ++ (word (codes "WHERE")
                  ∷ word (codes "id")
                  ∷ mark b'='
                  ∷ param (1 + length (keys row))
                  ∷ [])))
    × (args ≡ values row ++ str id ∷ [])
    × (length args ≡ 1 + length (keys row))

length-values : (row : Row) → length (values row) ≡ length (keys row)
unfolding values keys
length-values empty_row = refl
length-values (entry k v row) = ap suc (length-values row)

module _ (table id : Text) (row : Row) (valid : is_valid_identifier table ≡ true) where
  delete_sql-IsDelete : IsDelete table id (delete_sql table) (str id ∷ [])
  delete_sql-IsDelete = (valid, (tokens-statements table).1, refl)

  insert_sql-IsInsert : IsInsert table row (insert_sql table (keys row)) (values row)
  insert_sql-IsInsert = (valid, inl (tokens-insert table (keys row)).1, refl, length-values row)

  insert_returning_sql-IsInsert :
      IsInsert table row (insert_returning_sql table (keys row)) (values row)
  insert_returning_sql-IsInsert =
      (valid, inr (tokens-insert table (keys row)).0, refl, length-values row)

  update_sql-IsUpdate :
      IsUpdate table id row (update_sql table (keys row)) (values row ++ str id ∷ [])
  update_sql-IsUpdate = (
    valid,
    tokens-update table (keys row),
    refl,
    omega (arith, length-append (values row) (str id ∷ []), length-values row),
  )

select_sql-IsSelect :
    (table : Text) (limit : ℤ)
    → is_valid_identifier table ≡ true
    → ltb_ℤ limit (pos 1) ≡ false
    → ltb_ℤ (pos 10000) limit ≡ false
    → IsSelect table (select_sql table) (int limit ∷ [])
select_sql-IsSelect table limit valid low high =
    (valid, (tokens-statements table).0, (limit, refl, ground arith, ground arith))

module _ {W : Type 0} (d : Driver W) (rt : Runtime) (m : Manager) (ctx : Ctx) (w : W) where
  delete_data-SendsOnly :
      (database table id : Text)
      → SendsOnly (IsDelete table id) w (delete_data d rt m ctx database table id)
  unfolding delete_data get_postgres_connection
  delete_data-SendsOnly database table id = elim (Bool-cases (is_valid_identifier table)) [
    | inl valid ↦ ground (arith, delete_sql-IsDelete table id empty_row valid)
    | inr bad ↦ ground arith
  ]

  pub insert_data-SendsOnly :
      (database table : Text) (row : Row)
      → SendsOnly (IsInsert table row) w (insert_data d rt m ctx database table row)
  unfolding insert_data get_postgres_connection
  insert_data-SendsOnly database table row = elim (Bool-cases (is_valid_identifier table)) [
    | inl valid ↦ ground (
      arith,
      insert_sql-IsInsert table [] row valid,
      insert_returning_sql-IsInsert table [] row valid,
    )
    | inr bad ↦ ground arith
  ]

  update_data-SendsOnly :
      (database table id : Text) (row : Row)
      → SendsOnly (IsUpdate table id row) w (update_data d rt m ctx database table id row)
  unfolding update_data get_postgres_connection
  update_data-SendsOnly database table id row = elim (Bool-cases (is_valid_identifier table)) [
    | inl valid ↦ ground (arith, update_sql-IsUpdate table id row valid)
    | inr bad ↦ ground arith
  ]

  select_data-SendsOnly :
      (database table : Text) (limit : ℤ)
      → SendsOnly (IsSelect table) w (select_data d rt m ctx database table limit)
  unfolding select_data get_postgres_connection
  select_data-SendsOnly database table limit = elim (Bool-cases (is_valid_identifier table)) [
    | inl valid ↦ elim (Bool-cases (ltb_ℤ limit (pos 1))) [
      | inl low ↦ ground arith
      | inr low ↦ elim (Bool-cases (ltb_ℤ (pos 10000) limit)) [
        | inl high ↦ ground arith
        | inr high ↦ ground (arith, select_sql-IsSelect table limit valid low high)
      ]
    ]
    | inr bad ↦ ground arith
  ]

  -- From any world, whatever the drivers answer, all statements that the four operations on a table
  -- send are about that table, whose name is a valid identifier. SelectData sends only a SELECT with
  -- a limit from 1 to 10000. InsertData sends only single INSERTs of the row's keys, with nothing or
  -- RETURNING id behind them, with the row's values as arguments. UpdateData sends only an UPDATE that
  -- sets the keys and whose last argument is the id. DeleteData sends only a DELETE of the id.
  pub operations-SendsOnly :
      (database table id : Text) (limit : ℤ) (row : Row)
      → SendsOnly (IsSelect table) w (select_data d rt m ctx database table limit)
        × SendsOnly (IsInsert table row) w (insert_data d rt m ctx database table row)
        × SendsOnly (IsUpdate table id row) w (update_data d rt m ctx database table id row)
        × SendsOnly (IsDelete table id) w (delete_data d rt m ctx database table id)
  operations-SendsOnly database table id limit row = (
    select_data-SendsOnly database table limit,
    insert_data-SendsOnly database table row,
    update_data-SendsOnly database table id row,
    delete_data-SendsOnly database table id,
  )
