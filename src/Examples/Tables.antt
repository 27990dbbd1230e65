-- ===== src/Examples/Tables.antt =====
-- A PostgreSQL that reads statements and keeps tables, for what the PostgreSQL service keeps.
use mathlib.Core.List.Perm
use database_router.Shared.{
  ◌≡◌, refl, Bool, false, not, Option, none, some, List, [], ◌∷◌, map, length, arith, inl, inr,
  Bool-cases, if◌then◌else◌,
}
use database_router.Shared.Action.{State, Result, ok, err}
use database_router.Shared.Int.{pos}
use database_router.Text.{Text, codes, text_eq}
use database_router.Text.Decimal.{itoa}
use database_router.Value.{Value, str, Row, empty_row, entry, assign, lookup}
use database_router.Fault.{GoError, message}
use database_router.Sql.Lexer.{tokens}
use database_router.Driver.{Driver, Affected}
use database_router.Driver.Calls.{Call}
use database_router.Service.Postgres.Tables.{
  Tables, Change, insert, update, delete, Semantics, table_of, chosen, EachChanged, Rewritten,
  touched, Carried, AllowedChanges, IsSqlServer,
}
use database_router.Service.Postgres.Changes.{execute_all}
use database_router.Service.Postgres.Changes.Refinement.{execute_all-AllowedChanges}
use database_router.Examples.World.{runtime, manager}
use database_router.Examples.Unreachable.{lost, unreachable}
use database_router.Examples.Reader.{text_of, change_of, change_of-Says}

abbrev has_id : Text → Option Value → Bool
has_id id none = false
has_id id (some v) = text_eq (text_of v) id

overwritten : Row → Row → Row
overwritten empty_row r = r
overwritten (entry k v row) r = overwritten row (assign k v r)

abbrev is_the_row : Text → Row → Bool
is_the_row id r = has_id id (lookup (codes "id") r)

-- A row without an id gets one.
abbrev completed : Text → Option Value → Row → Row
completed id none row = entry (codes "id") (str id) row
completed id (some v) row = row

-- Each table gives ids of its own choice to the rows that have none.
abbrev semantics : Semantics
semantics = record {
  matches = λ table. is_the_row;
  Made = λ table row r. (id : Text) × (r ≡ completed id (lookup (codes "id") row) row);
  Changed = λ table row r r'. r' ≡ overwritten row r;
}

-- The database counts the rows of a table for their ids.
abbrev rewritten : Change → List Row → List Row
rewritten (insert t row) rows = completed (itoa (length rows)) (lookup (codes "id") row) row ∷ rows
rewritten (update t id row) rows = map (λ r. if is_the_row id r then overwritten row r else r) rows
rewritten (delete t id) rows = chosen (λ r. not (is_the_row id r)) rows

abbrev carry : Change → Tables → Tables
carry c f = λ j. if text_eq (table_of c) j then rewritten c (f j) else f j

EachChanged-map :
    (p : Row → Bool) (into : Row → Row) (rows : List Row)
    → EachChanged p (λ r r'. r' ≡ into r) rows (map (λ r. if p r then into r else r) rows)
EachChanged-map p into [] = tt
EachChanged-map p into (r ∷ rows) = elim (Bool-cases (p r)) [
  | inl chosen_one ↦ (rw chosen_one refl, EachChanged-map p into rows)
  | inr other_one ↦ (rw other_one refl, EachChanged-map p into rows)
]

rewritten-Rewritten : (c : Change) (rows : List Row) → Rewritten semantics c rows (rewritten c rows)
rewritten-Rewritten (insert t row) rows = (_, (itoa (length rows), refl), Perm.refl _)
rewritten-Rewritten (update t id row) rows =
    (_, EachChanged-map (is_the_row id) (overwritten row) rows, Perm.refl _)
rewritten-Rewritten (delete t id) rows = Perm.refl _

carry-Carried : (c : Change) (f : Tables) → Carried semantics f c (carry c f)
carry-Carried c f j = elim (Bool-cases (text_eq (table_of c) j)) [
  | inl same ↦ rw same (rewritten-Rewritten c (f j))
  | inr apart ↦ rw apart (Perm.refl (f j))
]

abbrev answer_exec : Option Change → Tables → Result GoError Affected × Tables
answer_exec none f = (err (message (codes "syntax error")), f)
answer_exec (some c) f = (ok (ok (pos (touched semantics c (f (table_of c))))), carry c f)

-- The connection breaks behind each statement that returns a row.
abbrev answer_query_row : Option Change → Tables → Result GoError Value × Tables
answer_query_row none f = (err lost, f)
answer_query_row (some c) f = (err lost, carry c f)

abbrev database : Driver Tables
database = record unreachable {
  sql_query_row = λ ctx h text args w. answer_query_row (change_of (tokens text) args) w;
  sql_exec = λ ctx h text args w. answer_exec (change_of (tokens text) args) w;
}

database-IsSqlServer : IsSqlServer database 1 semantics
database-IsSqlServer = record {
  tables = λ w. w;
  exec_done = λ c ctx text args w a says h.
      let read = change_of-Says c text args says in (rw read (carry-Carried c w), ground arith);
  exec_failed =
      λ c ctx text args w e says h. inr (rw (change_of-Says c text args says) (carry-Carried c w));
  query_row_done =
      λ c ctx text args w v says h. rw (change_of-Says c text args says) (carry-Carried c w);
  query_row_failed =
      λ c ctx text args w e says h. inr (rw (change_of-Says c text args says) (carry-Carried c w));
}

abbrev people : Text
people = codes "people"

abbrev dora : Row
dora = entry (codes "id") (str (codes "1")) (entry (codes "name") (str (codes "dora")) empty_row)

abbrev changes : List Change
changes =
    insert people dora
    ∷ update people (codes "1") (entry (codes "name") (str (codes "anna")) empty_row)
    ∷ delete people (codes "1")
    ∷ insert people (entry (codes "name") (str (codes "emil")) empty_row)
    ∷ insert (codes "no table") dora
    ∷ []

abbrev empty : State Tables Call
empty = record { world = λ j. []; calls = [] }

execute_all-AllowedChanges_example :
    AllowedChanges semantics
      (database-IsSqlServer.tables empty.world)
      changes
      (execute_all database runtime manager none changes empty).0
      (database-IsSqlServer.tables
        (execute_all database runtime manager none changes empty).1.world)
execute_all-AllowedChanges_example =
    execute_all-AllowedChanges database runtime manager none 1 refl semantics database-IsSqlServer
      changes empty
