-- ===== src/Service/Postgres/Tables.antt =====
-- What the three operations that change a table promise: an abstract database, its tables as
-- collections of rows, over a server that reads SQL as it is documented.
pub mod Times
use mathlib.Core.List.{Perm}
use database_router.Shared.{
  ℕ, zero, suc, ◌+◌, ◌≤◌, ◌≡◌, ◌⊎◌, Bool, true, false, not, List, [], ◌∷◌, ◌++◌, map, length,
  if◌then◌else◌,
}
use database_router.Shared.Action.{ok, err}
use database_router.Shared.Int.{ℤ, pos}
use database_router.Text.{Text, codes, text_eq}
use database_router.Value.{Value, str, Row, keys, values}
use database_router.Fault.{GoError}
use database_router.Sql.Lexer.{Token, word, ident, mark, param, tokens}
use database_router.Sql.Reading.{commas}
use database_router.Sql.Statements.{insert_body, returning_tail, clause_tokens, numbered}
use database_router.Driver.{Driver, Affected}
use database_router.Driver.Calls.{Ctx, Handle}

-- The rows of each table. Their order means nothing.
abbrev pub Tables : Type 0
Tables = Text → List Row

pub data Change : Type 0 where
  insert : Text → Row → Change
  update : Text → Text → Row → Change
  delete : Text → Text → Change

pub data Reply : Type 0 where
  failed inserted : Reply
  counted : ℤ → Reply

-- What a table does with values: whether the id of a row is equal to a text, which rows an INSERT of a
-- row may make, with defaults, generated values and casts, and which rows an UPDATE of the columns of
-- the first row may make of the second one. The table comes first.
pub record Semantics : Type 1 where
  pub matches : Text → Text → Row → Bool
  pub Made : Text → Row → Row → Type 0
  pub Changed : Text → Row → Row → Row → Type 0

pub chosen : (Row → Bool) → List Row → List Row
chosen p [] = []
chosen p (r ∷ rows) = let rest = chosen p rows in if p r then r ∷ rest else rest

abbrev pub table_of : Change → Text
table_of (insert t row) = t
table_of (update t id row) = t
table_of (delete t id) = t

-- Each row that `p` is true of has been changed, and each other row is as it was.
abbrev pub EachChanged : (Row → Bool) → (Row → Row → Type 0) → List Row → List Row → Type 0
EachChanged p Into [] [] = Unit
EachChanged p Into (r ∷ rows) (r' ∷ rows') =
    (if p r then Into r r' else r' ≡ r) × EachChanged p Into rows rows'
EachChanged p Into _ _ = ⊥

-- From the first rows of its table, the change may leave the second ones.
abbrev pub Rewritten : Semantics → Change → List Row → List Row → Type 0
Rewritten sem (insert t row) rows rows' = (r : Row) × sem.Made t row r × Perm (r ∷ rows) rows'
Rewritten sem (update t id row) rows rows' =
    (out : List Row) × EachChanged (sem.matches t id) (sem.Changed t row) rows out × Perm out rows'
Rewritten sem (delete t id) rows rows' = Perm (chosen (λ r. not (sem.matches t id r)) rows) rows'

-- How many rows of its table a change is about.
abbrev pub touched : Semantics → Change → List Row → ℕ
touched sem (insert t row) rows = 1
touched sem (update t id row) rows = length (chosen (sem.matches t id) rows)
touched sem (delete t id) rows = length (chosen (sem.matches t id) rows)

abbrev pub Same : Tables → Tables → Type 0
Same f g = (j : Text) → Perm (f j) (g j)

-- From the tables `f`, the change is carried out once, and `g` is what is there then: no other table
-- is touched.
abbrev pub Carried : Semantics → Tables → Change → Tables → Type 0
Carried sem f c g =
    (j : Text) → if text_eq (table_of c) j then Rewritten sem c (f j) (g j) else Perm (f j) (g j)

abbrev pub Times : Semantics → ℕ → Tables → Change → Tables → Type 0
Times sem zero f c g = Same f g
Times sem (suc n) f c g = (h h' : Tables) × Same f h × Carried sem h c h' × Times sem n h' c g

-- A change that fails may or may not have been carried out.
abbrev pub most : Change → ℕ
most (insert t row) = 2
most (update t id row) = 1
most (delete t id) = 1

-- From the tables `f`, the service may answer `r` to the change `c` and `g` may be there then. An
-- INSERT may be carried out twice. An UPDATE and a DELETE are counted.
abbrev pub Allowed : Semantics → Tables → Change → Reply → Tables → Type 0
Allowed sem f c failed g = (n : ℕ) × (n ≤ most c) × Times sem n f c g
Allowed sem f (insert t row) inserted g =
    (n : ℕ) × (1 ≤ n) × (n ≤ 2) × Times sem n f (insert t row) g
Allowed sem f (update t id row) (counted k) g =
    (k ≡ pos (touched sem (update t id row) (f t))) × Carried sem f (update t id row) g
Allowed sem f (delete t id) (counted k) g =
    (k ≡ pos (touched sem (delete t id) (f t))) × Carried sem f (delete t id) g
Allowed sem f _ _ g = ⊥

abbrev pub AllowedChanges : Semantics → Tables → List Change → List Reply → Tables → Type 0
AllowedChanges sem f [] [] g = Same f g
AllowedChanges sem f (c ∷ cs) (r ∷ rs) g =
    (h : Tables) × Allowed sem f c r h × AllowedChanges sem h cs rs g
AllowedChanges sem f _ _ g = ⊥

-- The statement, as PostgreSQL reads it with its arguments, asks for the change and nothing else.
abbrev pub Says : Change → Text → List Value → Type 0
Says (insert t row) text args =
    (tail : List Token) × (tokens text
      ≡ word (codes "INSERT") ∷ word (codes "INTO") ∷ insert_body t (keys row) tail)
    × ((tail ≡ mark b')' ∷ []) ⊎ (tail ≡ mark b')' ∷ returning_tail))
    × (args ≡ values row)
Says (update t id row) text args =
    (tokens text
      ≡ word (codes "UPDATE")
        ∷ ident t
        ∷ word (codes "SET")
        ∷ (commas (map clause_tokens (numbered 1 (keys row)))
            ++ (word (codes "WHERE")
                ∷ word (codes "id")
                ∷ mark b'='
                ∷ param (1 + length (keys row))
                ∷ [])))
    × (args ≡ values row ++ str id ∷ [])
Says (delete t id) text args =
    (tokens text
      ≡ word (codes "DELETE")
        ∷ word (codes "FROM")
        ∷ ident t
        ∷ word (codes "WHERE")
        ∷ word (codes "id")
        ∷ mark b'='
        ∷ param 1
        ∷ [])
    × (args ≡ str id ∷ [])

-- The documented behaviour of PostgreSQL at a connection `db`, on tables that no one else writes to,
-- whose triggers and rules do no more than `sem` says: a statement is carried out as a whole or not at all. It has been carried out if it is
-- reported as done, with the number of its rows; behind an error it may have been, as when the
-- connection is lost before the answer arrives.
pub record IsSqlServer {W : Type 0} (d : Driver W) (db : Handle) (sem : Semantics) : Type 0 where
  pub tables : W → Tables
  pub exec_done :
      (c : Change) (ctx : Ctx) (text : Text) (args : List Value) (w : W) (a : Affected)
      → Says c text args
      → (d.sql_exec ctx db text args w).0 ≡ ok a
      → Carried sem (tables w) c (tables (d.sql_exec ctx db text args w).1)
        × (a ≡ ok (pos (touched sem c (tables w (table_of c)))))
  pub exec_failed :
      (c : Change) (ctx : Ctx) (text : Text) (args : List Value) (w : W) (e : GoError)
      → Says c text args
      → (d.sql_exec ctx db text args w).0 ≡ err e
      → Same (tables w) (tables (d.sql_exec ctx db text args w).1)
        ⊎ Carried sem (tables w) c (tables (d.sql_exec ctx db text args w).1)
  pub query_row_done :
      (c : Change) (ctx : Ctx) (text : Text) (args : List Value) (w : W) (v : Value)
      → Says c text args
      → (d.sql_query_row ctx db text args w).0 ≡ ok v
      → Carried sem (tables w) c (tables (d.sql_query_row ctx db text args w).1)
  pub query_row_failed :
      (c : Change) (ctx : Ctx) (text : Text) (args : List Value) (w : W) (e : GoError)
      → Says c text args
      → (d.sql_query_row ctx db text args w).0 ≡ err e
      → Same (tables w) (tables (d.sql_query_row ctx db text args w).1)
        ⊎ Carried sem (tables w) c (tables (d.sql_query_row ctx db text args w).1)
