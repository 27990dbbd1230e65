-- ===== src/Service/Results.antt =====
-- What the queries of internal/service/postgres.go return, and the loops that read result sets.
pub mod Rows
use database_router.Shared.{
  ℕ, Bool, List, [], ◌∷◌, ◌++◌, Option, none, some, length, ◌==◌, if◌then◌else◌,
}
use database_router.Shared.Int.{ℤ}
use database_router.Shared.Action.{Result, ok, err}
use database_router.Text.{Text}
use database_router.Value.{Value, Row, empty_row, assign}
use database_router.Driver.{RawRow, scannable, unscannable}

-- The results of ExecuteQuery beside the error.
pub record QueryResult : Type 0 where
  pub columns : List Text
  pub rows : List Row
  pub rows_affected : ℤ
  pub is_select : Bool

-- rows.Scan into `n` values of type interface{}: an error is `none`.
pub scan_values : ℕ → RawRow → Option (List Value)
scan_values n (scannable cells) = if length cells == n then some cells else none
scan_values n (unscannable cells) = none

-- rows.Scan into one string; `convert` is database/sql's conversion.
scan_name : (Value → Option Text) → RawRow → Option Text
scan_name convert (scannable (v ∷ [])) = convert v
scan_name convert _ = none

-- `for i, col := range columns { row[col] = values[i] }`
pub fill_row : List Text → List Value → Row → Row
fill_row [] vs row = row
fill_row (col ∷ cols) [] row = row
fill_row (col ∷ cols) (v ∷ vs) row = fill_row cols vs (assign col v row)

-- The loop over rows.Next() that collects names; a row that does not scan is skipped.
unfoldable pub collect_names : (Value → Option Text) → List Text → List RawRow → List Text
unfolding scan_name
collect_names convert names [] = names
collect_names convert names (raw ∷ rest) =
    collect_names convert
      (elim (scan_name convert raw) [ none ↦ names | some name ↦ names ++ name ∷ [] ]) rest

-- The loop over rows.Next() that collects rows; a row that does not scan is skipped.
unfoldable pub collect_rows : List Text → List Row → List RawRow → List Row
unfolding scan_values fill_row
collect_rows columns results [] = results
collect_rows columns results (raw ∷ rest) =
    collect_rows columns
      (elim (scan_values (length columns) raw) [
        | none ↦ results
        | some cells ↦ results ++ fill_row columns cells empty_row ∷ []
      ])
      rest

-- `columns, _ := rows.Columns()`
abbrev pub columns_or_none : {E : Type 0} → Result E (List Text) → List Text
columns_or_none (ok columns) = columns
columns_or_none (err e) = []
