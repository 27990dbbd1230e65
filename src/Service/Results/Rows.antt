-- ===== src/Service/Results/Rows.antt =====
-- The loops over result sets, against filters and lookups.
use mathlib.Core.List.{filter_map}
use mathlib.Core.Option
use database_router.Shared.{
  ◌≡◌, ◌==◌, Bool-cases, refl, sym, Option, none, some, List, [], ◌∷◌, ◌++◌, length, arith, All,
  All-append, append_assoc, append-nil, Option-cases, inl, inr, if◌then◌else◌,
}
use database_router.Text.{Text, text_eq}
use database_router.Value.{Value, Row, empty_row, lookup, assign}
use database_router.Value.Rows.{HasDistinctKeys, lookup-assign, assign-HasDistinctKeys}
use database_router.Driver.{RawRow, scannable, unscannable}
use database_router.Service.Results.{scan_values, fill_row, collect_rows}

-- What one row of a result becomes; `none` if it is skipped.
abbrev row_of : List Text → RawRow → Option Row
row_of columns raw =
    Option.map (λ cells. fill_row columns cells empty_row) (scan_values (length columns) raw)

-- The cell of the last column with a name.
abbrev pub last_cell : Text → List Text → List Value → Option Value
last_cell k [] cells = none
last_cell k (col ∷ cols) [] = none
last_cell k (col ∷ cols) (v ∷ vs) = elim (last_cell k cols vs) [
  | some w ↦ some w
  | none ↦ if text_eq col k then some v else none
]

-- A row of the service shows the cells of a row of the database: under each name it has, once, the cell
-- of the last column of that name, and it has nothing else.
abbrev pub ShowsCells : List Text → List Value → Row → Type 0
ShowsCells columns cells row =
    ((k : Text) → lookup k row ≡ last_cell k columns cells) × HasDistinctKeys row

-- The rows of the service show those of the database with as many cells as columns, in their order.
-- A row that cannot be scanned or has another number of cells is left out.
abbrev pub ShowsRows : List Text → List RawRow → List Row → Type 0
ShowsRows columns [] rows = rows ≡ []
ShowsRows columns (unscannable cells ∷ raws) rows = ShowsRows columns raws rows
ShowsRows columns (scannable cells ∷ raws) rows =
    if length cells == length columns
    then ((row : Row) × (rest : List Row) × (rows ≡ row ∷ rest)
        × ShowsCells columns cells row
        × ShowsRows columns raws rest)
    else ShowsRows columns raws rows

abbrev or_else : Option Value → Option Value → Option Value
or_else (some v) o = some v
or_else none o = o

collect_rows-append :
    (columns : List Text) (out : List Row) (raws : List RawRow)
    → collect_rows columns out raws ≡ out ++ filter_map (row_of columns) raws
unfolding collect_rows filter_map
collect_rows-append columns out [] = sym (append-nil out)
collect_rows-append columns out (raw ∷ raws) =
    elim (Option-cases (scan_values (length columns) raw)) [
      | inl bad ↦ ground (arith, collect_rows-append columns out raws)
      | inr (cells, good) ↦ ground (
        arith,
        collect_rows-append columns (out ++ fill_row columns cells empty_row ∷ []) raws,
        append_assoc out (fill_row columns cells empty_row ∷ []) (filter_map (row_of columns) raws),
      )
    ]

lookup-fill_row :
    (k : Text) (cols : List Text) (cells : List Value) (row : Row)
    → lookup k (fill_row cols cells row) ≡ or_else (last_cell k cols cells) (lookup k row)
unfolding fill_row
lookup-fill_row k [] cells row = refl
lookup-fill_row k (col ∷ cols) [] row = refl
lookup-fill_row k (col ∷ cols) (v ∷ vs) row =
    ground (arith, lookup-fill_row k cols vs (assign col v row), lookup-assign col k v row)

-- A row of a result has, under each name, the cell of the last column of that name.
lookup-row :
    (k : Text) (columns : List Text) (cells : List Value)
    → lookup k (fill_row columns cells empty_row) ≡ last_cell k columns cells
unfolding lookup
lookup-row k columns cells = ground (arith, lookup-fill_row k columns cells empty_row)

fill_row-HasDistinctKeys :
    (columns : List Text) (cells : List Value) (row : Row)
    → HasDistinctKeys row
    → HasDistinctKeys (fill_row columns cells row)
unfolding fill_row
fill_row-HasDistinctKeys [] cells row h = h
fill_row-HasDistinctKeys (col ∷ cols) [] row h = h
fill_row-HasDistinctKeys (col ∷ cols) (v ∷ vs) row h =
    fill_row-HasDistinctKeys cols vs (assign col v row) (assign-HasDistinctKeys col v row h)

scanned-ShowsRows :
    (columns : List Text) (raws : List RawRow)
    → ShowsRows columns raws (filter_map (row_of columns) raws)
unfolding filter_map scan_values
scanned-ShowsRows columns [] = refl
scanned-ShowsRows columns (unscannable cells ∷ raws) = scanned-ShowsRows columns raws
scanned-ShowsRows columns (scannable cells ∷ raws) =
    elim (Bool-cases (length cells == length columns)) [
      | inl fits ↦
          let shown : ShowsCells columns cells (fill_row columns cells empty_row) = (
            λ k. lookup-row k columns cells,
            fill_row-HasDistinctKeys columns cells empty_row tt,
          ) in
          rw fits (_, _, refl, shown, scanned-ShowsRows columns raws)
      | inr misfit ↦ rw misfit (scanned-ShowsRows columns raws)
    ]

-- What the loop collects shows the rows of the result.
pub collect_rows-ShowsRows :
    (columns : List Text) (raws : List RawRow)
    → ShowsRows columns raws (collect_rows columns [] raws)
collect_rows-ShowsRows columns raws =
    rw (collect_rows-append columns [] raws) (scanned-ShowsRows columns raws)

-- Every row of a result is a map.
pub collect_rows-HasDistinctKeys :
    (columns : List Text) (out : List Row) (raws : List RawRow)
    → All HasDistinctKeys out
    → All HasDistinctKeys (collect_rows columns out raws)
unfolding collect_rows
collect_rows-HasDistinctKeys columns out [] h = h
collect_rows-HasDistinctKeys columns out (raw ∷ raws) h =
    elim (Option-cases (scan_values (length columns) raw)) [
      | inl bad ↦ rw bad (collect_rows-HasDistinctKeys columns out raws h)
      | inr (cells, good) ↦ rw good (
          collect_rows-HasDistinctKeys columns (out ++ fill_row columns cells empty_row ∷ []) raws (
            All-append HasDistinctKeys out (fill_row columns cells empty_row ∷ []) h
              (fill_row-HasDistinctKeys columns cells empty_row tt, tt)))
    ]
