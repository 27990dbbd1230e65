-- ===== src/Value/Rows.antt =====
-- Maps as rows: assignment and lookup.
use database_router.Shared.{◌≡◌, refl, none, some, arith, if◌then◌else◌}
use database_router.Text.{Text, text_eq}
use database_router.Text.Laws.{text_eq_iff}
use database_router.Value.{Value, Row, empty_row, entry, lookup, assign}

pub lookup-assign :
    (k j : Text) (v : Value) (r : Row)
    → lookup j (assign k v r) ≡ (if text_eq k j then some v else lookup j r)
unfolding lookup assign
lookup-assign k j v empty_row = refl
lookup-assign k j v (entry i w r) =
    ground (arith, text_eq_iff i k, text_eq_iff i j, text_eq_iff k j, lookup-assign k j v r)

-- No key stands twice: a row is a map.
abbrev pub HasDistinctKeys : Row → Type 0
HasDistinctKeys empty_row = Unit
HasDistinctKeys (entry k v r) = (lookup k r ≡ none) × HasDistinctKeys r

pub assign-HasDistinctKeys :
    (k : Text) (v : Value) (r : Row) → HasDistinctKeys r → HasDistinctKeys (assign k v r)
unfolding assign lookup
assign-HasDistinctKeys k v empty_row h = (refl, tt)
assign-HasDistinctKeys k v (entry j w r) (hj, h) =
    ground (
      arith,
      text_eq_iff j k,
      text_eq_iff k j,
      lookup-assign k j v r,
      assign-HasDistinctKeys k v r h,
    )
