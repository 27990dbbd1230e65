-- ===== src/Core/Cells.antt =====
-- What an application reads of the rows that PostgreSQL returns.
use database_router.Shared.{
  ◌≡◌, refl, ap, sym, ◌∙◌, none, some, Option, List, [], ◌∷◌, ◌++◌, map, All, arith, append-nil,
  append_assoc, Bool-cases, inl, inr, if◌then◌else◌,
}
use database_router.Shared.Action.{ok}
use database_router.Text.{Text, text_eq}
use database_router.Text.Laws.{text_eq_iff}
use database_router.Value.{
  Value, nil, bool, float64, float32, int, int32, int64, str, bytes, map_of, slice_of, other, Row,
  empty_row, entry, Fields, field, lookup, assign, Runtime,
}
use database_router.Value.Float.{float64_of_int, float64_of_float32}
use database_router.Value.Rows.{HasDistinctKeys, lookup-assign}
use database_router.Server.Convert.{to_proto_value, row_to_proto_fields}
use database_router.Core.{unpack_fields, unpack_rows}

-- What becomes of a cell on its way to the application; `none` if it is left out.
abbrev cell : Runtime → Value → Option Value
cell rt nil = none
cell rt (bool b) = some (bool b)
cell rt (float64 x) = some (float64 x)
cell rt (float32 x) = some (float64 (float64_of_float32 x))
cell rt (int n) = some (float64 (float64_of_int n))
cell rt (int32 n) = some (float64 (float64_of_int n))
cell rt (int64 n) = some (float64 (float64_of_int n))
cell rt (str s) = some (str s)
cell rt (bytes b) = some (str (rt.string_of_bytes b))
cell rt (map_of r) = some (str (rt.sprint (map_of r)))
cell rt (slice_of l) = some (str (rt.sprint (slice_of l)))
cell rt (other k) = some (str (rt.sprint (other k)))

abbrev seen : Runtime → Option Value → Option Value
seen rt none = none
seen rt (some v) = cell rt v

-- The application sees the rows in their order, each with its cells but for those left out.
abbrev pub Shows : Runtime → List Row → List Row → Type 0
Shows rt [] [] = Unit
Shows rt (r ∷ rs) (o ∷ os) = ((k : Text) → lookup k o ≡ seen rt (lookup k r)) × Shows rt rs os
Shows rt _ _ = ⊥

abbrev stored : Text → Option Value → Row → Row
stored k none row = row
stored k (some w) row = assign k w row

abbrev or_else : Option Value → Option Value → Option Value
or_else none o = o
or_else (some v) o = some v

or_else-none : (o : Option Value) → or_else o none ≡ o
or_else-none none = refl
or_else-none (some v) = refl

unpack_fields-field :
    (rt : Runtime) (k : Text) (v : Value) (fs : Fields) (row : Row)
    → unpack_fields row (field k (to_proto_value rt v) fs)
      ≡ unpack_fields (stored k (cell rt v) row) fs
unfolding unpack_fields to_proto_value
unpack_fields-field rt k nil fs row = refl
unpack_fields-field rt k (bool b) fs row = refl
unpack_fields-field rt k (float64 x) fs row = refl
unpack_fields-field rt k (float32 x) fs row = refl
unpack_fields-field rt k (int n) fs row = refl
unpack_fields-field rt k (int32 n) fs row = refl
unpack_fields-field rt k (int64 n) fs row = refl
unpack_fields-field rt k (str s) fs row = refl
unpack_fields-field rt k (bytes b) fs row = refl
unpack_fields-field rt k (map_of r) fs row = refl
unpack_fields-field rt k (slice_of l) fs row = refl
unpack_fields-field rt k (other n) fs row = refl

lookup-stored :
    (k j : Text) (o : Option Value) (row : Row)
    → lookup j (stored k o row) ≡ (if text_eq k j then or_else o (lookup j row) else lookup j row)
lookup-stored k j none row = ground arith
lookup-stored k j (some w) row = lookup-assign k j w row

-- A cell in front of the others, where the row has no other under its key.
lookup-entry :
    (rt : Runtime) (k j : Text) (v : Value) (r row : Row)
    → lookup k r ≡ none
    → or_else (seen rt (lookup j r)) (lookup j (stored k (cell rt v) row))
      ≡ or_else (seen rt (lookup j (entry k v r))) (lookup j row)
unfolding lookup
lookup-entry rt k j v r row absent = elim (Bool-cases (text_eq k j)) [
  | inl same ↦
      let here : lookup j r ≡ none =
        ap (λ i. lookup i r) (sym ((text_eq_iff k j).0 same)) ∙ absent in
      rw (lookup-stored k j (cell rt v) row, same, here) refl
  | inr apart ↦ rw (lookup-stored k j (cell rt v) row, apart) refl
]

unpack_fields-lookup :
    (rt : Runtime) (r row : Row)
    → HasDistinctKeys r
    → (out : Row) × (unpack_fields row (row_to_proto_fields rt r) ≡ ok out)
      × ((k : Text) → lookup k out ≡ or_else (seen rt (lookup k r)) (lookup k row))
unfolding row_to_proto_fields unpack_fields lookup
unpack_fields-lookup rt empty_row row h = (row, refl, λ k. refl)
unpack_fields-lookup rt (entry k v r) row (hk, h) =
    let (out, unpacked, looked) = unpack_fields-lookup rt r (stored k (cell rt v) row) h in
    (
      out,
      unpack_fields-field rt k v (row_to_proto_fields rt r) row ∙ unpacked,
      λ j. looked j ∙ lookup-entry rt k j v r row hk,
    )

pub unpack_rows-Shows :
    (rt : Runtime) (rows results : List Row)
    → All HasDistinctKeys rows
    → (out : List Row) × (unpack_rows results (map (row_to_proto_fields rt) rows)
        ≡ ok (results ++ out))
      × Shows rt rows out
unfolding unpack_rows lookup
unpack_rows-Shows rt [] results h = ([], ap ok (sym (append-nil results)), tt)
unpack_rows-Shows rt (r ∷ rows) results (hr, h) =
    let (o, unpacked, looked) = unpack_fields-lookup rt r empty_row hr in
    let (out, rest, shown) = unpack_rows-Shows rt rows (results ++ o ∷ []) h in
    (
      o ∷ out,
      rw (unpack_rows, unpacked) (rest ∙ ap ok (append_assoc results (o ∷ []) out)),
      (λ k. looked k ∙ or_else-none (seen rt (lookup k r)), shown),
    )
