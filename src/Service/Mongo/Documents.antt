-- ===== src/Service/Mongo/Documents.antt =====
-- The documents that FindDocuments returns.
use database_router.Shared.{
  ◌≡◌, refl, ap, sym, ◌∙◌, false, none, some, List, [], ◌∷◌, ◌++◌, All, arith, append-nil,
  append_assoc,
}
use database_router.Shared.Action.{State, ok}
use database_router.Text.{Text, text_eq}
use database_router.Text.Laws.{text_eq_iff}
use database_router.Value.{Value, Runtime, Row, empty_row, entry, assign, lookup}
use database_router.Value.Rows.{HasDistinctKeys}
use database_router.Driver.{Driver}
use database_router.Driver.Calls.{Call, Ctx, Handle}
use database_router.Manager.{Manager, with_timeout}
use database_router.Service.Mongo.{copy_row, copy_rows, find_documents}

-- The entries of a row, behind those of another one.
abbrev behind : Row → Row → Row
behind empty_row row = row
behind (entry k v r) row = entry k v (behind r row)

-- The keys of a row are none of another row.
abbrev Apart : Row → Row → Type 0
Apart row empty_row = Unit
Apart row (entry k v r) = (lookup k row ≡ none) × Apart row r

assign-behind :
    (k : Text) (v : Value) (row : Row)
    → lookup k row ≡ none
    → assign k v row ≡ behind row (entry k v empty_row)
unfolding assign lookup
assign-behind k v empty_row h = refl
assign-behind k v (entry j w r) h = ground (arith, text_eq_iff j k, assign-behind k v r)

lookup-behind :
    (k j : Text) (v : Value) (row : Row)
    → lookup k row ≡ none
    → text_eq j k ≡ false
    → lookup k (behind row (entry j v empty_row)) ≡ none
unfolding lookup
lookup-behind k j v empty_row h g = rw g refl
lookup-behind k j v (entry i w r) h g = ground (arith, lookup-behind k j v r)

behind_assoc : (a b c : Row) → behind (behind a b) c ≡ behind a (behind b c)
behind_assoc empty_row b c = refl
behind_assoc (entry k v r) b c = ap (entry k v) (behind_assoc r b c)

behind-empty_row : (a : Row) → behind a empty_row ≡ a
behind-empty_row empty_row = refl
behind-empty_row (entry k v r) = ap (entry k v) (behind-empty_row r)

Apart-behind :
    (row : Row) (k : Text) (v : Value) (r : Row)
    → Apart row r
    → lookup k r ≡ none
    → Apart (behind row (entry k v empty_row)) r
unfolding lookup
Apart-behind row k v empty_row h g = tt
Apart-behind row k v (entry j w r) (hj, h) g =
    ground (
      arith,
      text_eq_iff k j,
      text_eq_iff j k,
      lookup-behind j k v row hj,
      Apart-behind row k v r h,
    )

copy_row-behind :
    (row doc : Row) → Apart row doc → HasDistinctKeys doc → copy_row row doc ≡ behind row doc
unfolding copy_row
copy_row-behind row empty_row a h = sym (behind-empty_row row)
copy_row-behind row (entry k v doc) (ak, a) (hk, h) =
    ap (λ r. copy_row r doc) (assign-behind k v row ak)
    ∙ copy_row-behind (behind row (entry k v empty_row)) doc (Apart-behind row k v doc a hk) h
    ∙ behind_assoc row (entry k v empty_row) doc

Apart-empty_row : (doc : Row) → Apart empty_row doc
unfolding lookup
Apart-empty_row empty_row = tt
Apart-empty_row (entry k v r) = (refl, Apart-empty_row r)

pub copy_rows-append :
    (results docs : List Row) → All HasDistinctKeys docs → copy_rows results docs ≡ results ++ docs
unfolding copy_rows
copy_rows-append results [] h = sym (append-nil results)
copy_rows-append results (doc ∷ docs) (hd, h) =
    ap (λ r. copy_rows (results ++ r ∷ []) docs)
      (copy_row-behind empty_row doc (Apart-empty_row doc) hd)
    ∙ copy_rows-append (results ++ doc ∷ []) docs h
    ∙ append_assoc results (doc ∷ []) docs

module _ {W : Type 0} (d : Driver W) (rt : Runtime) (m : Manager) (ctx : Ctx)
    (s : State W Call) where
  -- With MongoDB connected, a FindDocuments whose query succeeds returns the documents of the
  -- cursor, if none has a key twice, each with its entries in their order, and has closed the
  -- cursor as its last call.
  find_documents-docs :
      (database collection : Text) (client cursor : Handle) (docs : List Row)
      → m.mongo_db ≡ some client
      → All HasDistinctKeys docs
      → (d.find (with_timeout ctx 10) client database collection s.world).0 ≡ ok cursor
      → (d.cursor_all
          (with_timeout ctx 10)
          cursor
          (d.find (with_timeout ctx 10) client database collection s.world).1).0
        ≡ ok docs
      → ((find_documents d rt m ctx database collection s).0 ≡ ok docs)
        × ((find_documents d rt m ctx database collection s).1.calls
            ≡ Call.cursor_close (with_timeout ctx 10) cursor
              ∷ Call.cursor_all (with_timeout ctx 10) cursor
              ∷ Call.find (with_timeout ctx 10) client database collection
              ∷ s.calls)
  unfolding find_documents
  find_documents-docs database collection client cursor docs on distinct found read =
      (ground (arith, copy_rows-append [] docs distinct), ground arith)
