-- ===== src/Service/Mongo.antt =====
-- internal/service/mongo.go: the MongoDB service.
pub mod Documents
pub mod Store
pub mod Commands
pub mod Refinement
use database_router.Shared.{ℕ, none, some, List, [], ◌∷◌, ◌++◌}
use database_router.Shared.Action.{Result, ok, err, pure, raise, lift, finally, ◌>>=◌, ◌>>◌}
use database_router.Shared.Int.{ℤ}
use database_router.Text.{Text, codes}
use database_router.Value.{Row, empty_row, entry, assign, Runtime}
use database_router.Fault.{GoError, not_enabled, message, error_text}
use database_router.Driver.Run
use database_router.Driver.{Driver, Go, Counts}
use database_router.Driver.Calls.{Ctx, Handle}
use database_router.Manager.{Manager, with_timeout}

-- `for k, v := range doc { row[k] = v }`
pub copy_row : Row → Row → Row
copy_row row empty_row = row
copy_row row (entry k v doc) = copy_row (assign k v row) doc

-- The loop of FindDocuments.
pub copy_rows : List Row → List Row → List Row
unfolding copy_row
copy_rows results [] = results
copy_rows results (doc ∷ docs) = copy_rows (results ++ copy_row empty_row doc ∷ []) docs

-- fmt.Errorf("invalid ID format: %w", err)
abbrev invalid_id : Result GoError ℕ → Result GoError ℕ
invalid_id (ok id) = ok id
invalid_id (err e) = err (message (codes "invalid ID format: " ++ error_text e))

module _ {W : Type 0} (d : Driver W) (rt : Runtime) (m : Manager) (ctx : Ctx) where
  -- `if s.db.MongoDB == nil { return ErrNotEnabled("MongoDB") }`, and the client otherwise
  abbrev mongo_enabled : Go W Handle
  mongo_enabled = elim m.mongo_db [
    | none ↦ raise (not_enabled (codes "MongoDB"))
    | some client ↦ pure client
  ]

  unfoldable pub list_databases : Go W (List Text)
  list_databases = do client ← mongo_enabled; Run.list_database_names d (with_timeout ctx 10) client

  unfoldable pub list_collections : Text → Go W (List Text)
  list_collections database = do
    client ← mongo_enabled
    Run.list_collection_names d (with_timeout ctx 10) client database

  unfoldable pub insert_document : Text → Text → Row → Go W Text
  insert_document database collection document = do
    client ← mongo_enabled
    id ← Run.insert_one d (with_timeout ctx 5) client database collection document
    pure (rt.sprint id)

  unfoldable pub find_documents : Text → Text → Go W (List Row)
  unfolding copy_rows
  find_documents database collection = do
    client ← mongo_enabled
    cursor ← Run.find d (with_timeout ctx 10) client database collection
    finally (do docs ← Run.cursor_all d (with_timeout ctx 10) cursor; pure (copy_rows [] docs))
        (Run.cursor_close d (with_timeout ctx 10) cursor)

  unfoldable pub update_document : Text → Text → Text → Row → Go W Counts
  update_document database collection id update = do
    client ← mongo_enabled
    object_id ← lift (invalid_id (d.object_id_from_hex id))
    Run.update_one d (with_timeout ctx 5) client database collection object_id update

  unfoldable pub delete_document : Text → Text → Text → Go W ℤ
  delete_document database collection id = do
    client ← mongo_enabled
    object_id ← lift (invalid_id (d.object_id_from_hex id))
    Run.delete_one d (with_timeout ctx 5) client database collection object_id

  unfoldable pub test_connection : Go W Text
  test_connection = do
    client ← mongo_enabled
    Run.mongo_ping d (with_timeout ctx 5) client
    pure m.config.mongo.database
