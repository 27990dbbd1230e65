-- ===== src/Service/Mongo/Commands.antt =====
-- The commands of the MongoDB service, and the calls that they come down to.
use database_router.Shared.{ℕ, ◌≡◌, none, some, List, [], ◌∷◌, arith}
use database_router.Shared.Action.{State, Result, ok, err}
use database_router.Shared.Int.{ℤ}
use database_router.Text.{Text}
use database_router.Value.{Value, Row, Runtime}
use database_router.Fault.{GoError}
use database_router.Driver.{Driver, Counts}
use database_router.Driver.Calls.{Call, Ctx, Handle}
use database_router.Manager.{Manager, with_timeout}
use database_router.Service.Mongo.{
  insert_document, find_documents, update_document, delete_document, copy_rows,
}
use database_router.Service.Mongo.Store.{
  Command, insert, find, update, delete, Reply, failed, inserted, found, counted, deleted,
}

abbrev pub insert_reply : Result GoError Text → Reply
insert_reply (ok id) = inserted
insert_reply (err e) = failed

abbrev pub printed : Runtime → Result GoError Value → Result GoError Text
printed rt (ok id) = ok (rt.sprint id)
printed rt (err e) = err e

abbrev pub find_reply : Result GoError (List Row) → Reply
find_reply (ok docs) = found docs
find_reply (err e) = failed

abbrev pub update_reply : Result GoError Counts → Reply
update_reply (ok n) = counted n
update_reply (err e) = failed

abbrev pub delete_reply : Result GoError ℤ → Reply
delete_reply (ok n) = deleted n
delete_reply (err e) = failed

module _ {W : Type 0} (d : Driver W) (rt : Runtime) (m : Manager) (ctx : Ctx) where
  -- A command by the operation of the service.
  pub execute : Command → State W Call → Reply × State W Call
  execute (insert db coll doc) s = (
    insert_reply (insert_document d rt m ctx db coll doc s).0,
    (insert_document d rt m ctx db coll doc s).1,
  )
  execute (find db coll) s =
      (find_reply (find_documents d rt m ctx db coll s).0, (find_documents d rt m ctx db coll s).1)
  execute (update db coll id fields) s = (
    update_reply (update_document d rt m ctx db coll id fields s).0,
    (update_document d rt m ctx db coll id fields s).1,
  )
  execute (delete db coll id) s = (
    delete_reply (delete_document d rt m ctx db coll id s).0,
    (delete_document d rt m ctx db coll id s).1,
  )

  unfoldable pub execute_all : List Command → State W Call → List Reply × State W Call
  execute_all [] s = ([], s)
  execute_all (c ∷ cs) s =
      let (r, s') = execute c s in let (rs, s'') = execute_all cs s' in (r ∷ rs, s'')

  pub off : (c : Command) (s : State W Call) → m.mongo_db ≡ none → execute c s ≡ (failed, s)
  unfolding execute insert_document find_documents update_document delete_document
  off (insert db coll doc) s none_there = ground arith
  off (find db coll) s none_there = ground arith
  off (update db coll id fields) s none_there = ground arith
  off (delete db coll id) s none_there = ground arith

  module _ (client : Handle) (on : m.mongo_db ≡ some client) (db coll : Text)
      (s : State W Call) where
    abbrev pub updating : ℕ → Row → Result GoError Counts × W
    updating i fields = d.update_one (with_timeout ctx 5) client db coll i fields s.world

    abbrev pub deleting : ℕ → Result GoError ℤ × W
    deleting i = d.delete_one (with_timeout ctx 5) client db coll i s.world

    abbrev pub inserting : Row → Result GoError Value × W
    inserting doc = d.insert_one (with_timeout ctx 5) client db coll doc s.world

    abbrev pub finding : Result GoError Handle × W
    finding = d.find (with_timeout ctx 10) client db coll s.world

    abbrev pub reading : Handle → Result GoError (List Row) × W
    reading cursor = d.cursor_all (with_timeout ctx 10) cursor finding.1

    abbrev pub read_out : Result GoError (List Row) → Reply
    read_out (ok docs) = found (copy_rows [] docs)
    read_out (err e) = failed

    pub stored :
        (doc : Row)
        → ((execute (insert db coll doc) s).0 ≡ insert_reply (printed rt (inserting doc).0))
          × ((execute (insert db coll doc) s).1.world ≡ (inserting doc).1)
    unfolding execute insert_document
    stored doc = (ground arith, ground arith)

    pub refused :
        (id : Text) (fields : Row) (e : GoError)
        → d.object_id_from_hex id ≡ err e
        → (execute (update db coll id fields) s ≡ (failed, s))
          × (execute (delete db coll id) s ≡ (failed, s))
    unfolding execute update_document delete_document
    refused id fields e bad = (ground arith, ground arith)

    pub updated :
        (id : Text) (i : ℕ) (fields : Row)
        → d.object_id_from_hex id ≡ ok i
        → ((execute (update db coll id fields) s).0 ≡ update_reply (updating i fields).0)
          × ((execute (update db coll id fields) s).1.world ≡ (updating i fields).1)
    unfolding execute update_document
    updated id i fields read = (ground arith, ground arith)

    pub removed :
        (id : Text) (i : ℕ)
        → d.object_id_from_hex id ≡ ok i
        → ((execute (delete db coll id) s).0 ≡ delete_reply (deleting i).0)
          × ((execute (delete db coll id) s).1.world ≡ (deleting i).1)
    unfolding execute delete_document
    removed id i read = (ground arith, ground arith)

    pub not_found :
        (e : GoError)
        → finding.0 ≡ err e
        → ((execute (find db coll) s).0 ≡ failed) × ((execute (find db coll) s).1.world ≡ finding.1)
    unfolding execute find_documents
    not_found e h = (ground arith, ground arith)

    pub listed :
        (cursor : Handle)
        → finding.0 ≡ ok cursor
        → ((execute (find db coll) s).0 ≡ read_out (reading cursor).0)
          × ((execute (find db coll) s).1.world
              ≡ (d.cursor_close (with_timeout ctx 10) cursor (reading cursor).1).1)
    unfolding execute find_documents
    listed cursor h = (ground arith, ground arith)
