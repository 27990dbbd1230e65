-- ===== src/Service/Mongo/Refinement.antt =====
-- The MongoDB service keeps what collections of documents promise.
use mathlib.Mathlib.Data.Multiset.Defs.{of_list}
use database_router.Shared.{ℕ, ◌≡◌, refl, ap, ◌∙◌, some, List, [], ◌∷◌, Option-cases, inl, inr}
use database_router.Shared.Action.{State, Result, ok, err, Result-cases}
use database_router.Shared.Int.{ℤ}
use database_router.Text.{Text}
use database_router.Value.{Value, Row, empty_row, Runtime}
use database_router.Fault.{GoError}
use database_router.Driver.{Driver, Counts}
use database_router.Driver.Calls.{Call, Ctx, Handle}
use database_router.Manager.{Manager, with_timeout}
use database_router.Service.Mongo.Documents.{copy_rows-append}
use database_router.Service.Mongo.Store.{
  Command, insert, find, update, delete, Reply, failed, Semantics, Same, Allowed, AllowedHistory,
  IsDocumentStore,
}
use database_router.Service.Mongo.Commands.{
  insert_reply, printed, update_reply, delete_reply, execute, execute_all, off, updating, deleting,
  inserting, finding, reading, read_out, stored, refused, updated, removed, not_found, listed,
}

module _ {W : Type 0} (d : Driver W) (rt : Runtime) (m : Manager) (ctx : Ctx) where
  module _ (sem : Semantics) (store : IsDocumentStore d sem) where
    abbrev Keeps : State W Call → Command → Reply → W → Type 0
    Keeps s c r w =
        Allowed sem d.object_id_from_hex (store.collections s.world) c r (store.collections w)

    nothing-Keeps : (c : Command) (s : State W Call) → Keeps s c failed s.world
    nothing-Keeps (insert db coll doc) s = (inl refl, λ a b h. refl)
    nothing-Keeps (find db coll) s = λ a b. refl
    nothing-Keeps (update db coll id fields) s = inl (λ a b. refl)
    nothing-Keeps (delete db coll id) s = inl (λ a b. refl)

    module _ (client : Handle) (on : m.mongo_db ≡ some client) (db coll : Text)
        (s : State W Call) where
      abbrev ctx5 : Ctx
      ctx5 = with_timeout ctx 5

      abbrev ctx10 : Ctx
      ctx10 = with_timeout ctx 10

      update-Keeps :
          (id : Text) (i : ℕ) (fields : Row) (r : Result GoError Counts)
          → d.object_id_from_hex id ≡ ok i
          → (updating d rt m ctx client on db coll s i fields).0 ≡ r
          → Keeps s
              (update db coll id fields)
              (update_reply r)
              (updating d rt m ctx client on db coll s i fields).1
      update-Keeps id i fields (ok n) read h =
          (i, read, store.update_done ctx5 client db coll i fields s.world n h)
      update-Keeps id i fields (err e) read h =
          elim (store.update_failed ctx5 client db coll i fields s.world e h) [
            | inl same ↦ inl same
            | inr done ↦ inr (i, read, done)
          ]

      delete-Keeps :
          (id : Text) (i : ℕ) (r : Result GoError ℤ)
          → d.object_id_from_hex id ≡ ok i
          → (deleting d rt m ctx client on db coll s i).0 ≡ r
          → Keeps s
              (delete db coll id)
              (delete_reply r)
              (deleting d rt m ctx client on db coll s i).1
      delete-Keeps id i (ok n) read h =
          (i, read, store.delete_done ctx5 client db coll i s.world n h)
      delete-Keeps id i (err e) read h =
          elim (store.delete_failed ctx5 client db coll i s.world e h) [
            | inl same ↦ inl same
            | inr done ↦ inr (i, read, done)
          ]

      insert-Keeps :
          (doc : Row) (r : Result GoError Value)
          → (inserting d rt m ctx client on db coll s doc).0 ≡ r
          → Keeps s
              (insert db coll doc)
              (insert_reply (printed rt r))
              (inserting d rt m ctx client on db coll s doc).1
      insert-Keeps doc (ok id) h = store.insert_done ctx5 client db coll doc s.world id h
      insert-Keeps doc (err e) h = store.insert_failed ctx5 client db coll doc s.world e h

      -- Neither the cursor nor its end changes a collection.
      find-Same :
          (cursor : Handle)
          → Same (store.collections s.world) (
              store.collections
                (d.cursor_close ctx10 cursor (reading d rt m ctx client on db coll s cursor).1).1)
      find-Same cursor a b =
          store.close_keeps ctx10 cursor (reading d rt m ctx client on db coll s cursor).1 a b
          ∙ store.all_keeps ctx10 cursor (finding d rt m ctx client on db coll s).1 a b
          ∙ store.find_keeps ctx10 client db coll s.world a b

      find-Keeps :
          (cursor : Handle) (r : Result GoError (List Row))
          → (finding d rt m ctx client on db coll s).0 ≡ ok cursor
          → (reading d rt m ctx client on db coll s cursor).0 ≡ r
          → Keeps s
              (find db coll)
              (read_out d rt m ctx client on db coll s r)
              (d.cursor_close ctx10 cursor (reading d rt m ctx client on db coll s cursor).1).1
      find-Keeps cursor (ok docs) opened h =
          let (distinct, read) =
            store.all_reads ctx10 client db coll s.world cursor docs opened h in
          (ap of_list (copy_rows-append [] docs distinct) ∙ read, find-Same cursor)
      find-Keeps cursor (err e) opened h = find-Same cursor

    command-Keeps :
        (client : Handle)
        → m.mongo_db ≡ some client
        → (c : Command) (s : State W Call)
        → Keeps s c (execute d rt m ctx c s).0 (execute d rt m ctx c s).1.world
    command-Keeps client on (insert db coll doc) s =
        let (reply, world) = stored d rt m ctx client on db coll s doc in
        rw (reply, world) (insert-Keeps client on db coll s doc _ refl)
    command-Keeps client on (find db coll) s =
        elim (Result-cases (finding d rt m ctx client on db coll s).0) [
          | inl (cursor, opened) ↦
              let (reply, world) = listed d rt m ctx client on db coll s cursor opened in
              rw (reply, world) (find-Keeps client on db coll s cursor _ opened refl)
          | inr (e, failed_at) ↦
              let (reply, world) = not_found d rt m ctx client on db coll s e failed_at in
              rw (reply, world) (store.find_keeps (with_timeout ctx 10) client db coll s.world)
        ]
    command-Keeps client on (update db coll id fields) s =
        elim (Result-cases (d.object_id_from_hex id)) [
          | inl (i, read) ↦
              let (reply, world) = updated d rt m ctx client on db coll s id i fields read in
              rw (reply, world) (update-Keeps client on db coll s id i fields _ read refl)
          | inr (e, bad) ↦
              rw ((refused d rt m ctx client on db coll s id fields e bad).0)
                (nothing-Keeps (update db coll id fields) s)
        ]
    command-Keeps client on (delete db coll id) s = elim (Result-cases (d.object_id_from_hex id)) [
      | inl (i, read) ↦
          let (reply, world) = removed d rt m ctx client on db coll s id i read in
          rw (reply, world) (delete-Keeps client on db coll s id i _ read refl)
      | inr (e, bad) ↦
          rw ((refused d rt m ctx client on db coll s id empty_row e bad).1)
            (nothing-Keeps (delete db coll id) s)
    ]

    execute-Keeps :
        (c : Command) (s : State W Call)
        → Keeps s c (execute d rt m ctx c s).0 (execute d rt m ctx c s).1.world
    execute-Keeps c s = elim (Option-cases m.mongo_db) [
      | inl none_there ↦ rw (off d rt m ctx c s none_there) (nothing-Keeps c s)
      | inr (client, on) ↦ command-Keeps client on c s
    ]

    -- Each run of InsertDocument, FindDocuments, UpdateDocument and DeleteDocument through the service,
    -- whatever fails on the way, is one of collections without an order, over a MongoDB that keeps its
    -- documented behaviour: from the collections of any world, the replies and the collections at the
    -- end are allowed. FindDocuments returns exactly the documents of the collection; an insertion adds
    -- one document; an update and a deletion touch at most one document, which has the id, and no other
    -- collection, and report whether there was one.
    pub execute_all-AllowedHistory :
        (cs : List Command) (s : State W Call)
        → AllowedHistory sem d.object_id_from_hex
            (store.collections s.world)
            cs
            (execute_all d rt m ctx cs s).0
            (store.collections (execute_all d rt m ctx cs s).1.world)
    unfolding execute_all
    execute_all-AllowedHistory [] s = λ a b. refl
    execute_all-AllowedHistory (c ∷ cs) s = (
      store.collections (execute d rt m ctx c s).1.world,
      execute-Keeps c s,
      execute_all-AllowedHistory cs (execute d rt m ctx c s).1,
    )
