-- ===== src/Service/Postgres/Changes/Refinement.antt =====
-- The PostgreSQL service keeps what a database of tables promises.
use database_router.Shared.{
  ◌≡◌, refl, ap, some, List, [], ◌∷◌, length, ◌==◌, arith, Bool-cases, inl, inr,
}
use database_router.Shared.Action.{State, Result, ok, err, Result-cases}
use database_router.Text.{Text}
use database_router.Value.{Value, Row, empty_row, keys, Runtime}
use database_router.Fault.{GoError}
use database_router.Sql.{is_valid_identifier}
use database_router.Driver.{Driver, Affected}
use database_router.Driver.Calls.{Call, Ctx, Handle}
use database_router.Manager.{Manager}
use database_router.Service.Postgres.{affected_or_zero}
use database_router.Service.Postgres.Inserts.{second_result}
use database_router.Service.Postgres.Tables.{
  Tables, Change, insert, update, delete, Semantics, most, Allowed, AllowedChanges, Says,
  IsSqlServer,
}
use database_router.Service.Postgres.Tables.Times.{
  AtMostOnce, Same-refl, once, twice, at_most_twice, Times-AtMostOnce,
}
use database_router.Service.Postgres.Changes.{
  insert_reply, count_reply, count_result, insert_returning_sql-Says, insert_sql-Says,
  update_sql-Says, delete_sql-Says, execute, execute_all, inserting, refused, deleted, updated,
  without_data, returned, repeated,
}

module _ {W : Type 0} (d : Driver W) (rt : Runtime) (m : Manager) (ctx : Ctx) (db : Handle)
    (enabled : m.postgres_db ≡ some db) where
  module _ (sem : Semantics) (server : IsSqlServer d db sem) where
    exec-Allowed :
        (c : Change) (text : Text) (args : List Value) (w : W) (r : Result GoError Affected)
        → most c ≡ 1
        → Says c text args
        → (d.sql_exec ctx db text args w).0 ≡ r
        → Allowed sem
            (server.tables w)
            c
            (count_reply (count_result r))
            (server.tables (d.sql_exec ctx db text args w).1)
    exec-Allowed (insert t row) text args w r one says h = absurd (omega (arith, one))
    exec-Allowed (update t id row) text args w (ok a) one says h =
        let (done, count) = server.exec_done (update t id row) ctx text args w a says h in
        (ap affected_or_zero count, done)
    exec-Allowed (delete t id) text args w (ok a) one says h =
        let (done, count) = server.exec_done (delete t id) ctx text args w a says h in
        (ap affected_or_zero count, done)
    exec-Allowed (update t id row) text args w (err e) one says h =
        Times-AtMostOnce sem (update t id row) _ _
          (server.exec_failed (update t id row) ctx text args w e says h)
    exec-Allowed (delete t id) text args w (err e) one says h =
        Times-AtMostOnce sem (delete t id) _ _
          (server.exec_failed (delete t id) ctx text args w e says h)

    second-Allowed :
        (t : Text) (row : Row) (text : Text) (args : List Value) (f : Tables) (w : W)
        (r : Result GoError Affected)
        → Says (insert t row) text args
        → AtMostOnce sem (insert t row) f (server.tables w)
        → (d.sql_exec ctx db text args w).0 ≡ r
        → Allowed sem f
            (insert t row)
            (insert_reply (second_result r))
            (server.tables (d.sql_exec ctx db text args w).1)
    second-Allowed t row text args f w (ok a) says before h =
        twice sem (insert t row) f _ _ before
          (server.exec_done (insert t row) ctx text args w a says h).0
    second-Allowed t row text args f w (err e) says before h =
        at_most_twice sem (insert t row) f _ _ before
          (server.exec_failed (insert t row) ctx text args w e says h)

    execute-Allowed :
        (c : Change) (s : State W Call)
        → Allowed sem
            (server.tables s.world)
            c
            (execute d rt m ctx c s).0
            (server.tables (execute d rt m ctx c s).1.world)
    execute-Allowed (delete t id) s = elim (Bool-cases (is_valid_identifier t)) [
      | inr bad ↦
          rw ((refused d rt m ctx db enabled t empty_row s id bad).2)
            (0, omega arith, Same-refl (server.tables s.world))
      | inl valid ↦
          let (reply, world) = deleted d rt m ctx db enabled t empty_row s valid id in
          rw (reply, world)
            (exec-Allowed (delete t id) _ _ s.world _ refl (delete_sql-Says t empty_row id) refl)
    ]
    execute-Allowed (update t id row) s = elim (Bool-cases (is_valid_identifier t)) [
      | inr bad ↦
          rw ((refused d rt m ctx db enabled t row s id bad).1)
            (0, omega arith, Same-refl (server.tables s.world))
      | inl valid ↦ elim (Bool-cases (length (keys row) == 0)) [
        | inl empty ↦
            rw (without_data d rt m ctx db enabled t row s valid id empty)
              (0, omega arith, Same-refl (server.tables s.world))
        | inr nonempty ↦
            let (reply, world) = updated d rt m ctx db enabled t row s valid id nonempty in
            rw (reply, world)
              (exec-Allowed (update t id row) _ _ s.world _ refl (update_sql-Says t row id) refl)
      ]
    ]
    execute-Allowed (insert t row) s = elim (Bool-cases (is_valid_identifier t)) [
      | inr bad ↦
          rw ((refused d rt m ctx db enabled t row s [] bad).0)
            (0, omega arith, Same-refl (server.tables s.world))
      | inl valid ↦ elim (Result-cases (inserting d rt m ctx db enabled t row s).0) [
        | inl (v, h) ↦
            let done =
              server.query_row_done (insert t row) ctx _ _ s.world v
                (insert_returning_sql-Says t row) h in
            let (reply, world) = returned d rt m ctx db enabled t row s valid v h in
            rw (reply, world) (1, omega arith, omega arith, once sem (insert t row) _ _ done)
        | inr (e, h) ↦
            let first =
              server.query_row_failed (insert t row) ctx _ _ s.world e
                (insert_returning_sql-Says t row) h in
            let (reply, world) = repeated d rt m ctx db enabled t row s valid e h in
            rw (reply, world) (second-Allowed t row _ _ _ _ _ (insert_sql-Says t row) first refl)
      ]
    ]

    -- Each run of InsertData, UpdateData and DeleteData on the default database, whatever fails on
    -- the way, is one of an abstract database, over a server that reads SQL as documented: from the
    -- tables of any world, the replies and the tables at the end are allowed. A row that InsertData
    -- reports as stored is stored once or twice, and one that it reports as failed at most twice.
    -- UpdateData and DeleteData change exactly the rows with the id, in their own table only, and
    -- report their number; when they fail, they have done so once or not at all.
    pub execute_all-AllowedChanges :
        (cs : List Change) (s : State W Call)
        → AllowedChanges sem
            (server.tables s.world)
            cs
            (execute_all d rt m ctx cs s).0
            (server.tables (execute_all d rt m ctx cs s).1.world)
    unfolding execute_all
    execute_all-AllowedChanges [] s = Same-refl (server.tables s.world)
    execute_all-AllowedChanges (c ∷ cs) s = (
      server.tables (execute d rt m ctx c s).1.world,
      execute-Allowed c s,
      execute_all-AllowedChanges cs (execute d rt m ctx c s).1,
    )
