-- ===== src/Examples/Collections.antt =====
-- A MongoDB that keeps documents with a name, for what the MongoDB service keeps.
use mathlib.Mathlib.Data.Multiset.ZeroCons.{cons}
use database_router.Shared.{
  ℕ, ◌≡◌, refl, sym, ap, ◌∙◌, ◌&&◌, none, some, Option, List, [], ◌∷◌, map, length, arith, inl, inr,
  Bool-cases, if◌then◌else◌,
}
use database_router.Shared.Action.{State, Result, ok, err}
use database_router.Shared.Int.{ℤ, pos}
use database_router.Text.{Text, codes, text_eq}
use database_router.Text.Laws.{text_eq_refl}
use database_router.Value.{Value, str, other, Row, empty_row, entry}
use database_router.Fault.{GoError, message}
use database_router.Driver.{Driver, Counts}
use database_router.Driver.Calls.{Call}
use database_router.Service.Mongo.Store.{
  Command, insert, find, update, delete, Effect, Collections, In, Same, Inserted, Maybe,
  UpdateCounted, DeleteCounted, AllowedHistory, IsDocumentStore,
}
use database_router.Service.Mongo.Commands.{execute_all}
use database_router.Service.Mongo.Refinement.{execute_all-AllowedHistory}
use database_router.Examples.World.{runtime, manager}
use database_router.Examples.Unreachable.{unreachable}
use database_router.Examples.Named.{
  row_of, name_of, semantics, has, rename, drop, documents, found_at, missing, distinct,
  has_id-row_of, changed-row_of, name_of-lookup,
}

-- The stored documents, and those that the open cursor gives.
record Cluster : Type 0 where
  stored : Text → Text → List (ℕ × Text)
  cursor : List (ℕ × Text)

abbrev with_documents : Text → Text → List (ℕ × Text) → Cluster → Cluster
with_documents db coll l w = record w {
  stored = λ a b. if text_eq db a && text_eq coll b then l else w.stored a b;
}

abbrev refused : GoError
refused = message (codes "document failed validation")

abbrev answer_insert : Option Text → Text → Text → Cluster → Result GoError Value × Cluster
answer_insert none db coll w = (err refused, w)
answer_insert (some t) db coll w =
    let l = w.stored db coll in
    (ok (other (length l)), with_documents db coll ((length l, t) ∷ l) w)

abbrev answer_update : Option Text → ℕ → Text → Text → Cluster → Result GoError (ℤ × ℤ) × Cluster
answer_update none i db coll w = (err refused, w)
answer_update (some t) i db coll w =
    if has i (w.stored db coll)
    then (ok (pos 1, pos 1), with_documents db coll (rename i t (w.stored db coll)) w)
    else (ok (pos 0, pos 0), w)

abbrev answer_delete : ℕ → Text → Text → Cluster → Result GoError ℤ × Cluster
answer_delete i db coll w =
    if has i (w.stored db coll)
    then (ok (pos 1), with_documents db coll (drop i (w.stored db coll)) w)
    else (ok (pos 0), w)

abbrev id_of_text : Text → Result GoError ℕ
id_of_text [] = err (message (codes "the provided hex string is not a valid ObjectID"))
id_of_text (c ∷ s) = ok (length s)

abbrev cluster : Driver Cluster
cluster = record unreachable {
  insert_one = λ ctx h db coll doc w. answer_insert (name_of doc) db coll w;
  find = λ ctx h db coll w. (ok 9, record w { cursor = w.stored db coll });
  cursor_all = λ ctx h w. (ok (map row_of w.cursor), w);
  cursor_close = λ ctx h w. (ok tt, w);
  update_one = λ ctx h db coll i fields w. answer_update (name_of fields) i db coll w;
  delete_one = λ ctx h db coll i w. answer_delete i db coll w;
  object_id_from_hex = id_of_text;
}

abbrev contents : Cluster → Collections
contents w a b = documents (w.stored a b)

local_effect :
    (P : Effect) (db coll : Text) (l : List (ℕ × Text)) (w : Cluster)
    → P (contents w db coll) (documents l)
    → In db coll P (contents w) (contents (with_documents db coll l w))
local_effect P db coll l w p =
    (rw (text_eq_refl db, text_eq_refl coll) p, λ a b apart. rw apart refl)

insertion :
    (doc : Row) (o : Option Text) (db coll : Text) (w : Cluster) (id : Value)
    → name_of doc ≡ o
    → (answer_insert o db coll w).0 ≡ ok id
    → In db coll (Inserted doc) (contents w) (contents (answer_insert o db coll w).1)
insertion doc none db coll w id named e = ground arith
insertion doc (some t) db coll w id named e =
    let l = w.stored db coll in
    local_effect (Inserted doc) db coll ((length l, t) ∷ l) w
      (row_of (length l, t), λ k v. name_of-lookup doc t (length l) k v named, refl)

insertion_failed :
    (doc : Row) (o : Option Text) (db coll : Text) (w : Cluster) (x : GoError)
    → (answer_insert o db coll w).0 ≡ err x
    → In db coll (Maybe (Inserted doc)) (contents w) (contents (answer_insert o db coll w).1)
insertion_failed doc none db coll w x e = (inl refl, λ a b apart. refl)
insertion_failed doc (some t) db coll w x e = ground arith

change_counted :
    (fields : Row) (o : Option Text) (i : ℕ) (db coll : Text) (w : Cluster) (n : Counts)
    → name_of fields ≡ o
    → (answer_update o i db coll w).0 ≡ ok n
    → In db coll
        (UpdateCounted semantics i fields n)
        (contents w)
        (contents (answer_update o i db coll w).1)
change_counted fields none i db coll w n named e = ground arith
change_counted fields (some t) i db coll w n named e =
    elim (Bool-cases (has i (w.stored db coll))) [
      | inl there ↦
          let k : n ≡ (pos 1, pos 1) = ground arith in
          let (p, rest, same, all, changed, without) = found_at i t (w.stored db coll) there in
          rw (there, k)
            (local_effect (UpdateCounted semantics i fields (pos 1, pos 1)) db coll
              (rename i t (w.stored db coll)) w
              (inr (
                (
                  row_of p,
                  rest,
                  has_id-row_of i p ∙ same,
                  all,
                  changed ∙ ap (λ r. cons r rest) (sym (changed-row_of fields t p named)),
                ),
                refl,
                inr refl,
              )))
      | inr absent ↦
          let k : n ≡ (pos 0, pos 0) = ground arith in
          rw (absent, k)
            (
              inl ((λ r. missing i (w.stored db coll) r absent, refl), refl, refl),
              λ a b apart. refl,
            )
    ]

change_failed :
    (o : Option Text) (i : ℕ) (db coll : Text) (w : Cluster) (x : GoError)
    → (answer_update o i db coll w).0 ≡ err x
    → Same (contents w) (contents (answer_update o i db coll w).1)
change_failed none i db coll w x e = λ a b. refl
change_failed (some t) i db coll w x e = ground arith

never_failed :
    (i : ℕ) (db coll : Text) (w : Cluster) (x : GoError) → ¬ ((answer_delete i db coll w).0 ≡ err x)
never_failed i db coll w x e = ground arith

removal_counted :
    (i : ℕ) (db coll : Text) (w : Cluster) (n : ℤ)
    → (answer_delete i db coll w).0 ≡ ok n
    → In db coll (DeleteCounted semantics i n) (contents w) (contents (answer_delete i db coll w).1)
removal_counted i db coll w n e = elim (Bool-cases (has i (w.stored db coll))) [
  | inl there ↦
      let k : n ≡ pos 1 = ground arith in
      let (p, rest, same, all, changed, without) = found_at i [] (w.stored db coll) there in
      rw (there, k)
        (local_effect (DeleteCounted semantics i (pos 1)) db coll (drop i (w.stored db coll)) w (
          inr
            ((row_of p, has_id-row_of i p ∙ same, all ∙ ap (cons (row_of p)) (sym without)), refl)))
  | inr absent ↦
      let k : n ≡ pos 0 = ground arith in
      rw (absent, k)
        (inl ((λ r. missing i (w.stored db coll) r absent, refl), refl), λ a b apart. refl)
]

cluster-IsDocumentStore : IsDocumentStore cluster semantics
cluster-IsDocumentStore = record {
  collections = contents;
  insert_done = λ ctx h db coll doc w id e. insertion doc (name_of doc) db coll w id refl e;
  insert_failed = λ ctx h db coll doc w x e. insertion_failed doc (name_of doc) db coll w x e;
  find_keeps = λ ctx h db coll w a b. refl;
  all_keeps = λ ctx h w a b. refl;
  close_keeps = λ ctx h w a b. refl;
  all_reads = λ ctx h db coll w cursor docs found read.
      let k : docs ≡ map row_of (w.stored db coll) = ground arith in
      rw k (distinct (w.stored db coll), refl);
  update_done =
      λ ctx h db coll i fields w n e. change_counted fields (name_of fields) i db coll w n refl e;
  update_failed =
      λ ctx h db coll i fields w x e. inl (change_failed (name_of fields) i db coll w x e);
  delete_done = λ ctx h db coll i w n e. removal_counted i db coll w n e;
  delete_failed = λ ctx h db coll i w x e. absurd (never_failed i db coll w x e);
}

abbrev shop : Text
shop = codes "shop"

abbrev carts : Text
carts = codes "carts"

abbrev named : Text → Row
named t = entry (codes "name") (str t) empty_row

abbrev commands : List Command
commands =
    insert shop carts (named (codes "ann"))
    ∷ update shop carts (codes "0") (named (codes "bob"))
    ∷ find shop carts
    ∷ delete shop carts (codes "0")
    ∷ delete shop carts []
    ∷ []

abbrev empty : State Cluster Call
empty = record { world = record { stored = λ db coll. []; cursor = [] }; calls = [] }

execute_all-AllowedHistory_example :
    AllowedHistory semantics id_of_text
      (cluster-IsDocumentStore.collections empty.world)
      commands
      (execute_all cluster runtime manager none commands empty).0
      (cluster-IsDocumentStore.collections
        (execute_all cluster runtime manager none commands empty).1.world)
execute_all-AllowedHistory_example =
    execute_all-AllowedHistory cluster runtime manager none semantics cluster-IsDocumentStore
      commands empty
