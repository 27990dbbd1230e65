-- ===== src/Service/Mongo/Store.antt =====
-- What the MongoDB service promises: collections of documents without an order, over a MongoDB that
-- keeps its documented behaviour.
use mathlib.Mathlib.Data.Multiset.Defs.{Multiset, of_list}
use mathlib.Mathlib.Data.Multiset.Defs as Multiset
use mathlib.Mathlib.Data.Multiset.ZeroCons.{cons}
use database_router.Shared.{ℕ, ◌≡◌, ◌⊎◌, Bool, true, false, ◌&&◌, some, List, [], ◌∷◌, All}
use database_router.Shared.Action.{Result, ok, err}
use database_router.Shared.Int.{ℤ, pos}
use database_router.Text.{Text, text_eq}
use database_router.Value.{Value, Row, lookup}
use database_router.Value.Rows.{HasDistinctKeys}
use database_router.Fault.{GoError}
use database_router.Driver.{Driver, Counts}
use database_router.Driver.Calls.{Ctx, Handle}

abbrev pub Documents : Type 0
Documents = Multiset Row

-- The documents of each collection of each database.
abbrev pub Collections : Type 0
Collections = Text → Text → Documents

pub data Command : Type 0 where
  insert : Text → Text → Row → Command
  find : Text → Text → Command
  update : Text → Text → Text → Row → Command
  delete : Text → Text → Text → Command

pub data Reply : Type 0 where
  failed inserted : Reply
  found : List Row → Reply
  counted : Counts → Reply
  deleted : ℤ → Reply

-- Which document has an ObjectID as its `_id`, and what `$set` makes of a document.
pub record Semantics : Type 0 where
  pub has_id : ℕ → Row → Bool
  pub changed : Row → Row → Row

abbrev pub Effect : Type 1
Effect = Documents → Documents → Type 0

-- The effect on one collection, where no other one is touched.
abbrev pub In : Text → Text → Effect → Collections → Collections → Type 0
In db coll P f g =
    P (f db coll) (g db coll)
    × ((a b : Text) → (text_eq db a && text_eq coll b) ≡ false → g a b ≡ f a b)

abbrev pub Same : Collections → Collections → Type 0
Same f g = (a b : Text) → g a b ≡ f a b

abbrev pub Unchanged : Effect
Unchanged s s' = s' ≡ s

-- A document is there in addition, with each entry of the given one: an `_id` may have been added.
abbrev pub Inserted : Row → Effect
Inserted doc s s' =
    (stored : Row) × ((k : Text) (v : Value) → lookup k doc ≡ some v → lookup k stored ≡ some v)
    × (s' ≡ cons stored s)

module _ (sem : Semantics) (id : ℕ) where
  abbrev pub Missing : Effect
  Missing s s' = ((r : Row) → Multiset.Mem s r → sem.has_id id r ≡ false) × (s' ≡ s)

  -- One document with the id has been changed.
  abbrev pub Updated : Row → Effect
  Updated fields s s' =
      (r : Row) × (rest : Documents) × (sem.has_id id r ≡ true)
      × (s ≡ cons r rest)
      × (s' ≡ cons (sem.changed fields r) rest)

  abbrev pub Deleted : Effect
  Deleted s s' = (r : Row) × (sem.has_id id r ≡ true) × (s ≡ cons r s')

  -- The effect that UpdateOne reports by its matched and modified documents.
  abbrev pub UpdateCounted : Row → Counts → Effect
  UpdateCounted fields (matched, modified) s s' =
      (Missing s s' × (matched ≡ pos 0) × (modified ≡ pos 0))
      ⊎ (Updated fields s s' × (matched ≡ pos 1) × ((modified ≡ pos 0) ⊎ (modified ≡ pos 1)))

  abbrev pub DeleteCounted : ℤ → Effect
  DeleteCounted n s s' = (Missing s s' × (n ≡ pos 0)) ⊎ (Deleted s s' × (n ≡ pos 1))

-- A failed command may have been carried out, if it names a document at all.
abbrev pub Maybe : Effect → Effect
Maybe P s s' = Unchanged s s' ⊎ P s s'

-- From the collections `f`, the service may answer `r` and hold `g` then. `read` is how ids are read.
abbrev pub Allowed :
    Semantics → (Text → Result GoError ℕ) → Collections → Command → Reply → Collections → Type 0
Allowed sem read f (insert db coll doc) inserted g = In db coll (Inserted doc) f g
Allowed sem read f (insert db coll doc) failed g = In db coll (Maybe (Inserted doc)) f g
Allowed sem read f (find db coll) (found docs) g = (of_list docs ≡ f db coll) × Same f g
Allowed sem read f (find db coll) failed g = Same f g
Allowed sem read f (update db coll id fields) (counted n) g =
    (i : ℕ) × (read id ≡ ok i) × In db coll (UpdateCounted sem i fields n) f g
Allowed sem read f (update db coll id fields) failed g =
    Same f g ⊎ ((i : ℕ) × (read id ≡ ok i) × In db coll (Updated sem i fields) f g)
Allowed sem read f (delete db coll id) (deleted n) g =
    (i : ℕ) × (read id ≡ ok i) × In db coll (DeleteCounted sem i n) f g
Allowed sem read f (delete db coll id) failed g =
    Same f g ⊎ ((i : ℕ) × (read id ≡ ok i) × In db coll (Deleted sem i) f g)
Allowed sem read f _ _ g = ⊥

abbrev pub AllowedHistory :
    Semantics
    → (Text → Result GoError ℕ)
    → Collections
    → List Command
    → List Reply
    → Collections
    → Type 0
AllowedHistory sem read f [] [] g = Same f g
AllowedHistory sem read f (c ∷ cs) (r ∷ rs) g =
    (h : Collections) × Allowed sem read f c r h × AllowedHistory sem read h cs rs g
AllowedHistory sem read f _ _ g = ⊥

-- The documented behaviour of a MongoDB that no one else writes to: what its collections hold, and how
-- the commands of the service change them. A command that fails may have been carried out. A cursor
-- gives the documents that were there when it was opened.
pub record IsDocumentStore {W : Type 0} (d : Driver W) (sem : Semantics) : Type 0 where
  pub collections : W → Collections
  pub insert_done :
      (ctx : Ctx) (h : Handle) (db coll : Text) (doc : Row) (w : W) (id : Value)
      → (d.insert_one ctx h db coll doc w).0 ≡ ok id
      → In db coll (Inserted doc) (collections w) (collections (d.insert_one ctx h db coll doc w).1)
  pub insert_failed :
      (ctx : Ctx) (h : Handle) (db coll : Text) (doc : Row) (w : W) (e : GoError)
      → (d.insert_one ctx h db coll doc w).0 ≡ err e
      → In db coll
          (Maybe (Inserted doc))
          (collections w)
          (collections (d.insert_one ctx h db coll doc w).1)
  pub find_keeps :
      (ctx : Ctx) (h : Handle) (db coll : Text) (w : W)
      → Same (collections w) (collections (d.find ctx h db coll w).1)
  pub all_keeps :
      (ctx : Ctx) (cursor : Handle) (w : W)
      → Same (collections w) (collections (d.cursor_all ctx cursor w).1)
  pub close_keeps :
      (ctx : Ctx) (cursor : Handle) (w : W)
      → Same (collections w) (collections (d.cursor_close ctx cursor w).1)
  pub all_reads :
      (ctx : Ctx) (h : Handle) (db coll : Text) (w : W) (cursor : Handle) (docs : List Row)
      → (d.find ctx h db coll w).0 ≡ ok cursor
      → (d.cursor_all ctx cursor (d.find ctx h db coll w).1).0 ≡ ok docs
      → All HasDistinctKeys docs × (of_list docs ≡ collections w db coll)
  pub update_done :
      (ctx : Ctx) (h : Handle) (db coll : Text) (id : ℕ) (fields : Row) (w : W) (n : Counts)
      → (d.update_one ctx h db coll id fields w).0 ≡ ok n
      → In db coll
          (UpdateCounted sem id fields n)
          (collections w)
          (collections (d.update_one ctx h db coll id fields w).1)
  pub update_failed :
      (ctx : Ctx) (h : Handle) (db coll : Text) (id : ℕ) (fields : Row) (w : W) (e : GoError)
      → (d.update_one ctx h db coll id fields w).0 ≡ err e
      → Same (collections w) (collections (d.update_one ctx h db coll id fields w).1)
        ⊎ In db coll
            (Updated sem id fields)
            (collections w)
            (collections (d.update_one ctx h db coll id fields w).1)
  pub delete_done :
      (ctx : Ctx) (h : Handle) (db coll : Text) (id : ℕ) (w : W) (n : ℤ)
      → (d.delete_one ctx h db coll id w).0 ≡ ok n
      → In db coll
          (DeleteCounted sem id n)
          (collections w)
          (collections (d.delete_one ctx h db coll id w).1)
  pub delete_failed :
      (ctx : Ctx) (h : Handle) (db coll : Text) (id : ℕ) (w : W) (e : GoError)
      → (d.delete_one ctx h db coll id w).0 ≡ err e
      → Same (collections w) (collections (d.delete_one ctx h db coll id w).1)
        ⊎ In db coll
            (Deleted sem id)
            (collections w)
            (collections (d.delete_one ctx h db coll id w).1)
