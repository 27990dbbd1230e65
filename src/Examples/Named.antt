-- ===== src/Examples/Named.antt =====
-- Documents with an ObjectID and a name, for the collections of the examples.
use mathlib.Core.Bool.{Bool-set}
use mathlib.Core.Logic.Or
use mathlib.Core.List.{Mem, mem-cons, not-mem-nil}
use mathlib.Mathlib.Data.Multiset.Defs.{Multiset, of_list}
use mathlib.Mathlib.Data.Multiset.ZeroCons.{cons, cons-swap}
use database_router.Shared.{
  ℕ, ◌≡◌, refl, sym, ap, ◌∙◌, Bool, true, false, none, some, Option, List, [], ◌∷◌, map, All, ◌==◌,
  arith, inl, inr, Bool-cases, if◌then◌else◌,
}
use database_router.Text.{Text, codes, text_eq}
use database_router.Text.Laws.{text_eq_iff}
use database_router.Value.{Value, str, other, Row, empty_row, entry, lookup}
use database_router.Service.Mongo.Store.{Semantics}
use database_router.Value.Rows.{HasDistinctKeys}

abbrev pub row_of : ℕ × Text → Row
row_of (i, t) = entry (codes "_id") (other i) (entry (codes "name") (str t) empty_row)

-- The documents that can be stored.
pub name_of : Row → Option Text
name_of (entry k (str t) empty_row) = if text_eq k (codes "name") then some t else none
name_of _ = none

abbrev pub is_object_id : ℕ → Option Value → Bool
is_object_id i (some (other j)) = j == i
is_object_id i _ = false

abbrev pub renamed : Option Text → Row → Row
renamed (some t) (entry k v (entry j w rest)) = entry k v (entry j (str t) rest)
renamed _ r = r

abbrev pub semantics : Semantics
unfolding lookup name_of
semantics = record {
  has_id = λ i r. is_object_id i (lookup (codes "_id") r);
  changed = λ fields r. renamed (name_of fields) r;
}

pub has : ℕ → List (ℕ × Text) → Bool
has i [] = false
has i ((j, t) ∷ l) = let rest = has i l in if j == i then true else rest

pub rename : ℕ → Text → List (ℕ × Text) → List (ℕ × Text)
rename i new [] = []
rename i new ((j, t) ∷ l) =
    let rest = rename i new l in if j == i then (j, new) ∷ l else (j, t) ∷ rest

pub drop : ℕ → List (ℕ × Text) → List (ℕ × Text)
drop i [] = []
drop i ((j, t) ∷ l) = let rest = drop i l in if j == i then l else (j, t) ∷ rest

abbrev pub documents : List (ℕ × Text) → Multiset Row
documents l = of_list (map row_of l)

-- The document with an id, and the others.
pub found_at :
    (i : ℕ) (new : Text) (l : List (ℕ × Text))
    → has i l ≡ true
    → (p : ℕ × Text) × (rest : Multiset Row) × ((p.0 == i) ≡ true)
      × (documents l ≡ cons (row_of p) rest)
      × (documents (rename i new l) ≡ cons (row_of (p.0, new)) rest)
      × (documents (drop i l) ≡ rest)
unfolding has rename drop
found_at i new [] h = ground arith
found_at i new (q ∷ l) h = elim (Bool-cases (q.0 == i)) [
  | inl here ↦ rw here (q, documents l, here, refl, refl, refl)
  | inr there ↦
      let (p, rest, same, all, changed, without) = found_at i new l (ground arith) in
      rw there (
        p,
        cons (row_of q) rest,
        same,
        ap (cons (row_of q)) all ∙ cons-swap (row_of q) (row_of p) rest,
        ap (cons (row_of q)) changed ∙ cons-swap (row_of q) (row_of (p.0, new)) rest,
        ap (cons (row_of q)) without,
      )
]

pub missing :
    (i : ℕ) (l : List (ℕ × Text)) (r : Row)
    → has i l ≡ false
    → Mem r (map row_of l)
    → semantics.has_id i r ≡ false
unfolding has semantics lookup text_eq
missing i [] r h m = absurd (not-mem-nil m)
missing i (q ∷ l) r h m =
    Or.elim (Bool-set _ _) (mem-cons.0 m) (λ e. rw e (ground arith)) (missing i l r (ground arith))

pub distinct : (l : List (ℕ × Text)) → All HasDistinctKeys (map row_of l)
unfolding lookup text_eq
distinct [] = tt
distinct (q ∷ l) = ((refl, (refl, tt)), distinct l)

pub has_id-row_of : (i : ℕ) (p : ℕ × Text) → semantics.has_id i (row_of p) ≡ (p.0 == i)
unfolding semantics lookup text_eq
has_id-row_of i p = refl

pub changed-row_of :
    (fields : Row) (t : Text) (p : ℕ × Text)
    → name_of fields ≡ some t
    → semantics.changed fields (row_of p) ≡ row_of (p.0, t)
unfolding semantics
changed-row_of fields t p named = rw named refl

name-lookup :
    (t : Text) (i : ℕ) (k : Text) → k ≡ codes "name" → lookup k (row_of (i, t)) ≡ some (str t)
unfolding lookup text_eq
name-lookup t i k e = rw e refl

pub name_of-lookup :
    (doc : Row) (t : Text) (i : ℕ) (k : Text) (v : Value)
    → name_of doc ≡ some t
    → lookup k doc ≡ some v
    → lookup k (row_of (i, t)) ≡ some v
unfolding name_of lookup
name_of-lookup (entry j (str u) empty_row) t i k v h g =
    let named : text_eq j (codes "name") ≡ true = ground arith in
    let asked : text_eq j k ≡ true = ground arith in
    let same : u ≡ t = ground arith in
    let it : v ≡ str u = ground arith in
    name-lookup t i k (sym ((text_eq_iff j k).0 asked) ∙ (text_eq_iff j (codes "name")).0 named)
    ∙ ap some (ap str (sym same) ∙ sym it)
name_of-lookup _ t i k v h g = ground arith
