-- ===== src/Examples/Reader.antt =====
-- A reader of the statements that change tables, for the server of the examples.
use database_router.Shared.{
  ℕ, ◌+◌, ◌≡◌, ◌⊎◌, refl, sym, ap, ◌∙◌, Option, none, some, List, [], ◌∷◌, ◌++◌, map, append-nil,
  inl, inr, if◌then◌else◌,
}
use database_router.Text.{Text, codes, text_eq}
use database_router.Value.{Value, str, Row, empty_row, entry, keys, values}
use database_router.Sql.Lexer.{Token, word, ident, mark, param, unterminated, tokens}
use database_router.Sql.Reading.{commas}
use database_router.Sql.Statements.{returning_tail, clause_tokens, numbered}
use database_router.Service.Postgres.Tables.{Change, insert, update, delete, Says}

-- The quoted names among tokens.
pub names : List Token → List Text
names [] = []
names (ident k ∷ ts) = k ∷ names ts
names (_ ∷ ts) = names ts

pub row_of : List Text → List Value → Row
row_of [] vs = empty_row
row_of (k ∷ ks) [] = empty_row
row_of (k ∷ ks) (v ∷ vs) = entry k v (row_of ks vs)

abbrev pub text_of : Value → Text
text_of (str s) = s
text_of _ = []

pub last_text : List Value → Text
last_text [] = []
last_text (v ∷ []) = text_of v
last_text (v ∷ w ∷ vs) = last_text (w ∷ vs)

-- The change that a statement asks for with its arguments.
abbrev pub change_of : List Token → List Value → Option Change
change_of (word w ∷ ident t ∷ ts) args = some (update t (last_text args) (row_of (names ts) args))
change_of (word w ∷ word v ∷ ident t ∷ ts) args =
    if text_eq w (codes "INSERT")
    then some (insert t (row_of (names ts) args))
    else some (delete t (last_text args))
change_of _ args = none

names-append : (a b : List Token) → names (a ++ b) ≡ names a ++ names b
unfolding names
names-append [] b = refl
names-append (ident k ∷ a) b = ap (λ x. k ∷ x) (names-append a b)
names-append (word w ∷ a) b = names-append a b
names-append (param i ∷ a) b = names-append a b
names-append (mark c ∷ a) b = names-append a b
names-append (unterminated ∷ a) b = names-append a b

names-columns : (ks : List Text) → names (commas (map (λ k. ident k ∷ []) ks)) ≡ ks
unfolding names commas
names-columns [] = refl
names-columns (k ∷ []) = refl
names-columns (k ∷ j ∷ ks) = ap (λ x. k ∷ x) (names-columns (j ∷ ks))

names-params :
    (i : ℕ) (ks : List Text)
    → names (commas (map (λ (p : Text × ℕ). param p.1 ∷ []) (numbered i ks))) ≡ []
unfolding names commas
names-params i [] = refl
names-params i (k ∷ []) = refl
names-params i (k ∷ j ∷ ks) = names-params (i + 1) (j ∷ ks)

names-clauses : (i : ℕ) (ks : List Text) → names (commas (map clause_tokens (numbered i ks))) ≡ ks
unfolding names commas
names-clauses i [] = refl
names-clauses i (k ∷ []) = refl
names-clauses i (k ∷ j ∷ ks) = ap (λ x. k ∷ x) (names-clauses (i + 1) (j ∷ ks))

row_of-values : (row : Row) (vs : List Value) → row_of (keys row) (values row ++ vs) ≡ row
unfolding row_of keys values
row_of-values empty_row vs = refl
row_of-values (entry k v row) vs = ap (λ x. entry k v x) (row_of-values row vs)

last_text-append : (vs : List Value) (s : Text) → last_text (vs ++ str s ∷ []) ≡ s
unfolding last_text
last_text-append [] s = refl
last_text-append (v ∷ []) s = refl
last_text-append (v ∷ w ∷ vs) s = last_text-append (w ∷ vs) s

names-tail :
    (tail : List Token)
    → (tail ≡ mark b')' ∷ []) ⊎ (tail ≡ mark b')' ∷ returning_tail)
    → names tail ≡ []
unfolding names
names-tail tail (inl e) = rw e refl
names-tail tail (inr e) = rw e refl

module _ (row : Row) where
  names-insert :
      (tail : List Token)
      → names tail ≡ []
      → names (
          commas (map (λ k. ident k ∷ []) (keys row))
          ++ (mark b')'
              ∷ word (codes "VALUES")
              ∷ mark b'('
              ∷ (commas (map (λ (p : Text × ℕ). param p.1 ∷ []) (numbered 1 (keys row))) ++ tail)))
        ≡ keys row
  unfolding names
  names-insert tail h =
      rw
        (
          names-append (commas (map (λ k. ident k ∷ []) (keys row))) _,
          names-append (commas (map (λ (p : Text × ℕ). param p.1 ∷ []) (numbered 1 (keys row))))
              tail,
          names-columns (keys row),
          names-params 1 (keys row),
          h,
        )
        (append-nil (keys row))

  names-update :
      (rest : List Token)
      → names rest ≡ []
      → names (commas (map clause_tokens (numbered 1 (keys row))) ++ rest) ≡ keys row
  names-update rest h =
      rw
        (
          names-append (commas (map clause_tokens (numbered 1 (keys row)))) rest,
          names-clauses 1 (keys row),
          h,
        )
        (append-nil (keys row))

pub change_of-Says :
    (c : Change) (text : Text) (args : List Value)
    → Says c text args
    → change_of (tokens text) args ≡ some c
unfolding names text_eq last_text
change_of-Says (insert t row) text args (tail, reads, end, given) =
    rw (reads, given, names-insert row tail (names-tail tail end))
      (ap (λ r. some (insert t r))
        (ap (row_of (keys row)) (sym (append-nil (values row))) ∙ row_of-values row []))
change_of-Says (update t id row) text args (reads, given) =
    rw
      (
        reads,
        given,
        names-update row _ refl,
        last_text-append (values row) id,
        row_of-values row (str id ∷ []),
      )
      refl
change_of-Says (delete t id) text args (reads, given) = rw (reads, given) refl
