-- ===== src/Sql/Statements.antt =====
-- The statements of the service, read by the lexer of `Sql/Lexer.antt`.
use database_router.Shared.{
  ℕ, ◌+◌, ◌≡◌, refl, ap, ◌∙◌, List, [], ◌∷◌, ◌++◌, append_assoc, append-nil, sym, map, length,
  arith,
}
use database_router.Text.{Text, codes, join}
use database_router.Sql.{
  quote_identifier, placeholder, create_database_sql, select_sql, delete_sql, insert_columns,
  insert_placeholders, insert_sql, insert_returning_sql, set_clauses, update_sql,
}
use database_router.Sql.Lexer.{Token, ident, word, param, mark, idle, lex, tokens}
use database_router.Sql.Reading.{Ends, Reads, Reads-quote, Reads-placeholder, commas, Reads-join}

-- `keys` numbered from `i` on.
abbrev pub numbered : ℕ → List Text → List (Text × ℕ)
numbered i [] = []
numbered i (k ∷ ks) = (k, i) ∷ numbered (i + 1) ks

insert_columns-map :
    (cols keys : List Text) → insert_columns cols keys ≡ cols ++ map quote_identifier keys
unfolding insert_columns
insert_columns-map cols [] = sym (append-nil cols)
insert_columns-map cols (k ∷ ks) =
    insert_columns-map (cols ++ quote_identifier k ∷ []) ks ∙ append_assoc cols _ _

insert_placeholders-map :
    (out : List Text) (i : ℕ) (keys : List Text)
    → insert_placeholders out i keys ≡ out ++ map (λ p. placeholder p.1) (numbered i keys)
unfolding insert_placeholders
insert_placeholders-map out i [] = sym (append-nil out)
insert_placeholders-map out i (k ∷ ks) =
    insert_placeholders-map (out ++ placeholder i ∷ []) (i + 1) ks ∙ append_assoc out _ _

-- `"k" = $i`
abbrev clause : Text × ℕ → Text
clause p = quote_identifier p.0 ++ (codes " = " ++ placeholder p.1)

set_clauses-map :
    (out : List Text) (i : ℕ) (keys : List Text)
    → set_clauses out i keys ≡ (out ++ map clause (numbered i keys), i + length keys)
unfolding set_clauses
set_clauses-map out i [] = ground (arith, append-nil out)
set_clauses-map out i (k ∷ ks) = ground (
  arith,
  set_clauses-map (out ++ clause (k, i) ∷ []) (i + 1) ks,
  append_assoc out (clause (k, i) ∷ []) (map clause (numbered (i + 1) ks)),
)

abbrev pub clause_tokens : Text × ℕ → List Token
clause_tokens p = ident p.0 ∷ mark b'=' ∷ param p.1 ∷ []

Reads-clause : (p : Text × ℕ) → Reads (clause p) (clause_tokens p)
unfolding lex
Reads-clause p rest h =
    let rest' : Text = codes " = " ++ (placeholder p.1 ++ rest) in
    rw (append_assoc, Reads-quote p.0 rest' (refl, refl), Reads-placeholder p.1 rest h) refl

abbrev pub insert_body : Text → List Text → List Token → List Token
insert_body table keys rest =
    ident table
    ∷ mark b'('
    ∷ (commas (map (λ k. ident k ∷ []) keys)
        ++ (mark b')'
            ∷ word (codes "VALUES")
            ∷ mark b'('
            ∷ (commas (map (λ (p : Text × ℕ). param p.1 ∷ []) (numbered 1 keys)) ++ rest)))

abbrev pub returning_tail : List Token
returning_tail = word (codes "RETURNING") ∷ word (codes "id") ∷ []

module _ (table : Text) (keys : List Text) where
  insert_reads :
      (end : Text)
      → (tail : List Token) → Ends end
      → lex idle end ≡ tail
      → lex idle (
          quote_identifier table
          ++ (codes " ("
              ++ (join (insert_columns [] keys) (codes ", ")
                  ++ (codes ") VALUES ("
                      ++ (join (insert_placeholders [] 1 keys) (codes ", ") ++ end)))))
        ≡ insert_body table keys tail
  unfolding lex
  insert_reads end tail h e =
      let places : Text = join (map (λ p. placeholder p.1) (numbered 1 keys)) (codes ", ") in
      let rest : Text = codes ") VALUES (" ++ (places ++ end) in
      let cols : Text = join (map quote_identifier keys) (codes ", ") in
      rw
        (
          insert_columns-map [] keys,
          insert_placeholders-map [] 1 keys,
          Reads-quote table (codes " (" ++ (cols ++ rest)) (refl, refl),
          Reads-join quote_identifier (λ k. ident k ∷ []) Reads-quote keys rest (refl, refl),
          Reads-join (λ (p : Text × ℕ). placeholder p.1) (λ p. param p.1 ∷ [])
              (λ p. Reads-placeholder p.1) (numbered 1 keys) end h,
          e,
        )
        refl

-- Whatever the table and the column names, hostile ones included, each of the two INSERT statements
-- reads as one: the table, each column as one quoted identifier, and the parameters $1, $2, … in the
-- columns' order, with RETURNING id behind the first of the two.
pub tokens-insert :
    (table : Text) (keys : List Text)
    → (tokens (insert_returning_sql table keys)
        ≡ word (codes "INSERT")
          ∷ word (codes "INTO")
          ∷ insert_body table keys (mark b')' ∷ returning_tail))
      × (tokens (insert_sql table keys)
          ≡ word (codes "INSERT") ∷ word (codes "INTO") ∷ insert_body table keys (mark b')' ∷ []))
unfolding insert_returning_sql insert_sql lex
tokens-insert table keys = (
  ap (λ x. word (codes "INSERT") ∷ word (codes "INTO") ∷ x)
      (insert_reads table keys (codes ") RETURNING id") (mark b')' ∷ returning_tail) (refl, refl)
        refl),
  ap (λ x. word (codes "INSERT") ∷ word (codes "INTO") ∷ x)
      (insert_reads table keys (codes ")") (mark b')' ∷ []) (refl, refl) refl),
)

placeholder_at_end : (i : ℕ) → lex idle (placeholder i) ≡ param i ∷ []
unfolding lex
placeholder_at_end i = ap (lex idle) (sym (append-nil (placeholder i))) ∙ Reads-placeholder i [] tt

quote_at_end : (name : Text) → lex idle (quote_identifier name) ≡ ident name ∷ []
unfolding lex
quote_at_end name =
    ap (lex idle) (sym (append-nil (quote_identifier name))) ∙ Reads-quote name [] tt

-- Whatever the table and the column names, the UPDATE statement reads as one that sets each column,
-- as one quoted identifier, to the parameter of its position, where the id is the parameter behind
-- those of the columns.
pub tokens-update :
    (table : Text) (keys : List Text)
    → tokens (update_sql table keys)
      ≡ word (codes "UPDATE")
        ∷ ident table
        ∷ word (codes "SET")
        ∷ (commas (map clause_tokens (numbered 1 keys))
            ++ (word (codes "WHERE")
                ∷ word (codes "id")
                ∷ mark b'='
                ∷ param (1 + length keys)
                ∷ []))
unfolding update_sql lex
tokens-update table keys =
    let i : ℕ = 1 + length keys in
    let end : Text = codes " WHERE id = " ++ (placeholder i) in
    let rest : Text = codes " SET " ++ (join (map clause (numbered 1 keys)) (codes ", ") ++ end) in
    rw
      (
        set_clauses-map [] 1 keys,
        Reads-quote table rest (refl, refl),
        Reads-join clause clause_tokens Reads-clause (numbered 1 keys) end (refl, refl),
        placeholder_at_end i,
      )
      refl

-- Whatever the name of the table or the database, the other three statements read as one statement
-- about it, with the limit or the id as the parameter $1.
pub tokens-statements :
    (name : Text)
    → (tokens (select_sql name)
        ≡ word (codes "SELECT")
          ∷ mark b'*'
          ∷ word (codes "FROM")
          ∷ ident name
          ∷ word (codes "LIMIT")
          ∷ param 1
          ∷ [])
      × (tokens (delete_sql name)
          ≡ word (codes "DELETE")
            ∷ word (codes "FROM")
            ∷ ident name
            ∷ word (codes "WHERE")
            ∷ word (codes "id")
            ∷ mark b'='
            ∷ param 1
            ∷ [])
      × (tokens (create_database_sql name)
          ≡ word (codes "CREATE") ∷ word (codes "DATABASE") ∷ ident name ∷ [])
unfolding select_sql delete_sql create_database_sql lex
tokens-statements name = (
  rw (Reads-quote name (codes " LIMIT $1") (refl, refl)) refl,
  rw (Reads-quote name (codes " WHERE id = $1") (refl, refl)) refl,
  rw (quote_at_end name) refl,
)
