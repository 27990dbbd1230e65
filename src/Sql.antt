-- ===== src/Sql.antt =====
-- internal/service/postgres.go: the validation and quoting of identifiers, and the texts of the
-- statements that the PostgreSQL service sends.
pub mod Identifier
pub mod Lexer
pub mod Reading
pub mod Statements
use database_router.Shared.{
  ℕ, suc, ◌+◌, Bool, true, false, ◌&&◌, ◌||◌, List, [], ◌∷◌, ◌++◌, leb, ◌==◌, if◌then◌else◌,
}
use database_router.Text.{Text, codes, is_empty, replace_all, join}
use database_router.Text.Decimal.{itoa}
use database_router.Text.Regex.{Regex, class, seq, star, matches}

-- `[a-zA-Z_]`
abbrev pub is_ident_start : ℕ → Bool
is_ident_start c = leb b'a' c && leb c b'z' || leb b'A' c && leb c b'Z' || c == b'_'

-- `[a-zA-Z0-9_]`
abbrev pub is_ident_part : ℕ → Bool
is_ident_part c =
    leb b'a' c && leb c b'z' || leb b'A' c && leb c b'Z' || leb b'0' c && leb c b'9' || c == b'_'

-- `^[a-zA-Z_][a-zA-Z0-9_]*$`; the anchors make the match one of the whole text.
abbrev identifier_pattern : Regex
identifier_pattern = seq (class is_ident_start) (star (class is_ident_part))

unfoldable pub is_valid_identifier : Text → Bool
is_valid_identifier name = if is_empty name then false else matches identifier_pattern name

pub quote_identifier : Text → Text
quote_identifier name = b'"' ∷ replace_all name b'"' (b'"' ∷ b'"' ∷ []) ++ b'"' ∷ []

-- fmt.Sprintf("CREATE DATABASE %s", quoteIdentifier(name))
pub create_database_sql : Text → Text
create_database_sql name = codes "CREATE DATABASE " ++ quote_identifier name

pub select_sql : Text → Text
select_sql table = codes "SELECT * FROM " ++ (quote_identifier table ++ codes " LIMIT $1")

pub delete_sql : Text → Text
delete_sql table = codes "DELETE FROM " ++ (quote_identifier table ++ codes " WHERE id = $1")

-- fmt.Sprintf("$%d", i)
abbrev pub placeholder : ℕ → Text
placeholder i = b'$' ∷ itoa i

-- The loop of InsertData over the columns: the two lists that it appends to.
pub insert_columns : List Text → List Text → List Text
insert_columns cols [] = cols
insert_columns cols (k ∷ ks) = insert_columns (cols ++ quote_identifier k ∷ []) ks

pub insert_placeholders : List Text → ℕ → List Text → List Text
insert_placeholders placeholders i [] = placeholders
insert_placeholders placeholders i (k ∷ ks) =
    insert_placeholders (placeholders ++ placeholder i ∷ []) (i + 1) ks

-- fmt.Sprintf("INSERT INTO %s (%s) VALUES (%s)", …)
pub insert_sql : Text → List Text → Text
unfolding insert_columns insert_placeholders
insert_sql table keys =
    codes "INSERT INTO "
    ++ (quote_identifier table
        ++ (codes " ("
            ++ (join (insert_columns [] keys) (codes ", ")
                ++ (codes ") VALUES ("
                    ++ (join (insert_placeholders [] 1 keys) (codes ", ") ++ codes ")")))))

-- fmt.Sprintf("INSERT INTO %s (%s) VALUES (%s) RETURNING id", …)
pub insert_returning_sql : Text → List Text → Text
unfolding insert_columns insert_placeholders
insert_returning_sql table keys =
    codes "INSERT INTO "
    ++ (quote_identifier table
        ++ (codes " ("
            ++ (join (insert_columns [] keys) (codes ", ")
                ++ (codes ") VALUES ("
                    ++ (join (insert_placeholders [] 1 keys) (codes ", ")
                        ++ codes ") RETURNING id")))))

-- The loop of UpdateData: the clauses, and the number `i` behind the last one.
pub set_clauses : List Text → ℕ → List Text → List Text × ℕ
set_clauses clauses i [] = (clauses, i)
set_clauses clauses i (k ∷ ks) =
    set_clauses (clauses ++ (quote_identifier k ++ (codes " = " ++ placeholder i)) ∷ []) (i + 1) ks

-- fmt.Sprintf("UPDATE %s SET %s WHERE id = $%d", …)
pub update_sql : Text → List Text → Text
unfolding set_clauses
update_sql table keys =
    let (clauses, i) = set_clauses [] 1 keys in
    codes "UPDATE "
    ++ (quote_identifier table
        ++ (codes " SET "
            ++ (join clauses (codes ", ") ++ (codes " WHERE id = " ++ placeholder i))))
