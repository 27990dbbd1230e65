-- ===== src/Sql/Lexer.antt =====
-- How PostgreSQL reads the text of a statement, as far as the statements of the service need it:
-- quoted identifiers, words, parameters and single characters. It is written without reference to
-- the code that builds the statements.
use database_router.Shared.{ℕ, ◌+◌, ◌-◌, ◌*◌, List, [], ◌∷◌, ◌++◌, ◌==◌, if◌then◌else◌}
use database_router.Text.{Text, is_space}
use database_router.Text.Decimal.{is_digit}
use database_router.Sql.{is_ident_part}

pub data Token : Type 0 where
  -- a quoted identifier, by the name that it stands for
  ident : Text → Token
  -- a keyword or an identifier without quotes
  word : Text → Token
  -- `$n`
  param : ℕ → Token
  -- any other character
  mark : ℕ → Token
  -- a quoted identifier with no closing quote
  unterminated : Token

-- What the characters read so far belong to.
pub data Mode : Type 0 where
  idle : Mode
  -- within quotes
  quoted : Text → Mode
  -- behind a quote that closes the identifier, unless a second one follows
  closing : Text → Mode
  in_word : Text → Mode
  in_param : ℕ → Mode

abbrev start : ℕ → List Token × Mode
start c =
    if is_space c
    then ([], idle)
    else if c == b'"'
    then ([], quoted [])
    else if c == b'$'
    then ([], in_param 0)
    else if is_ident_part c
    then ([], in_word (c ∷ []))
    else (mark c ∷ [], idle)

-- A token ends, and the character `c` is read afresh.
abbrev close : Token → ℕ → List Token × Mode
close t c = (t ∷ (start c).0, (start c).1)

step : Mode → ℕ → List Token × Mode
step idle c = start c
step (quoted name) c = if c == b'"' then ([], closing name) else ([], quoted (name ++ c ∷ []))
step (closing name) c = if c == b'"' then ([], quoted (name ++ b'"' ∷ [])) else close (ident name) c
step (in_word w) c = if is_ident_part c then ([], in_word (w ++ c ∷ [])) else close (word w) c
step (in_param n) c = if is_digit c then ([], in_param (n * 10 + (c - b'0'))) else close (param n) c

flush : Mode → List Token
flush idle = []
flush (quoted name) = unterminated ∷ []
flush (closing name) = ident name ∷ []
flush (in_word w) = word w ∷ []
flush (in_param n) = param n ∷ []

unfoldable pub lex : Mode → Text → List Token
unfolding step flush is_space
lex m [] = flush m
lex m (c ∷ s) = (step m c).0 ++ lex (step m c).1 s

-- The tokens of a statement.
abbrev pub tokens : Text → List Token
tokens = lex idle
