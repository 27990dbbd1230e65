-- ===== src/Sql/Reading.antt =====
-- How the lexer reads the parts that the statements are joined from: quoted identifiers,
-- placeholders and lists of them.
use database_router.Shared.{
  ℕ, ◌+◌, ◌-◌, ◌*◌, ◌<◌, ◌∙◌, ap, ◌≡◌, refl, false, List, [], ◌∷◌, ◌++◌, sym, append_assoc,
  append-nil, true, arith, Bool-cases, inl, inr, ◌==◌, map,
}
use database_router.Text.{Text, codes, replace_all, join}
use database_router.Text.Decimal.{is_digit, read-itoa}
use database_router.Sql.{quote_identifier, placeholder}
use database_router.Sql.Lexer.{Token, ident, param, mark, idle, quoted, closing, in_param, lex}

-- The text behind a token: it does not begin with a quote or a digit.
abbrev pub Ends : Text → Type 0
Ends [] = Unit
Ends (c ∷ s) = (c == b'"' ≡ false) × (is_digit c ≡ false)

-- `text` reads as the tokens `ts`, whatever follows it.
abbrev pub Reads : Text → List Token → Type 0
Reads text ts = (rest : Text) → Ends rest → lex idle (text ++ rest) ≡ ts ++ lex idle rest

lex-escaped :
    (name acc rest : Text)
    → lex (quoted acc) ((replace_all name b'"' (b'"' ∷ b'"' ∷ []) ++ b'"' ∷ []) ++ rest)
      ≡ lex (closing (acc ++ name)) rest
unfolding lex replace_all
lex-escaped [] acc rest = rw append-nil
lex-escaped (c ∷ name) acc rest = elim (Bool-cases (c == b'"')) [
  | inl quote ↦
      let same : c ≡ b'"' = ground arith in
      rw same (
        lex-escaped name (acc ++ b'"' ∷ []) rest
        ∙ ap (λ n. lex (closing n) rest) (append_assoc acc _ name))
  | inr plain ↦ rw plain (
      rw plain (
        lex-escaped name (acc ++ c ∷ []) rest
        ∙ ap (λ n. lex (closing n) rest) (append_assoc acc _ name)))
]

lex-closing : (name rest : Text) → Ends rest → lex (closing name) rest ≡ ident name ∷ lex idle rest
unfolding lex
lex-closing name [] h = refl
lex-closing name (c ∷ rest) h = rw h.0 refl

-- A quoted name reads as that name, whatever characters it holds.
pub Reads-quote : (name : Text) → Reads (quote_identifier name) (ident name ∷ [])
unfolding quote_identifier lex
Reads-quote name rest h = lex-escaped name [] rest ∙ lex-closing name rest h

lex-digit :
    (n d : ℕ) (s : Text)
    → d < 10
    → lex (in_param n) ((b'0' + d) ∷ s) ≡ lex (in_param (n * 10 + d)) s
unfolding lex
lex-digit n d s h =
    let digit : is_digit (b'0' + d) ≡ true = ground arith in
    let back : b'0' + d - b'0' ≡ d = omega arith in rw (digit, back) refl

lex-param_end : (n : ℕ) (rest : Text) → Ends rest → lex (in_param n) rest ≡ param n ∷ lex idle rest
unfolding lex
lex-param_end n [] h = refl
lex-param_end n (c ∷ rest) h = rw h.1 refl

pub Reads-placeholder : (i : ℕ) → Reads (placeholder i) (param i ∷ [])
unfolding lex
Reads-placeholder i rest h =
    read-itoa (λ n s. lex (in_param n) s) lex-digit i rest ∙ lex-param_end i rest h

-- The tokens of a list whose items are joined by commas.
unfoldable pub commas : List (List Token) → List Token
commas [] = []
commas (t ∷ []) = t
commas (t ∷ u ∷ us) = t ++ mark b',' ∷ commas (u ∷ us)

module _ {A : Type 0} (text : A → Text) (ts : A → List Token)
    (reads : (a : A) → Reads (text a) (ts a)) where
  -- Texts joined by commas read as their tokens, with commas between them.
  pub Reads-join : (l : List A) → Reads (join (map text l) (codes ", ")) (commas (map ts l))
  unfolding join commas lex
  Reads-join [] rest h = refl
  Reads-join (a ∷ []) rest h = reads a rest h
  Reads-join (a ∷ b ∷ l) rest h =
      let rest' : Text = codes ", " ++ (join (map text (b ∷ l)) (codes ", ") ++ rest) in
      let tail : lex idle rest' ≡ mark b',' ∷ (commas (map ts (b ∷ l)) ++ lex idle rest) =
        ap (λ x. mark b',' ∷ x) (Reads-join (b ∷ l) rest h) in
      rw (append_assoc, append_assoc, reads a rest' (refl, refl), tail)
        (sym (append_assoc (ts a) _ _))
