-- ===== src/Sql/Identifier.antt =====
-- What `isValidIdentifier` accepts.
use database_router.Shared.{ℕ, ◌≡◌, ◌⊎◌, ◌↔◌, ◌≤◌, refl, true, ◌&&◌, [], ◌∷◌, arith, all, All}
use database_router.Text.{Text}
use database_router.Text.Regex.{class, star, matches-seq-class, matches-star-class}
use database_router.Sql.{is_ident_start, is_ident_part, is_valid_identifier}

-- The letters of ASCII, by their code points.
abbrev pub IsLetter : ℕ → Type 0
IsLetter c = ((97 ≤ c) × (c ≤ 122)) ⊎ ((65 ≤ c) × (c ≤ 90))

abbrev pub IsDigit : ℕ → Type 0
IsDigit c = (48 ≤ c) × (c ≤ 57)

abbrev IsStart : ℕ → Type 0
IsStart c = IsLetter c ⊎ (c ≡ 95)

abbrev IsPart : ℕ → Type 0
IsPart c = IsStart c ⊎ IsDigit c

-- A name as the SQL identifiers that need no quotes are written; 95 is the underscore.
abbrev pub IsPlainName : Text → Type 0
IsPlainName [] = ⊥
IsPlainName (c ∷ s) = IsStart c × All IsPart s

is_ident_start-IsStart : (c : ℕ) → (is_ident_start c ≡ true) ↔ IsStart c
is_ident_start-IsStart c = (λ h. ground arith, λ h. ground arith)

is_ident_part-IsPart : (c : ℕ) → (is_ident_part c ≡ true) ↔ IsPart c
is_ident_part-IsPart c = (λ h. ground arith, λ h. ground arith)

all-IsPart : (s : Text) → (all is_ident_part s ≡ true) ↔ All IsPart s
all-IsPart [] = (λ h. tt, λ h. refl)
all-IsPart (c ∷ s) = (
  λ h. ((is_ident_part-IsPart c).0 (ground arith), (all-IsPart s).0 (ground arith)),
  λ h. ground (arith, (is_ident_part-IsPart c).1 h.0, (all-IsPart s).1 h.1),
)

matched :
    (c : ℕ) (s : Text) → is_valid_identifier (c ∷ s) ≡ (is_ident_start c && all is_ident_part s)
unfolding is_valid_identifier
matched c s = ground (
  arith,
  matches-seq-class is_ident_start (star (class is_ident_part)) c s,
  matches-star-class is_ident_part s,
)

-- A name is accepted exactly if it is a letter or an underscore, followed by letters, digits and
-- underscores only, where letters and digits are those of ASCII.
pub plain_name_lem : (name : Text) → (is_valid_identifier name ≡ true) ↔ IsPlainName name
unfolding is_valid_identifier
plain_name_lem [] = (λ h. ground arith, λ h. absurd h)
plain_name_lem (c ∷ s) = (
  λ h. (
    (is_ident_start-IsStart c).0 (ground (arith, matched c s)),
    (all-IsPart s).0 (ground (arith, matched c s)),
  ),
  λ h. ground (arith, matched c s, (is_ident_start-IsStart c).1 h.0, (all-IsPart s).1 h.1),
)
