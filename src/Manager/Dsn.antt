-- ===== src/Manager/Dsn.antt =====
-- How the connection strings of internal/db/database.go read by the documented format of libpq:
-- settings `key = value` with white space between them and, if wished, around the sign. A value may
-- stand in single quotes, a backslash escapes, and a later setting replaces an earlier one of its
-- key. The reader is written without reference to the code that builds the strings.
pub mod Settings
pub mod Injection
use database_router.Shared.{ℕ, Bool, Option, none, some, List, [], ◌∷◌, ◌++◌, ◌==◌, if◌then◌else◌}
use database_router.Text.{Text, text_eq, is_space}

pub data Setting : Type 0 where
  set : Text → Text → Setting
  -- a key without a value, or a quote that is not closed
  malformed : Setting

-- What the characters read so far belong to.
pub data Mode : Type 0 where
  between : Mode
  in_key : Text → Mode
  -- behind a key, and behind its sign
  behind_key before_value : Text → Mode
  in_value escaped in_quotes quote_escaped : Text → Text → Mode
  broken : Mode

pub step : Mode → ℕ → List Setting × Mode
step between c =
    if is_space c
    then ([], between)
    else if c == b'='
    then ([], before_value [])
    else ([], in_key (c ∷ []))
step (in_key k) c =
    if c == b'='
    then ([], before_value k)
    else if is_space c
    then ([], behind_key k)
    else ([], in_key (k ++ c ∷ []))
step (behind_key k) c =
    if is_space c
    then ([], behind_key k)
    else if c == b'='
    then ([], before_value k)
    else (malformed ∷ [], broken)
step (before_value k) c =
    if is_space c
    then ([], before_value k)
    else if c == b'\''
    then ([], in_quotes k [])
    else if c == b'\\'
    then ([], escaped k [])
    else ([], in_value k (c ∷ []))
step (in_value k v) c =
    if is_space c
    then (set k v ∷ [], between)
    else if c == b'\\'
    then ([], escaped k v)
    else ([], in_value k (v ++ c ∷ []))
step (escaped k v) c = ([], in_value k (v ++ c ∷ []))
step (in_quotes k v) c =
    if c == b'\''
    then (set k v ∷ [], between)
    else if c == b'\\'
    then ([], quote_escaped k v)
    else ([], in_quotes k (v ++ c ∷ []))
step (quote_escaped k v) c = ([], in_quotes k (v ++ c ∷ []))
step broken c = ([], broken)

pub flush : Mode → List Setting
flush between = []
flush (in_key k) = malformed ∷ []
flush (behind_key k) = malformed ∷ []
flush (before_value k) = set k [] ∷ []
flush (in_value k v) = set k v ∷ []
flush (escaped k v) = malformed ∷ []
flush (in_quotes k v) = malformed ∷ []
flush (quote_escaped k v) = malformed ∷ []
flush broken = []

unfoldable pub read : Mode → Text → List Setting
unfolding step flush is_space
read m [] = flush m
read m (c ∷ s) = (step m c).0 ++ read (step m c).1 s

-- The settings of a connection string.
abbrev pub settings : Text → List Setting
settings = read between

-- A setting replaces an earlier one of its key.
unfoldable pub effective : Text → List Setting → Option Text
effective k [] = none
effective k (malformed ∷ l) = effective k l
effective k (set j v ∷ l) = elim (effective k l) [
  | some w ↦ some w
  | none ↦ if text_eq j k then some v else none
]
