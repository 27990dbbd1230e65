-- ===== src/Text.antt =====
-- Go's strings and the functions of `strings`, `strconv` and `fmt` that the program calls on them.
-- A text is the list of its code points; the literals of the program are ASCII.
pub mod Laws
pub mod Decimal
pub mod Regex
use Prim.Native.Char.{code}
use Prim.Native.String
use database_router.Shared.{
  ℕ, zero, suc, ◌+◌, ◌-◌, String, Bool, true, false, ◌&&◌, ◌||◌, List, [], ◌∷◌, ◌++◌, map, ltb, leb,
  ◌==◌, any, if◌then◌else◌,
}

abbrev pub Text : Type 0
Text = List ℕ

abbrev pub codes : String → Text
codes String.[] = []
codes (String.◌∷◌ c s) = code c ∷ codes s

-- s == t
unfoldable pub text_eq : Text → Text → Bool
text_eq [] [] = true
text_eq [] (d ∷ t) = false
text_eq (c ∷ s) [] = false
text_eq (c ∷ s) (d ∷ t) = c == d && text_eq s t

-- s == ""
abbrev pub is_empty : Text → Bool
is_empty [] = true
is_empty (c ∷ s) = false

-- strings.HasPrefix(s, p)
unfoldable pub has_prefix : Text → Text → Bool
has_prefix s [] = true
has_prefix [] (d ∷ p) = false
has_prefix (c ∷ s) (d ∷ p) = c == d && has_prefix s p

-- strings.Contains(s, t)
unfoldable pub contains : Text → Text → Bool
unfolding has_prefix
contains [] t = is_empty t
contains (c ∷ s) t = has_prefix (c ∷ s) t || contains s t

-- unicode.IsSpace
unfoldable pub is_space : ℕ → Bool
is_space c =
    leb 9 c && leb c 13
    || c == 32
    || c == 0x85
    || c == 0xA0
    || c == 0x1680
    || leb 0x2000 c && leb c 0x200A
    || c == 0x2028
    || c == 0x2029
    || c == 0x202F
    || c == 0x205F
    || c == 0x3000

unfoldable pub trim_left : Text → Text
trim_left [] = []
trim_left (c ∷ s) = if is_space c then trim_left s else c ∷ s

unfoldable pub trim_right : Text → Text
trim_right [] = []
trim_right (c ∷ s) = let r = trim_right s in if is_empty r && is_space c then [] else c ∷ r

-- strings.TrimSpace(s)
unfoldable pub trim_space : Text → Text
unfolding trim_left trim_right is_space
trim_space s = trim_right (trim_left s)

-- strings.ReplaceAll(s, old, new), where `old` is one character
unfoldable pub replace_all : Text → ℕ → Text → Text
replace_all [] old new = []
replace_all (c ∷ s) old new = (if c == old then new else c ∷ []) ++ replace_all s old new

-- strings.Join(parts, sep)
unfoldable pub join : List Text → Text → Text
join [] sep = []
join (p ∷ []) sep = p
join (p ∷ q ∷ ps) sep = p ++ (sep ++ join (q ∷ ps) sep)

is_lower : ℕ → Bool
is_lower c = leb b'a' c && leb c b'z'

-- unicode.ToUpper, with the mapping of the code points that are not ASCII as a parameter
upper_rune : (ℕ → ℕ) → ℕ → ℕ
unfolding is_lower
upper_rune other c = if ltb c 128 then (if is_lower c then c - 32 else c) else other c

-- strings.ToUpper(s)
unfoldable pub to_upper : (ℕ → ℕ) → Text → Text
unfolding upper_rune
to_upper other = map (upper_rune other)

-- strings.ToLower(s)
unfoldable pub to_lower : (ℕ → ℕ) → Text → Text
to_lower other =
    map (λ c. if ltb c 128 then (if leb b'A' c && leb c b'Z' then c + 32 else c) else other c)
