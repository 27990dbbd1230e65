-- ===== src/Text/Decimal.antt =====
-- Decimal numbers: `%d` of fmt, and strconv.Atoi.
use database_router.Shared.{
  ℕ, zero, suc, ◌+◌, ◌-◌, ◌*◌, ◌/◌, ◌%◌, ◌^◌, ◌<◌, ◌≡◌, refl, Bool, true, ◌&&◌, Option, none, some,
  [], ◌∷◌, ◌++◌, append_assoc, arith, ltb, leb, if◌then◌else◌, Bool-cases, inl, inr, ap, ◌∙◌, ◌≢◌,
  append-nil, All-append, All, sym,
}
use mathlib.Core.List.{concat-ne-nil}
use database_router.Shared.Int.{ℤ, pos, negsuc}
use database_router.Text.{Text}

abbrev pub is_digit : ℕ → Bool
is_digit c = leb b'0' c && leb c b'9'

-- The decimal digits of a number; the fuel bounds their number.
digits : ℕ → ℕ → Text
digits zero n = []
digits (suc f) n =
    let front = digits f (n / 10) in
    if ltb n 10 then (b'0' + n) ∷ [] else front ++ (b'0' + n % 10) ∷ []

pub itoa : ℕ → Text
unfolding digits
itoa n = digits (suc n) n

-- fmt.Sprintf("%d", a)
unfoldable pub itoa_ℤ : ℤ → Text
unfolding itoa
itoa_ℤ (pos n) = itoa n
itoa_ℤ (negsuc n) = b'-' ∷ itoa (suc n)

-- The number that digits spell behind `n`.
read_digits : ℕ → Text → Option ℕ
read_digits n [] = some n
read_digits n (c ∷ s) = if is_digit c then read_digits (n * 10 + (c - b'0')) s else none

-- The magnitude of a number that is not empty and at most `limit`.
magnitude : ℕ → Text → Option ℕ
magnitude limit [] = none
magnitude limit (c ∷ s) = elim (read_digits 0 (c ∷ s)) [
  | none ↦ none
  | some n ↦ if leb n limit then some n else none
]

negate : ℕ → ℤ
negate zero = pos 0
negate (suc n) = negsuc n

-- strconv.Atoi on a 64-bit platform; `none` is an error.
unfoldable pub atoi : Text → Option ℤ
unfolding magnitude negate read_digits
atoi [] = none
atoi (c ∷ s) =
    if leb b'-' c && leb c b'-'
    then elim (magnitude (2 ^ 63) s) [ none ↦ none | some n ↦ some (negate n) ]
    else if leb b'+' c && leb c b'+'
    then elim (magnitude (2 ^ 63 - 1) s) [ none ↦ none | some n ↦ some (pos n) ]
    else elim (magnitude (2 ^ 63 - 1) (c ∷ s)) [ none ↦ none | some n ↦ some (pos n) ]

-- What reads a digit into its number reads a whole printed number.
module _ {R : Type 0} (read : ℕ → Text → R)
    (read_digit : (n d : ℕ) (s : Text)
      → d < 10
      → read n ((b'0' + d) ∷ s) ≡ read (n * 10 + d) s) where
  read-digits : (f n : ℕ) (s : Text) → n < f → read 0 (digits f n ++ s) ≡ read n s
  unfolding digits
  read-digits zero n s h = elim h [ ]
  read-digits (suc f) n s h = elim (Bool-cases (ltb n 10)) [
    | inl small ↦ rw small (read_digit 0 n s (ground arith) ∙ ap (λ m. read m s) (omega arith))
    | inr large ↦
        rw
          (
            large,
            append_assoc,
            read-digits f (n / 10) ((b'0' + n % 10) ∷ s) (ground arith),
            read_digit (n / 10) (n % 10) s (omega arith),
          )
          (ap (λ m. read m s) (omega arith))
  ]

  pub read-itoa : (n : ℕ) (s : Text) → read 0 (itoa n ++ s) ≡ read n s
  unfolding itoa
  read-itoa n s = read-digits (suc n) n s (omega arith)

read_digits_digit :
    (n d : ℕ) (s : Text) → d < 10 → read_digits n ((b'0' + d) ∷ s) ≡ read_digits (n * 10 + d) s
unfolding read_digits
read_digits_digit n d s h = ground arith

abbrev pub IsDigit : ℕ → Type 0
IsDigit c = is_digit c ≡ true

digits-IsDigit : (f n : ℕ) → All IsDigit (digits f n)
unfolding digits
digits-IsDigit zero n = tt
digits-IsDigit (suc f) n = elim (Bool-cases (ltb n 10)) [
  | inl small ↦ rw small (ground arith, tt)
  | inr large ↦
      rw large
        (All-append IsDigit (digits f (n / 10)) _ (digits-IsDigit f (n / 10)) (ground arith, tt))
]

digits-ne-nil : (f n : ℕ) → digits (suc f) n ≢ []
unfolding digits
digits-ne-nil f n = ground (arith, concat-ne-nil (b'0' + n % 10) (digits f (n / 10)))

atoi_of_digits :
    (s : Text) (n : ℕ)
    → s ≢ []
    → All IsDigit s
    → read_digits 0 s ≡ some n
    → n < 2 ^ 63
    → atoi s ≡ some (pos n)
unfolding atoi
atoi_of_digits [] n h d e fits = absurd (h refl)
atoi_of_digits (c ∷ s) n h d e fits = ground arith

read_digits-itoa : (n : ℕ) → read_digits 0 (itoa n) ≡ some n
unfolding read_digits
read_digits-itoa n =
    ap (read_digits 0) (sym (append-nil (itoa n))) ∙ read-itoa read_digits read_digits_digit n []

-- Every port that `%d` prints is read back by Atoi.
pub atoi-itoa : (n : ℕ) → n < 2 ^ 63 → atoi (itoa n) ≡ some (pos n)
unfolding itoa
atoi-itoa n h =
    atoi_of_digits (itoa n) n (digits-ne-nil n n) (digits-IsDigit (suc n) n) (read_digits-itoa n) h

pub itoa-ne-nil : (n : ℕ) → itoa n ≢ []
unfolding itoa
itoa-ne-nil n = digits-ne-nil n n

pub itoa-IsDigit : (n : ℕ) → All IsDigit (itoa n)
unfolding itoa
itoa-IsDigit n = digits-IsDigit (suc n) n
