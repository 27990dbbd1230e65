-- ===== src/Value/Float/Exact.antt =====
-- Integers that a float64 holds exactly.
use native.Mathlib.Nat.{
  pow-le-pow_right, mul_assoc, mul-div_cancel, mul-mod_left, suc-add, suc-mul, mul-le-mul_right,
}
use native.Mathlib.Decide.{dec_lt}
use database_router.Shared.{
  ℕ, zero, suc, ◌+◌, ◌-◌, ◌*◌, ◌/◌, ◌%◌, ◌^◌, ◌≤◌, ◌<◌, ◌≡◌, refl, sym, ap, ◌∙◌, ltb, leb, ◌==◌,
  if◌then◌else◌, true, false, none, some, Option, arith,
}
use database_router.Shared.Int.{ℤ, pos, negsuc}
use database_router.Value.Float.{bit_length, with_exponent, magnitude_bits, float64_of_int}

pow_two_suc : (k : ℕ) → 2 ^ suc k ≡ 2 * 2 ^ k
pow_two_suc k = omega arith

pow_two_add : (j k : ℕ) → 2 ^ (j + k) ≡ 2 ^ j * 2 ^ k
pow_two_add zero k = ground arith
pow_two_add (suc j) k =
    ap (λ (n : ℕ). 2 ^ n) (suc-add j k)
    ∙ pow_two_suc (j + k)
    ∙ rw (pow_two_add j k, pow_two_suc j) (sym (mul_assoc 2 (2 ^ j) (2 ^ k)))

bit_length_zero : (f : ℕ) → bit_length f 0 ≡ 0
unfolding bit_length
bit_length_zero zero = refl
bit_length_zero (suc f) = refl

lt-pow-bit_length : (f n : ℕ) → n < 2 ^ f → n < 2 ^ bit_length f n
unfolding bit_length
lt-pow-bit_length zero n h = h
lt-pow-bit_length (suc f) n h =
    ground (arith, pow_two_suc f, lt-pow-bit_length f (n / 2), pow_two_suc (bit_length f (n / 2)))

pow-bit_length-le : (f n : ℕ) → n < 2 ^ f → 0 < n → 2 ^ bit_length f n ≤ 2 * n
unfolding bit_length
pow-bit_length-le zero n h p = omega arith
pow-bit_length-le (suc f) n h p = ground (
  arith,
  pow_two_suc f,
  pow-bit_length-le f (n / 2),
  pow_two_suc (bit_length f (n / 2)),
  bit_length_zero f,
)

two_pow_pos : (k : ℕ) → 0 < 2 ^ k
two_pow_pos zero = omega arith
two_pow_pos (suc k) = omega (arith, pow_two_suc k, two_pow_pos k)

-- The exponent of a number below 2 ^ 53: the place of its first binary digit.
record Exponent (m e : ℕ) : Type 0 where
  small : e ≤ 52
  low : 2 ^ e ≤ m
  high : m < 2 ^ suc e

below_53 : (m e : ℕ) → m < 2 ^ 53 → 2 ^ e ≤ m → e ≤ 52
below_53 m e h low = elim (dec_lt 52 e) [
  | yes above ↦
      let grown : 2 ^ 53 ≤ 2 ^ e = pow-le-pow_right (omega arith) above in absurd (omega arith)
  | no below ↦ omega arith
]

log2_bound : (m b : ℕ) → 0 < m → m < 2 ^ 53 → m < 2 ^ b → 2 ^ b ≤ 2 * m → Exponent m (b - 1)
log2_bound m zero p h high low = absurd (omega arith)
log2_bound m (suc e) p h high low =
    let fits : 2 ^ e ≤ m = omega (arith, pow_two_suc e) in
    let back : suc e - 1 ≡ e = omega arith in
    rw back (record { small = below_53 m e h fits; low = fits; high = high })

exponent : (m : ℕ) → 0 < m → m < 2 ^ 53 → Exponent m (bit_length 64 m - 1)
exponent m p h =
    log2_bound m (bit_length 64 m) p h (lt-pow-bit_length 64 m (omega arith))
      (pow-bit_length-le 64 m (omega arith) p)

-- The significand, shifted so that its first digit is the one that is not stored.
significand_bounds :
    (m e : ℕ) → Exponent m e → (2 ^ 52 ≤ m * 2 ^ (52 - e)) × (m * 2 ^ (52 - e) < 2 ^ 53)
significand_bounds m e x =
    let p : ℕ = 2 ^ (52 - e) in
    let e_place : e + (52 - e) ≡ 52 = omega (arith, x.small) in
    let whole : 2 ^ 52 ≡ 2 ^ e * p = ap (λ (n : ℕ). 2 ^ n) (sym e_place) ∙ pow_two_add e (52 - e) in
    let low : 2 ^ e * p ≤ m * p = mul-le-mul_right p x.low in
    let high : suc m * p ≤ 2 * 2 ^ e * p =
      mul-le-mul_right p (omega (arith, x.high, pow_two_suc e)) in
    (omega arith, omega (arith, mul_assoc 2 (2 ^ e) p, suc-mul m p, two_pow_pos (52 - e)))

abbrev signed : ℕ → ℕ → ℤ
signed zero m = pos m
signed (suc _) zero = pos 0
signed (suc _) (suc m) = negsuc m

-- The integer that a sign, an exponent and a fraction of a float64 stand for, or none for a number that
-- is not an integer, for infinities and for NaN. The exponent 1075 is that of a whole significand.
abbrev integer_part : ℕ → ℕ → ℕ → Option ℤ
integer_part s e f =
    if ltb e 1023
    then if e + f == 0 then some (pos 0) else none
    else if leb e 1075
    then if (2 ^ 52 + f) % 2 ^ (1075 - e) == 0
      then some (signed s ((2 ^ 52 + f) / 2 ^ (1075 - e)))
      else none
    else if ltb e 2047
    then some (signed s ((2 ^ 52 + f) * 2 ^ (e - 1075)))
    else none

-- The integer that the bits of a float64 are exactly.
pub exact_integer : ℕ → Option ℤ
exact_integer bits = integer_part (bits / 2 ^ 63) (bits / 2 ^ 52 % 2 ^ 11) (bits % 2 ^ 52)

-- The bits of a number below 2 ^ 53, by its exponent and its significand.
abbrev bits_of : ℕ → ℕ → ℕ
bits_of e s = (e + 1023) * 2 ^ 52 + (s - 2 ^ 52)

integer_part-bits_of :
    (sign m e : ℕ)
    → Exponent m e
    → let bits = bits_of e (m * 2 ^ (52 - e)) in
      (integer_part sign (bits / 2 ^ 52) (bits % 2 ^ 52) ≡ some (signed sign m)) × (bits < 2 ^ 63)
integer_part-bits_of sign m e x =
    let s : ℕ = m * 2 ^ (52 - e) in
    let (low, high) = significand_bounds m e x in
    let exact : s / 2 ^ (52 - e) ≡ m = mul-div_cancel m (two_pow_pos (52 - e)) in
    let whole : s % 2 ^ (52 - e) ≡ 0 = mul-mod_left m (2 ^ (52 - e)) in
    let e_back : bits_of e s / 2 ^ 52 ≡ e + 1023 = omega (arith, low, high) in
    let s_back : 2 ^ 52 + bits_of e s % 2 ^ 52 ≡ s = omega (arith, low, high) in
    let shift : 1075 - (e + 1023) ≡ 52 - e = omega arith in
    let known : (ltb (e + 1023) 1023 ≡ false) × (leb (e + 1023) 1075 ≡ true) =
      (ground arith, ground (arith, x.small)) in
    (
      rw (e_back, s_back, shift, known.0, known.1, whole, exact) refl,
      omega (arith, low, high, x.small),
    )

magnitude_bits-bits_of :
    (m e : ℕ)
    → 0 < m
    → bit_length 64 m - 1 ≡ e
    → e ≤ 52
    → magnitude_bits m ≡ bits_of e (m * 2 ^ (52 - e))
unfolding magnitude_bits with_exponent
magnitude_bits-bits_of m e p h small = rw h (ground arith)

integer_part-magnitude_bits :
    (sign m : ℕ)
    → m < 2 ^ 53
    → (integer_part sign (magnitude_bits m / 2 ^ 52) (magnitude_bits m % 2 ^ 52)
        ≡ some (signed sign m))
      × (magnitude_bits m < 2 ^ 63)
integer_part-magnitude_bits zero zero h = unfold magnitude_bits in (refl, omega arith)
integer_part-magnitude_bits (suc _) zero h = unfold magnitude_bits in (refl, omega arith)
integer_part-magnitude_bits sign (suc n) h =
    let m : ℕ = suc n in
    let x = exponent m (omega arith) h in
    rw (magnitude_bits-bits_of m (bit_length 64 m - 1) (omega arith) refl x.small)
      (integer_part-bits_of sign m (bit_length 64 m - 1) x)

-- A number below 2 ^ 53 in magnitude.
abbrev pub IsExact : ℤ → Type 0
IsExact (pos n) = n < 2 ^ 53
IsExact (negsuc n) = suc n < 2 ^ 53

pub exact_integer-float64_of_int : (n : ℤ) → IsExact n → exact_integer (float64_of_int n) ≡ some n
unfolding exact_integer float64_of_int
exact_integer-float64_of_int (pos n) h =
    let b : ℕ = magnitude_bits n in
    let (back, small) = integer_part-magnitude_bits 0 n h in
    let sign : b / 2 ^ 63 ≡ 0 = omega (arith, small) in
    let e : b / 2 ^ 52 % 2 ^ 11 ≡ b / 2 ^ 52 = omega (arith, small) in rw (sign, e, back) refl
exact_integer-float64_of_int (negsuc n) h =
    let b : ℕ = magnitude_bits (suc n) in
    let (back, small) = integer_part-magnitude_bits 1 (suc n) h in
    let sign : (2 ^ 63 + b) / 2 ^ 63 ≡ 1 = omega (arith, small) in
    let e : (2 ^ 63 + b) / 2 ^ 52 % 2 ^ 11 ≡ b / 2 ^ 52 = omega (arith, small) in
    let f : (2 ^ 63 + b) % 2 ^ 52 ≡ b % 2 ^ 52 = omega arith in rw (sign, e, f, back) refl

one_and_a_half : exact_integer 0x3ff8000000000000 ≡ none
unfolding exact_integer
one_and_a_half = refl
