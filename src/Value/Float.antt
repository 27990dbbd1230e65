-- ===== src/Value/Float.antt =====
-- Go's conversions to float64, on IEEE 754 bits: of an integer, rounded to the nearest even, and of
-- a float32.
pub mod Exact
use database_router.Shared.{
  ℕ, zero, suc, ◌+◌, ◌-◌, ◌*◌, ◌/◌, ◌%◌, ◌^◌, ltb, leb, ◌==◌, if◌then◌else◌, ◌≡◌, refl,
}
use database_router.Shared.Int.{ℤ, pos, negsuc}

-- The number of binary digits; the fuel bounds it.
bit_length : ℕ → ℕ → ℕ
bit_length zero n = 0
bit_length (suc f) n = let rest = bit_length f (n / 2) in if n == 0 then 0 else suc rest

-- m / 2 ^ k, rounded to the nearest, and to the even one of two.
round_even : ℕ → ℕ → ℕ
round_even m k =
    let q = m / 2 ^ k in
    let r = m % 2 ^ k in
    if ltb (2 * r) (2 ^ k) then q else if ltb (2 ^ k) (2 * r) then q + 1 else q + q % 2

-- The bits of a positive number below 2 ^ 64, at the exponent `e`: a carry out of the rounding
-- adds to the exponent.
with_exponent : ℕ → ℕ → ℕ
with_exponent e m =
    let significand = if leb e 52 then m * 2 ^ (52 - e) else round_even m (e - 52) in
    (e + 1023) * 2 ^ 52 + (significand - 2 ^ 52)

magnitude_bits : ℕ → ℕ
magnitude_bits m = if m == 0 then 0 else with_exponent (bit_length 64 m - 1) m

-- float64(n)
pub float64_of_int : ℤ → ℕ
unfolding magnitude_bits with_exponent round_even bit_length
float64_of_int (pos n) = magnitude_bits n
float64_of_int (negsuc n) = 2 ^ 63 + magnitude_bits (suc n)

-- The fields of a float32: sign, exponent, fraction.
widen : ℕ → ℕ → ℕ → ℕ
widen s e f =
    let sign = s * 2 ^ 63 in
    if e == 255
    then (if f == 0
        then sign + 2047 * 2 ^ 52
        else sign + 2047 * 2 ^ 52 + f * 2 ^ 29 + (if ltb f (2 ^ 22) then 2 ^ 51 else 0))
    else if e == 0
    then (if f == 0
        then sign
        else let top = bit_length 64 f - 1 in
          sign + (top + 874) * 2 ^ 52 + (f * 2 ^ (52 - top) - 2 ^ 52))
    else sign + (e + 896) * 2 ^ 52 + f * 2 ^ 29

-- float64(x) of a float32
pub float64_of_float32 : ℕ → ℕ
unfolding widen bit_length
float64_of_float32 x = widen (x / 2 ^ 31) (x / 2 ^ 23 % 256) (x % 2 ^ 23)

one_and_minus_two : float64_of_int (pos 1) ≡ 0x3ff0000000000000
unfolding float64_of_int
one_and_minus_two = refl

two_to_53_plus_one : float64_of_int (pos (2 ^ 53 + 1)) ≡ float64_of_int (pos (2 ^ 53))
unfolding float64_of_int
two_to_53_plus_one = refl

minus_two_of_float32 : float64_of_float32 0xc0000000 ≡ float64_of_int (negsuc 1)
unfolding float64_of_int float64_of_float32
minus_two_of_float32 = refl
