-- ===== src/Text/Regex.antt =====
-- The part of Go's `regexp` that the program uses: a match of the whole text, by derivatives.
use database_router.Shared.{
  ℕ, ◌≡◌, refl, Bool, true, false, ◌&&◌, ◌||◌, List, [], ◌∷◌, arith, all, if◌then◌else◌,
}

pub data Regex : Type 0 where
  none eps : Regex
  class : (ℕ → Bool) → Regex
  seq alt : Regex → Regex → Regex
  star : Regex → Regex

-- Does the pattern match the empty text?
nullable : Regex → Bool
nullable none = false
nullable eps = true
nullable (class p) = false
nullable (seq r t) = nullable r && nullable t
nullable (alt r t) = nullable r || nullable t
nullable (star r) = true

-- What is left to match behind the character `c`.
deriv : ℕ → Regex → Regex
deriv c none = none
deriv c eps = none
deriv c (class p) = if p c then eps else none
deriv c (seq r t) = alt (seq (deriv c r) t) (if nullable r then deriv c t else none)
deriv c (alt r t) = alt (deriv c r) (deriv c t)
deriv c (star r) = seq (deriv c r) (star r)

unfoldable pub matches : Regex → List ℕ → Bool
unfolding nullable deriv
matches r [] = nullable r
matches r (c ∷ s) = matches (deriv c r) s

matches-none : (s : List ℕ) → matches none s ≡ false
unfolding matches
matches-none [] = refl
matches-none (c ∷ s) = matches-none s

matches-alt : (r t : Regex) (s : List ℕ) → matches (alt r t) s ≡ (matches r s || matches t s)
unfolding matches
matches-alt r t [] = refl
matches-alt r t (c ∷ s) = matches-alt (deriv c r) (deriv c t) s

matches-seq-none : (t : Regex) (s : List ℕ) → matches (seq none t) s ≡ false
unfolding matches
matches-seq-none t [] = refl
matches-seq-none t (c ∷ s) =
    ground (arith, matches-alt (seq none t) none s, matches-seq-none t s, matches-none s)

matches-seq-eps : (t : Regex) (s : List ℕ) → matches (seq eps t) s ≡ matches t s
unfolding matches
matches-seq-eps t [] = refl
matches-seq-eps t (c ∷ s) =
    ground (arith, matches-alt (seq none t) (deriv c t) s, matches-seq-none t s)

-- Behind a class that took its character, the rest of the pattern is left.
matches-seq-taken :
    (b : Bool) (t : Regex) (s : List ℕ)
    → matches (seq (if b then eps else none) t) s ≡ (b && matches t s)
matches-seq-taken true t s = matches-seq-eps t s
matches-seq-taken false t s = matches-seq-none t s

pub matches-star-class : (q : ℕ → Bool) (s : List ℕ) → matches (star (class q)) s ≡ all q s
unfolding matches
matches-star-class q [] = refl
matches-star-class q (c ∷ s) =
    ground (arith, matches-seq-taken (q c) (star (class q)) s, matches-star-class q s)

pub matches-seq-class :
    (p : ℕ → Bool) (t : Regex) (c : ℕ) (s : List ℕ)
    → matches (seq (class p) t) (c ∷ s) ≡ (p c && matches t s)
unfolding matches
matches-seq-class p t c s = ground (
  arith,
  matches-alt (seq (if p c then eps else none) t) none s,
  matches-seq-taken (p c) t s,
  matches-none s,
)
