-- ===== src/Driver/Handles/Counts.antt =====
-- How often a connection is open, and what one call changes in it.
use database_router.Shared.{
  ℕ, zero, suc, ◌+◌, ◌≤◌, ◌<◌, ◌≡◌, refl, Bool, true, false, none, some, Option, List, [], ◌∷◌,
  ◌==◌, arith, if◌then◌else◌, Bool-cases, inl, inr,
}
use database_router.Driver.Calls.{Call, Handle}
use database_router.Driver.Handles.{remove, is_open, still_open, WellUsed}

abbrev pub count : Handle → List Handle → ℕ
count j [] = 0
count j (h ∷ l) = if h == j then suc (count j l) else count j l

pub count-is_open : (h : Handle) (l : List Handle) → is_open h l ≡ true → 1 ≤ count h l
count-is_open h [] o = ground arith
count-is_open h (j ∷ l) o = ground (arith, count-is_open h l)

pub is_open-count : (h : Handle) (l : List Handle) → 1 ≤ count h l → is_open h l ≡ true
is_open-count h [] o = absurd (omega (arith, o))
is_open-count h (j ∷ l) o = ground (arith, is_open-count h l)

pub count-remove :
    (h j : Handle) (l : List Handle)
    → is_open h l ≡ true
    → count j (remove h l) + (if h == j then 1 else 0) ≡ count j l
count-remove h j [] o = ground arith
count-remove h j (k ∷ l) o = ground (arith, count-remove h j l)

-- The connection that a call uses or closes.
abbrev pub handle_of : Call → Option Handle
handle_of (Call.set_max_open_conns h n) = some h
handle_of (Call.set_max_idle_conns h n) = some h
handle_of (Call.set_conn_max_lifetime h n) = some h
handle_of (Call.sql_ping c h) = some h
handle_of (Call.sql_query c h text args) = some h
handle_of (Call.sql_query_row c h text args) = some h
handle_of (Call.sql_exec c h text args) = some h
handle_of (Call.rows_close h) = some h
handle_of (Call.sql_close h) = some h
handle_of _ = none

-- The connection that a call uses or closes meets `P`.
abbrev pub Meets : (Handle → Bool) → Option Handle → Type 0
Meets P none = Unit
Meets P (some h) = P h ≡ true

abbrev pub gained : Call → Handle → ℕ
gained (Call.sql_open dsn (some h)) j = if h == j then 1 else 0
gained _ j = 0

abbrev pub lost : Call → Handle → ℕ
lost (Call.sql_close h) j = if h == j then 1 else 0
lost _ j = 0

-- What the call closes, if it closes anything, is open.
abbrev pub Closes : Call → List Handle → Type 0
Closes (Call.sql_close h) l = is_open h l ≡ true
Closes _ l = Unit

pub count-still_open :
    (c : Call) (calls : List Call) (j : Handle)
    → Closes c (still_open calls)
    → count j (still_open (c ∷ calls)) + lost c j ≡ count j (still_open calls) + gained c j
unfolding still_open
count-still_open (Call.sql_open dsn (some h)) calls j o = ground arith
count-still_open (Call.sql_close h) calls j o =
    ground (arith, count-remove h j (still_open calls) o)
count-still_open _ calls j o = refl

pub WellUsed-step :
    (c : Call) (calls : List Call)
    → Meets (λ h. is_open h (still_open calls)) (handle_of c)
    → WellUsed calls
    → WellUsed (c ∷ calls)
WellUsed-step (Call.set_max_open_conns h n) calls o used = (o, used)
WellUsed-step (Call.set_max_idle_conns h n) calls o used = (o, used)
WellUsed-step (Call.set_conn_max_lifetime h n) calls o used = (o, used)
WellUsed-step (Call.sql_ping c h) calls o used = (o, used)
WellUsed-step (Call.sql_query c h text args) calls o used = (o, used)
WellUsed-step (Call.sql_query_row c h text args) calls o used = (o, used)
WellUsed-step (Call.sql_exec c h text args) calls o used = (o, used)
WellUsed-step (Call.rows_close h) calls o used = (o, used)
WellUsed-step (Call.sql_close h) calls o used = (o, used)
WellUsed-step _ calls o used = used

-- The sum of `f` over the numbers below `n`.
abbrev pub sum : ℕ → (ℕ → ℕ) → ℕ
sum zero f = 0
sum (suc n) f = sum n f + f n

pub sum-at : (n i : ℕ) (f : ℕ → ℕ) → i < n → f i ≤ sum n f
sum-at zero i f b = absurd (omega (arith, b))
sum-at (suc n) i f b = elim (Bool-cases (i == n)) [
  | inl last ↦ let e : i ≡ n = ground arith in rw e (omega arith)
  | inr earlier ↦ let low : i < n = ground arith in omega (arith, sum-at n i f low)
]

sum_same :
    (n i : ℕ) (f g : ℕ → ℕ) → n ≤ i → ((j : ℕ) → (i == j) ≡ false → g j ≡ f j) → sum n g ≡ sum n f
sum_same zero i f g h other = refl
sum_same (suc n) i f g h other =
    let apart : (i == n) ≡ false = ground arith in
    omega (arith, other n apart, sum_same n i f g (omega arith) other)

-- A sum changes as its number at one place.
pub sum_change :
    (n i a b : ℕ) (f g : ℕ → ℕ)
    → i < n
    → g i + a ≡ f i + b
    → ((j : ℕ) → (i == j) ≡ false → g j ≡ f j)
    → sum n g + a ≡ sum n f + b
sum_change zero i a b f g h e other = absurd (omega (arith, h))
sum_change (suc n) i a b f g h e other = elim (Bool-cases (i == n)) [
  | inl last ↦
      let eq : i ≡ n = ground arith in
      let e' : g n + a ≡ f n + b = rw eq at e in
      omega (arith, e', sum_same n i f g (omega (arith, eq)) other)
  | inr earlier ↦
      let low : i < n = ground arith in
      omega (arith, other n earlier, sum_change n i a b f g low e other)
]
