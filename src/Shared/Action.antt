-- ===== src/Shared/Action.antt =====
-- Go functions that call a driver and may return an error. The state is the outside world, which
-- only the driver can read, and the calls made so far, the latest first.
use mathlib.Core.Path.{◌≡◌, refl}
use mathlib.Core.Logic.{◌⊎◌, inl, inr}
use mathlib.Core.List.{List, ◌∷◌}

-- A result `(v, err)`: the value where `err` is nil, and the error otherwise.
pub data Result {ℓ} (E A : Type ℓ) : Type ℓ where
  ok : A → Result E A
  err : E → Result E A

pub Result-cases :
    {E A : Type 0} (r : Result E A) → ((a : A) × (r ≡ ok a)) ⊎ ((e : E) × (r ≡ err e))
Result-cases (ok a) = inl (a, refl)
Result-cases (err e) = inr (e, refl)

pub record State (W C : Type 0) : Type 0 where
  pub world : W
  pub calls : List C

-- `W` is the world, `C` a call of a driver, `E` an error.
abbrev pub Action : Type 0 → Type 0 → Type 0 → Type 0 → Type 0
Action W C E A = State W C → Result E A × State W C

module _ {W C E A : Type 0} where
  abbrev pub pure : A → Action W C E A
  pure a s = (ok a, s)

  abbrev pub raise : E → Action W C E A
  raise e s = (err e, s)

  abbrev pub lift : Result E A → Action W C E A
  lift r s = (r, s)

  -- One call of a driver: it answers from the world, and the call is recorded with its answer.
  abbrev pub perform : (Result E A → C) → (W → Result E A × W) → Action W C E A
  perform c op s =
      ((op s.world).0, record { world = (op s.world).1; calls = c (op s.world).0 ∷ s.calls })

  -- `v, err := m`, where the code goes on in both cases.
  abbrev pub attempt : Action W C E A → Action W C E (Result E A)
  attempt m s = (ok (m s).0, (m s).1)

  -- `defer f()`: `f` runs after `m`, whether or not `m` returned an error.
  abbrev pub finally : Action W C E A → Action W C E (Unit {0}) → Action W C E A
  finally m f s = ((m s).0, (f (m s).1).1)

module _ {W C E A B : Type 0} where
  abbrev continue : Result E A → (A → Action W C E B) → Action W C E B
  continue (ok a) f s = f a s
  continue (err e) f s = (err e, s)

  -- `x, err := m; if err != nil { return err }`
  infixl 10 ◌>>=◌ ◌>>◌
  abbrev pub ◌>>=◌ : Action W C E A → (A → Action W C E B) → Action W C E B
  ◌>>=◌ m f s = continue (m s).0 f (m s).1

  abbrev pub ◌>>◌ : Action W C E A → Action W C E B → Action W C E B
  m >> n = m >>= λ _. n
