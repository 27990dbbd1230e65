-- ===== src/Service/Postgres/Tables/Times.antt =====
-- How often a change is carried out by two statements that may fail.
use mathlib.Core.List.Perm
use database_router.Shared.{ℕ, ◌≤◌, ◌⊎◌, arith, inl, inr}
use database_router.Service.Postgres.Tables.{Tables, Change, Semantics, Same, Carried, Times}

pub Same-refl : (f : Tables) → Same f f
Same-refl f j = Perm.refl (f j)

Same-trans : (f g h : Tables) → Same f g → Same g h → Same f h
Same-trans f g h a b j = Perm.trans (a j) (b j)

module _ (sem : Semantics) (c : Change) where
  -- How often a change has been carried out between two states: not at all, or once.
  abbrev pub AtMostOnce : Tables → Tables → Type 0
  AtMostOnce f g = Same f g ⊎ Carried sem f c g

  pub once : (f g : Tables) → Carried sem f c g → Times sem 1 f c g
  once f g done = (f, g, Same-refl f, done, Same-refl g)

  pub Times-AtMostOnce : (f g : Tables) → AtMostOnce f g → (n : ℕ) × (n ≤ 1) × Times sem n f c g
  Times-AtMostOnce f g (inl same) = (0, omega arith, same)
  Times-AtMostOnce f g (inr done) = (1, omega arith, once f g done)

  pub twice :
      (f g h : Tables)
      → AtMostOnce f g
      → Carried sem g c h
      → (n : ℕ) × (1 ≤ n) × (n ≤ 2) × Times sem n f c h
  twice f g h (inl same) done = (1, omega arith, omega arith, (g, h, same, done, Same-refl h))
  twice f g h (inr first) done =
      (2, omega arith, omega arith, (f, g, Same-refl f, first, once g h done))

  pub at_most_twice :
      (f g h : Tables) → AtMostOnce f g → AtMostOnce g h → (n : ℕ) × (n ≤ 2) × Times sem n f c h
  at_most_twice f g h (inl same) (inl then) = (0, omega arith, Same-trans f g h same then)
  at_most_twice f g h (inr first) (inl then) = (1, omega arith, (f, g, Same-refl f, first, then))
  at_most_twice f g h before (inr done) =
      let (n, low, high, times) = twice f g h before done in (n, high, times)
