-- ===== src/Service/Postgres/Queries.antt =====
-- How ExecuteQuery reads its statement.
use database_router.Shared.{
  ◌≡◌, refl, ap, ◌∙◌, true, [], ◌∷◌, ◌++◌, all, arith, append-nil, sym, Bool-cases, inl, inr,
}
use database_router.Text.{Text, is_space, trim_left, trim_right, trim_space}
use database_router.Value.{Runtime}
use database_router.Driver.{Driver}
use database_router.Driver.Calls.{Ctx}
use database_router.Manager.{Manager}
use database_router.Service.Postgres.{execute_query}

trim_left-spaces : (pre s : Text) → all is_space pre ≡ true → trim_left (pre ++ s) ≡ trim_left s
unfolding trim_left
trim_left-spaces [] s h = refl
trim_left-spaces (c ∷ pre) s h = ground (arith, trim_left-spaces pre s)

trim_right_blank : (s : Text) → all is_space s ≡ true → trim_right s ≡ []
unfolding trim_right
trim_right_blank [] h = refl
trim_right_blank (c ∷ s) h = ground (arith, trim_right_blank s)

trim_right-spaces :
    (s post : Text) → all is_space post ≡ true → trim_right (s ++ post) ≡ trim_right s
unfolding trim_right
trim_right-spaces [] post h = trim_right_blank post h
trim_right-spaces (c ∷ s) post h = ground (arith, trim_right-spaces s post h)

trim_space-right :
    (s post : Text) → all is_space post ≡ true → trim_space (s ++ post) ≡ trim_space s
unfolding trim_space
trim_space-right [] post h =
    ap trim_right (ap trim_left (sym (append-nil post)) ∙ trim_left-spaces post [] h)
trim_space-right (c ∷ s) post h = elim (Bool-cases (is_space c)) [
  | inl space ↦ rw space (trim_space-right s post h)
  | inr other ↦ rw other (trim_right-spaces (c ∷ s) post h)
]

-- White space around a text is not seen by what trims it.
trim_space-padded :
    (pre s post : Text)
    → all is_space pre ≡ true
    → all is_space post ≡ true
    → trim_space (pre ++ (s ++ post)) ≡ trim_space s
unfolding trim_space
trim_space-padded pre s post h k =
    ap trim_right (trim_left-spaces pre (s ++ post) h) ∙ trim_space-right s post k

module _ {W : Type 0} (d : Driver W) (rt : Runtime) (m : Manager) (ctx : Ctx) where
  -- White space before and behind a query changes nothing of what ExecuteQuery does, calls and
  -- results.
  execute_query-padded :
      (pre query post database : Text)
      → all is_space pre ≡ true
      → all is_space post ≡ true
      → execute_query d rt m ctx (pre ++ (query ++ post)) database
        ≡ execute_query d rt m ctx query database
  unfolding execute_query
  execute_query-padded pre query post database h k = rw (trim_space-padded pre query post h k) refl
