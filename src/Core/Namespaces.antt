-- ===== src/Core/Namespaces.antt =====
-- How far the namespaces of two applications are apart.
use database_router.Shared.{◌≡◌, ◌≢◌, refl, sym, ◌∙◌, [], ◌∷◌, ◌++◌, All, arith, append_assoc}
use database_router.Text.{Text}
use database_router.Core.{Router, named_client}

abbrev pub NoColon : Text → Type 0
NoColon = All (λ c. c ≢ b':')

split_at_colon :
    (a b k j : Text) → NoColon a → NoColon b → a ++ (b':' ∷ k) ≡ b ++ (b':' ∷ j) → (a ≡ b) × (k ≡ j)
split_at_colon [] [] k j h g e = (refl, cc)
split_at_colon [] (d ∷ b) k j h (g, _) e = absurd (ground arith)
split_at_colon (c ∷ a) [] k j (h, _) g e = absurd (ground arith)
split_at_colon (c ∷ a) (d ∷ b) k j (_, h) (_, g) e =
    let rest : (a ≡ b) × (k ≡ j) = split_at_colon a b k j h g (ground arith) in ground arith

module _ {W : Type 0} (r : Router W) where
  -- Two namespaces without a colon share a Redis key only if they are one, with one key in it.
  pub redis_keys_apart :
      (a b k j : Text)
      → NoColon a
      → NoColon b
      → (named_client a r).redis_prefix ++ k ≡ (named_client b r).redis_prefix ++ j
      → (a ≡ b) × (k ≡ j)
  unfolding named_client
  redis_keys_apart a b k j h g e =
      split_at_colon a b k j h g
        (sym (append_assoc a (b':' ∷ []) k) ∙ e ∙ append_assoc b (b':' ∷ []) j)

  -- A namespace with a colon reaches into another one: each key of "a:b" is a key of "a".
  namespaces_overlap :
      (a b k : Text)
      → (named_client (a ++ (b':' ∷ b)) r).redis_prefix ++ k
        ≡ (named_client a r).redis_prefix ++ (b ++ (b':' ∷ k))
  unfolding named_client
  namespaces_overlap a b k = simp append_assoc
