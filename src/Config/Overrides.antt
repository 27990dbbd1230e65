-- ===== src/Config/Overrides.antt =====
-- What the environment changes in a configuration.
use database_router.Shared.{ℕ, ◌<◌, ◌^◌, String, ◌≡◌, refl, Bool, none, false, ◌≢◌, [], ◌∷◌, arith}
use database_router.Shared.Int.{ℤ, pos}
use database_router.Text.{Text, is_empty}
use database_router.Text.Decimal.{atoi, itoa, atoi-itoa, itoa-ne-nil}
use database_router.Config.{Config, replace_text, replace_int, replace_bool, override_from_env}

replace_text_idem : (v old : Text) → replace_text v (replace_text v old) ≡ replace_text v old
unfolding replace_text
replace_text_idem v old = ground arith

replace_int_idem : (v : Text) (old : ℤ) → replace_int v (replace_int v old) ≡ replace_int v old
unfolding replace_int
replace_int_idem v old = ground arith

replace_bool_idem :
    (v : Text) (old : Bool) → replace_bool v (replace_bool v old) ≡ replace_bool v old
unfolding replace_bool
replace_bool_idem v old = ground arith

is_empty_of_ne-nil : (s : Text) → s ≢ [] → is_empty s ≡ false
is_empty_of_ne-nil [] h = absurd (h refl)
is_empty_of_ne-nil (c ∷ s) h = refl

is_empty-itoa : (n : ℕ) → is_empty (itoa n) ≡ false
is_empty-itoa n = is_empty_of_ne-nil (itoa n) (itoa-ne-nil n)

module _ (getenv : String → Text) where
  -- Overriding a configuration twice is overriding it once, and the two settings without a variable,
  -- the SSL mode of PostgreSQL and the number of the Redis database, are never changed.
  override_from_env_idem :
      (cfg : Config)
      → (override_from_env getenv (override_from_env getenv cfg) ≡ override_from_env getenv cfg)
        × ((override_from_env getenv cfg).postgres.ssl_mode ≡ cfg.postgres.ssl_mode)
        × ((override_from_env getenv cfg).redis.db ≡ cfg.redis.db)
  unfolding override_from_env
  override_from_env_idem cfg =
      (simp (replace_text_idem, replace_int_idem, replace_bool_idem), refl, refl)

  -- The port variable of PostgreSQL, where it holds a decimal number below 2 ^ 63, sets the port to it.
  -- One of Redis that Atoi refuses is as good as not set.
  override-ports :
      (cfg : Config) (n : ℕ)
      → n < 2 ^ 63
      → getenv "POSTGRES_PORT" ≡ itoa n
      → atoi (getenv "REDIS_PORT") ≡ none
      → ((override_from_env getenv cfg).postgres.port ≡ pos n)
        × ((override_from_env getenv cfg).redis.port ≡ cfg.redis.port)
  unfolding override_from_env replace_int
  override-ports cfg n h set bad =
      (rw (set, atoi-itoa n h) (rw (is_empty-itoa n) refl), ground arith)
