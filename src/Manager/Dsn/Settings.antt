-- ===== src/Manager/Dsn/Settings.antt =====
-- What a connection string says, where its values need no quotes.
use database_router.Shared.{
  ℕ, suc, ◌≡◌, ◌≢◌, refl, ap, ◌∙◌, false, [], ◌∷◌, ◌++◌, All, arith, append_assoc, append-nil, ◌==◌,
}
use database_router.Shared.Int.{ℤ, pos, negsuc}
use database_router.Text.{Text, codes, is_space}
use database_router.Text.Decimal.{IsDigit, itoa, itoa_ℤ, itoa-IsDigit, itoa-ne-nil}
use database_router.Config.{PostgresConfig}
use database_router.Manager.{conn_str}
use database_router.Manager.Dsn.{set, read, settings, between, before_value, in_value}

-- A character that stands for itself.
abbrev pub IsPlain : ℕ → Type 0
IsPlain c = (is_space c ≡ false) × (c == b'\'' ≡ false) × (c == b'\\' ≡ false)

-- A value that needs no quotes.
abbrev pub IsBare : Text → Type 0
IsBare [] = ⊥
IsBare (c ∷ s) = IsPlain c × All IsPlain s

read-in_value :
    (k v s rest : Text)
    → All IsPlain s
    → read (in_value k v) (s ++ (b' ' ∷ rest)) ≡ set k (v ++ s) ∷ read between rest
unfolding read
read-in_value k v [] rest h = rw append-nil
read-in_value k v (c ∷ s) rest (hc, h) =
    rw (hc.0, hc.2)
      (read-in_value k (v ++ c ∷ []) s rest h
        ∙ ap (λ w. set k w ∷ read between rest) (append_assoc v (c ∷ []) s))

read_end-in_value : (k v s : Text) → All IsPlain s → read (in_value k v) s ≡ set k (v ++ s) ∷ []
unfolding read
read_end-in_value k v [] h = rw append-nil
read_end-in_value k v (c ∷ s) (hc, h) =
    rw (hc.0, hc.2)
      (read_end-in_value k (v ++ c ∷ []) s h ∙ ap (λ w. set k w ∷ []) (append_assoc v (c ∷ []) s))

-- A bare value is read up to the space behind it.
pub read-before_value :
    (k v rest : Text)
    → IsBare v
    → read (before_value k) (v ++ (b' ' ∷ rest)) ≡ set k v ∷ read between rest
unfolding read
read-before_value k [] rest h = absurd h
read-before_value k (c ∷ s) rest (hc, h) = rw (hc.0, hc.1, hc.2) (read-in_value k (c ∷ []) s rest h)

pub read_end-before_value : (k v : Text) → IsBare v → read (before_value k) v ≡ set k v ∷ []
unfolding read
read_end-before_value k [] h = absurd h
read_end-before_value k (c ∷ s) (hc, h) = rw (hc.0, hc.1, hc.2) (read_end-in_value k (c ∷ []) s h)

IsPlain-of_IsDigit : (c : ℕ) → IsDigit c → IsPlain c
unfolding is_space
IsPlain-of_IsDigit c h = ground arith

All-IsPlain : (s : Text) → All IsDigit s → All IsPlain s
All-IsPlain [] h = tt
All-IsPlain (c ∷ s) (hc, h) = (IsPlain-of_IsDigit c hc, All-IsPlain s h)

IsBare-of_digits : (s : Text) → s ≢ [] → All IsDigit s → IsBare s
IsBare-of_digits [] e h = absurd (e refl)
IsBare-of_digits (c ∷ s) e (hc, h) = (IsPlain-of_IsDigit c hc, All-IsPlain s h)

pub itoa_ℤ-IsBare : (n : ℤ) → IsBare (itoa_ℤ n)
unfolding itoa_ℤ is_space
itoa_ℤ-IsBare (pos n) = IsBare-of_digits (itoa n) (itoa-ne-nil n) (itoa-IsDigit n)
itoa_ℤ-IsBare (negsuc n) = ((refl, refl, refl), All-IsPlain (itoa (suc n)) (itoa-IsDigit (suc n)))

-- A setting is itself a value that needs no quotes.
pub IsBare-dbname : (dbname : Text) → IsBare dbname → IsBare (codes "dbname=" ++ dbname)
unfolding is_space
IsBare-dbname [] h = absurd h
IsBare-dbname (c ∷ s) (hc, h) = ground arith

-- The values of a configuration that are copied into a connection string need no quotes.
pub record IsBareConfig (c : PostgresConfig) : Type 0 where
  pub host : IsBare c.host
  pub user : IsBare c.user
  pub password : IsBare c.password
  pub ssl_mode : IsBare c.ssl_mode

module _ (c : PostgresConfig) (bare : IsBareConfig c) where
  -- The settings in front of the name of the database.
  pub read-conn_str :
      (dbname : Text)
      → settings (conn_str c dbname)
        ≡ set (codes "host") c.host
          ∷ set (codes "port") (itoa_ℤ c.port)
          ∷ set (codes "user") c.user
          ∷ set (codes "password") c.password
          ∷ read (before_value (codes "dbname")) (dbname ++ (codes " sslmode=" ++ c.ssl_mode))
  unfolding conn_str read
  read-conn_str dbname =
      read-before_value (codes "host") c.host _ bare.host
      ∙ ap (λ l. set (codes "host") c.host ∷ l)
          (read-before_value (codes "port") (itoa_ℤ c.port) _ (itoa_ℤ-IsBare c.port)
            ∙ ap (λ l. set (codes "port") (itoa_ℤ c.port) ∷ l)
                (read-before_value (codes "user") c.user _ bare.user
                  ∙ ap (λ l. set (codes "user") c.user ∷ l)
                      (read-before_value (codes "password") c.password _ bare.password)))

  -- Where no value needs quotes, a connection string reads as exactly the six settings, each
  -- with its value.
  pub settings-conn_str :
      (dbname : Text)
      → IsBare dbname
      → settings (conn_str c dbname)
        ≡ set (codes "host") c.host
          ∷ set (codes "port") (itoa_ℤ c.port)
          ∷ set (codes "user") c.user
          ∷ set (codes "password") c.password
          ∷ set (codes "dbname") dbname
          ∷ set (codes "sslmode") c.ssl_mode
          ∷ []
  unfolding read
  settings-conn_str dbname h =
      rw
        (
          read-conn_str dbname,
          read-before_value (codes "dbname") dbname (codes "sslmode=" ++ c.ssl_mode) h,
          read_end-before_value (codes "sslmode") c.ssl_mode bare.ssl_mode,
        )
        refl
