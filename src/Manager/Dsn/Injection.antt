-- ===== src/Manager/Dsn/Injection.antt =====
-- What a connection string says, where a value is empty or brings settings of its own.
use database_router.Shared.{◌≡◌, refl, ap, ◌∙◌, none, some, [], ◌∷◌, ◌++◌, append_assoc}
use database_router.Text.{Text, codes, text_eq}
use database_router.Text.Decimal.{itoa_ℤ}
use database_router.Config.{PostgresConfig}
use database_router.Manager.{conn_str}
use database_router.Manager.Dsn.{set, read, settings, effective}
use database_router.Manager.Dsn.Settings.{
  IsBare, IsBareConfig, read-conn_str, read-before_value, read_end-before_value, itoa_ℤ-IsBare,
  IsBare-dbname,
}

module _ (c : PostgresConfig) (bare : IsBareConfig c) (name host : Text) (bare_name : IsBare name)
    (bare_host : IsBare host) where
  injected :
      settings (conn_str c (name ++ (codes " host=" ++ host)))
      ≡ set (codes "host") c.host
        ∷ set (codes "port") (itoa_ℤ c.port)
        ∷ set (codes "user") c.user
        ∷ set (codes "password") c.password
        ∷ set (codes "dbname") name
        ∷ set (codes "host") host
        ∷ set (codes "sslmode") c.ssl_mode
        ∷ []
  unfolding read
  injected =
      rw
        (
          read-conn_str c bare (name ++ (codes " host=" ++ host)),
          append_assoc name (codes " host=" ++ host) (codes " sslmode=" ++ c.ssl_mode),
          read-before_value (codes "dbname") name
              (codes "host=" ++ (host ++ (codes " sslmode=" ++ c.ssl_mode))) bare_name,
          read-before_value (codes "host") host (codes "sslmode=" ++ c.ssl_mode) bare_host,
          read_end-before_value (codes "sslmode") c.ssl_mode bare.ssl_mode,
        )
        refl

  -- A database name `name host=host` overrides the configured host: the connection is one to `host`,
  -- with the configured user and password, for the database `name`.
  pub effective-injected :
      let l = settings (conn_str c (name ++ (codes " host=" ++ host))) in
      (effective (codes "host") l ≡ some host)
      × (effective (codes "user") l ≡ some c.user)
      × (effective (codes "password") l ≡ some c.password)
      × (effective (codes "dbname") l ≡ some name)
  unfolding effective text_eq
  effective-injected = rw injected (refl, refl, refl, refl)

module _ (c : PostgresConfig) (dbname : Text) (host : IsBare c.host) (user : IsBare c.user)
    (empty : c.password ≡ []) (bare_name : IsBare dbname) (ssl_mode : IsBare c.ssl_mode) where
  without_password :
      settings (conn_str c dbname)
      ≡ set (codes "host") c.host
        ∷ set (codes "port") (itoa_ℤ c.port)
        ∷ set (codes "user") c.user
        ∷ set (codes "password") (codes "dbname=" ++ dbname)
        ∷ set (codes "sslmode") c.ssl_mode
        ∷ []
  unfolding conn_str read
  without_password = rw empty (
      read-before_value (codes "host") c.host _ host
      ∙ ap (λ l. set (codes "host") c.host ∷ l)
          (read-before_value (codes "port") (itoa_ℤ c.port) _ (itoa_ℤ-IsBare c.port)
            ∙ ap (λ l. set (codes "port") (itoa_ℤ c.port) ∷ l)
                (read-before_value (codes "user") c.user _ user
                  ∙ ap (λ l. set (codes "user") c.user ∷ l)
                      (read-before_value (codes "password") (codes "dbname=" ++ dbname)
                          (codes "sslmode=" ++ c.ssl_mode) (IsBare-dbname dbname bare_name)
                        ∙ ap (λ l. set (codes "password") (codes "dbname=" ++ dbname) ∷ l)
                            (read_end-before_value (codes "sslmode") c.ssl_mode ssl_mode)))))

  -- With an empty password, where the other values need no quotes, the setting behind it is read as
  -- the password, and no database is set.
  pub effective-empty_password :
      let l = settings (conn_str c dbname) in
      (effective (codes "password") l ≡ some (codes "dbname=" ++ dbname))
      × (effective (codes "dbname") l ≡ none)
  unfolding effective text_eq
  effective-empty_password = rw without_password (refl, refl)
