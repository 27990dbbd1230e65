-- ===== src/Config.antt =====
-- internal/config/config.go: the configuration and its overrides from the environment.
pub mod Load
pub mod FirstRun
pub mod Overrides
use database_router.Shared.{ℕ, String, Bool, true, false, ◌||◌, Option, none, some, if◌then◌else◌}
use database_router.Shared.Int.{ℤ, pos}
use database_router.Text.{Text, codes, text_eq, is_empty}
use database_router.Text.Decimal.{atoi}

pub record TlsConfig : Type 0 where
  pub enabled : Bool
  pub cert_file : Text
  pub key_file : Text
  pub ca_file : Text
  pub client_auth : Text

pub record PostgresConfig : Type 0 where
  pub enabled : Text
  pub host : Text
  pub port : ℤ
  pub user : Text
  pub password : Text
  pub database : Text
  pub ssl_mode : Text

pub record MongoConfig : Type 0 where
  pub enabled : Text
  pub uri : Text
  pub database : Text

pub record RedisConfig : Type 0 where
  pub enabled : Text
  pub host : Text
  pub port : ℤ
  pub password : Text
  pub db : ℤ

pub record Config : Type 0 where
  pub postgres : PostgresConfig
  pub mongo : MongoConfig
  pub redis : RedisConfig
  pub tls : TlsConfig

-- `if v := os.Getenv(…); v != "" { field = v }`
unfoldable pub replace_text : Text → Text → Text
replace_text v old = if is_empty v then old else v

-- `if v := os.Getenv(…); v != "" { if p, err := strconv.Atoi(v); err == nil { field = p } }`
unfoldable pub replace_int : Text → ℤ → ℤ
replace_int v old = if is_empty v then old else elim (atoi v) [ none ↦ old | some p ↦ p ]

unfoldable pub replace_bool : Text → Bool → Bool
replace_bool v old = if is_empty v then old else text_eq v (codes "true") || text_eq v (codes "1")

-- `getenv` is os.Getenv: the empty text for a variable that is not set.
module _ (getenv : String → Text) where
  override_postgres : PostgresConfig → PostgresConfig
  override_postgres c = record c {
    enabled = replace_text (getenv "POSTGRES_ENABLED") c.enabled;
    host = replace_text (getenv "POSTGRES_HOST") c.host;
    port = replace_int (getenv "POSTGRES_PORT") c.port;
    user = replace_text (getenv "POSTGRES_USER") c.user;
    password = replace_text (getenv "POSTGRES_PASSWORD") c.password;
    database = replace_text (getenv "POSTGRES_DB") c.database;
  }

  override_mongo : MongoConfig → MongoConfig
  override_mongo c = record c {
    enabled = replace_text (getenv "MONGO_ENABLED") c.enabled;
    uri = replace_text (getenv "MONGO_URI") c.uri;
    database = replace_text (getenv "MONGO_DATABASE") c.database;
  }

  override_redis : RedisConfig → RedisConfig
  override_redis c = record c {
    enabled = replace_text (getenv "REDIS_ENABLED") c.enabled;
    host = replace_text (getenv "REDIS_HOST") c.host;
    port = replace_int (getenv "REDIS_PORT") c.port;
    password = replace_text (getenv "REDIS_PASSWORD") c.password;
  }

  override_tls : TlsConfig → TlsConfig
  override_tls c = record c {
    enabled = replace_bool (getenv "TLS_ENABLED") c.enabled;
    cert_file = replace_text (getenv "TLS_CERT_FILE") c.cert_file;
    key_file = replace_text (getenv "TLS_KEY_FILE") c.key_file;
    ca_file = replace_text (getenv "TLS_CA_FILE") c.ca_file;
    client_auth = replace_text (getenv "TLS_CLIENT_AUTH") c.client_auth;
  }

  unfoldable pub override_from_env : Config → Config
  unfolding override_postgres override_mongo override_redis override_tls
  override_from_env cfg = record cfg {
    postgres = override_postgres cfg.postgres;
    mongo = override_mongo cfg.mongo;
    redis = override_redis cfg.redis;
    tls = override_tls cfg.tls;
  }
