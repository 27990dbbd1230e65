-- ===== src/Service/Redis.antt =====
-- internal/service/redis.go: the Redis service.
pub mod Expiry
pub mod Expiring
pub mod Store
pub mod Commands
pub mod Concurrent
use database_router.Shared.{
  ℕ, zero, suc, ◌*◌, ◌/◌, ◌^◌, ◌+◌, Bool, Option, none, some, List, if◌then◌else◌,
}
use database_router.Shared.Action.{Result, ok, err, pure, raise, attempt, ◌>>=◌, ◌>>◌}
use database_router.Shared.Int.{ℤ, pos, negsuc, ltb_ℤ, wrap}
use database_router.Text.{Text, codes, is_empty}
use database_router.Text.Decimal.{itoa_ℤ}
use database_router.Fault.{GoError, not_enabled, message}
use database_router.Driver.Run
use database_router.Driver.{Driver, Go}
use database_router.Driver.Calls.{Ctx, Handle}
use database_router.Manager.{Manager, with_timeout}

-- time.Second, in nanoseconds
abbrev pub second : ℕ
second = 1_000_000_000

-- `var expiration time.Duration; if ttl > 0 { expiration = time.Duration(ttl) * time.Second }`;
-- the product is one of int64.
unfoldable pub expiration : ℤ → ℤ
expiration (pos zero) = pos 0
expiration (pos (suc n)) = wrap 64 (pos (suc n * second))
expiration (negsuc n) = pos 0

-- int(ttl.Seconds()): whole seconds, rounded towards zero.
unfoldable pub whole_seconds : ℤ → ℤ
whole_seconds (pos n) = pos (n / second)
whole_seconds (negsuc n) = elim (suc n / second) [ zero ↦ pos 0 | suc k ↦ negsuc k ]

-- `ttl, _ := …`
abbrev duration_or_zero : Result GoError ℤ → ℤ
duration_or_zero (ok t) = t
duration_or_zero (err e) = pos 0

abbrev size_or_zero : Result GoError ℤ → ℤ
size_or_zero (ok n) = n
size_or_zero (err e) = pos 0

module _ {W : Type 0} (d : Driver W) (m : Manager) (ctx : Ctx) where
  -- `if s.db.RedisClient == nil { return ErrNotEnabled("Redis") }`, and the client otherwise
  abbrev redis_enabled : Go W Handle
  redis_enabled = elim m.redis_client [
    | none ↦ raise (not_enabled (codes "Redis"))
    | some client ↦ pure client
  ]

  unfoldable pub list_keys : Text → Go W (List Text)
  list_keys pattern = do
    client ← redis_enabled
    Run.redis_keys d (with_timeout ctx 5) client (if is_empty pattern then codes "*" else pattern)

  unfoldable pub set_value : Text → Text → ℤ → Go W (Unit {0})
  set_value key value ttl = do
    client ← redis_enabled
    Run.redis_set d (with_timeout ctx 5) client key value (expiration ttl)

  -- Any error of GET is reported as a missing key.
  found : Handle → Text → Result GoError Text → Go W (Text × ℤ)
  found client key (err e) = raise (message (codes "key not found"))
  found client key (ok value) = do
    ttl ← attempt (Run.redis_ttl d (with_timeout ctx 5) client key)
    pure (value, whole_seconds (duration_or_zero ttl))

  unfoldable pub get_value : Text → Go W (Text × ℤ)
  unfolding found
  get_value key = do
    client ← redis_enabled
    got ← attempt (Run.redis_get d (with_timeout ctx 5) client key)
    found client key got

  unfoldable pub delete_key : Text → Go W Bool
  delete_key key = do
    client ← redis_enabled
    deleted ← Run.redis_del d (with_timeout ctx 5) client key
    pure (ltb_ℤ (pos 0) deleted)

  unfoldable pub info : Go W (ℤ × Text)
  info = do
    client ← redis_enabled
    text ← Run.redis_info d (with_timeout ctx 5) client
    size ← attempt (Run.redis_db_size d (with_timeout ctx 5) client)
    pure (size_or_zero size, text)

  unfoldable pub test_connection : Go W (Text × Text)
  test_connection = do
    client ← redis_enabled
    Run.redis_ping d (with_timeout ctx 5) client
    pure (m.config.redis.host, itoa_ℤ m.config.redis.port)
