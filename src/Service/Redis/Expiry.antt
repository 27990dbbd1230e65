-- ===== src/Service/Redis/Expiry.antt =====
-- Expirations in seconds and in nanoseconds.
use database_router.Shared.{zero, suc, ◌*◌, ◌≡◌, refl, arith}
use database_router.Shared.Int.{ℤ, pos, negsuc, IsInt, pos_part}
use database_router.Service.Redis.{second, expiration}

-- For every int32, the expiration is its number of seconds in nanoseconds, or 0 for a negative one:
-- the product does not overflow int64.
expiration_exact : (ttl : ℤ) → IsInt 32 ttl → expiration ttl ≡ pos (pos_part ttl * second)
unfolding expiration
expiration_exact (pos zero) h = refl
expiration_exact (pos (suc k)) h = ground arith
expiration_exact (negsuc k) h = refl
