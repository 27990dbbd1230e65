-- ===== src/Server/Redis/RoundTrip.antt =====
-- A value that a client sets is the value that it gets.
use database_router.Shared.{◌≡◌, refl, arith, zero, suc, Option-cases, inl, inr}
use database_router.Shared.Action.{State, ok}
use database_router.Shared.Int.{ℤ, pos, negsuc, pos_part, IsInt, wrap}
use database_router.Text.{Text}
use database_router.Value.{Runtime}
use database_router.Driver.{Driver}
use database_router.Driver.Calls.{Call, Ctx, Handle}
use database_router.Manager.{Manager, with_timeout}
use database_router.Service.Redis
use database_router.Service.Redis.{whole_seconds, expiration, second}
use database_router.Service.Backends.{new_redis_service}
use database_router.Server.Messages.{SetValueResponse}
use database_router.Server.Redis.{set_value, get_value}

-- What go-redis reports for a key that was set with an expiration: the expiration, and -1 ns for
-- a key that does not expire.
abbrev pub remaining : ℤ → ℤ
remaining (pos zero) = negsuc 0
remaining e = e

-- The documented behaviour of SET, GET and TTL, where nothing else happens between them: a GET and
-- a TTL behind a successful SET find the value and the time that it set.
pub record IsLawfulRedis {W : Type 0} (d : Driver W) : Type 0 where
  pub get-set :
      (ctx ctx' : Ctx) (client : Handle) (key value : Text) (e : ℤ) (w : W)
      → (d.redis_set ctx client key value e w).0 ≡ ok tt
      → (d.redis_get ctx' client key (d.redis_set ctx client key value e w).1).0 ≡ ok value
  pub ttl-get-set :
      (ctx ctx' ctx'' : Ctx) (client : Handle) (key value : Text) (e : ℤ) (w : W)
      → (d.redis_set ctx client key value e w).0 ≡ ok tt
      → (d.redis_ttl ctx'' client key
          (d.redis_get ctx' client key (d.redis_set ctx client key value e w).1).1).0
        ≡ ok (remaining e)

reported :
    (ttl : ℤ)
    → IsInt 32 ttl
    → wrap 32 (whole_seconds (remaining (expiration ttl))) ≡ pos (pos_part ttl)
unfolding whole_seconds expiration
reported (pos zero) h = refl
reported (pos (suc n)) h = ground arith
reported (negsuc n) h = refl

module _ {W : Type 0} (d : Driver W) (laws : IsLawfulRedis d) (rt : Runtime) (m : Manager)
    (ctx : Ctx) (s : State W Call) where
  -- On a lawful Redis, whenever SetValue with an int32 time to live succeeds, a GetValue of the
  -- same key right behind it returns the value that was set, with the time to live that was asked
  -- for, or 0 if that was negative.
  get_value-set_value :
      (key value : Text) (ttl : ℤ) (r : SetValueResponse)
      → IsInt 32 ttl
      → (set_value (new_redis_service d rt m) ctx key value ttl s).0 ≡ ok r
      → (get_value
          (new_redis_service d rt m)
          ctx
          key
          (set_value (new_redis_service d rt m) ctx key value ttl s).1).0
        ≡ ok (record { key = key; value = value; ttl = pos (pos_part ttl) })
  unfolding set_value get_value Redis.set_value Redis.get_value
  get_value-set_value key value ttl r h e = elim (Option-cases m.redis_client) [
    | inl off ↦ ground arith
    | inr (client, on) ↦
        let five : Ctx = with_timeout ctx 5 in
        ground (
          arith,
          laws.get-set five five client key value (expiration ttl) s.world,
          laws.ttl-get-set five five five client key value (expiration ttl) s.world,
          reported ttl h,
        )
  ]
