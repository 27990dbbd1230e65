-- ===== src/Service/Limits.antt =====
-- How long the calls of the MongoDB and the Redis service may take.
use database_router.Shared.{ℕ, ◌≤◌, none, some, [], All}
use database_router.Text.{Text}
use database_router.Driver.{Driver, Go}
use database_router.Driver.Calls.{Call, Ctx}
use database_router.Manager.{Manager}
use database_router.Service.Mongo
use database_router.Service.Redis

-- The context ends within `n` seconds, and no later than `ctx`, the one of the request.
abbrev EndsWithin : ℕ → Ctx → Ctx → Type 0
EndsWithin n none (some left) = left ≤ n
EndsWithin n (some total) (some left) = (left ≤ n) × (left ≤ total)
EndsWithin n _ none = ⊥

-- A call of the MongoDB driver or of go-redis ends in time.
abbrev Limited : ℕ → Ctx → Call → Type 0
Limited n ctx (Call.list_database_names c h) = EndsWithin n ctx c
Limited n ctx (Call.list_collection_names c h db) = EndsWithin n ctx c
Limited n ctx (Call.insert_one c h db coll doc) = EndsWithin n ctx c
Limited n ctx (Call.find c h db coll) = EndsWithin n ctx c
Limited n ctx (Call.cursor_all c h) = EndsWithin n ctx c
Limited n ctx (Call.cursor_close c h) = EndsWithin n ctx c
Limited n ctx (Call.update_one c h db coll id row) = EndsWithin n ctx c
Limited n ctx (Call.delete_one c h db coll id) = EndsWithin n ctx c
Limited n ctx (Call.mongo_ping c h) = EndsWithin n ctx c
Limited n ctx (Call.redis_ping c h) = EndsWithin n ctx c
Limited n ctx (Call.redis_keys c h pattern) = EndsWithin n ctx c
Limited n ctx (Call.redis_set c h key value e) = EndsWithin n ctx c
Limited n ctx (Call.redis_get c h key) = EndsWithin n ctx c
Limited n ctx (Call.redis_ttl c h key) = EndsWithin n ctx c
Limited n ctx (Call.redis_del c h key) = EndsWithin n ctx c
Limited n ctx (Call.redis_info c h) = EndsWithin n ctx c
Limited n ctx (Call.redis_db_size c h) = EndsWithin n ctx c
Limited n ctx _ = ⊥

-- All calls that `act` makes from a world are limited ones of the two drivers.
abbrev pub IsLimited : {W A : Type 0} → ℕ → Ctx → W → Go W A → Type 0
IsLimited n ctx w act = All (Limited n ctx) (act (record { world = w; calls = [] })).1.calls
