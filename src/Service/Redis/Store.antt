-- ===== src/Service/Redis/Store.antt =====
-- A Redis that keeps its documented behaviour, for keys that do not expire.
use database_router.Shared.{◌≡◌, ◌⊎◌, false, none, some, Option}
use database_router.Shared.Action.{ok}
use database_router.Shared.Int.{ℤ, pos}
use database_router.Text.{Text, text_eq}
use database_router.Driver.{Driver}
use database_router.Driver.Calls.{Ctx, Handle}

-- The abstract state: the value of each key.
abbrev pub Contents : Type 0
Contents = Text → Option Text

abbrev pub number_of : Option Text → ℤ
number_of none = pos 0
number_of (some v) = pos 1

-- The documented behaviour of a Redis whose keys do not expire and that no one else writes to: what
-- it holds, and how the commands of the service change it. A command that fails may or may not have
-- been carried out.
pub record IsStore {W : Type 0} (d : Driver W) : Type 0 where
  pub contents : W → Contents
  pub set_other :
      (ctx : Ctx) (client : Handle) (k v j : Text) (e : ℤ) (w : W)
      → text_eq k j ≡ false
      → contents (d.redis_set ctx client k v e w).1 j ≡ contents w j
  pub set_self :
      (ctx : Ctx) (client : Handle) (k v : Text) (e : ℤ) (w : W)
      → (d.redis_set ctx client k v e w).0 ≡ ok tt
      → contents (d.redis_set ctx client k v e w).1 k ≡ some v
  pub set_failed :
      (ctx : Ctx) (client : Handle) (k v : Text) (e : ℤ) (w : W)
      → (contents (d.redis_set ctx client k v e w).1 k ≡ contents w k)
        ⊎ (contents (d.redis_set ctx client k v e w).1 k ≡ some v)
  pub get_reads :
      (ctx : Ctx) (client : Handle) (k v : Text) (w : W)
      → (d.redis_get ctx client k w).0 ≡ ok v
      → contents w k ≡ some v
  pub get_keeps :
      (ctx : Ctx) (client : Handle) (k j : Text) (w : W)
      → contents (d.redis_get ctx client k w).1 j ≡ contents w j
  pub ttl_keeps :
      (ctx : Ctx) (client : Handle) (k j : Text) (w : W)
      → contents (d.redis_ttl ctx client k w).1 j ≡ contents w j
  pub del_other :
      (ctx : Ctx) (client : Handle) (k j : Text) (w : W)
      → text_eq k j ≡ false
      → contents (d.redis_del ctx client k w).1 j ≡ contents w j
  pub del_self :
      (ctx : Ctx) (client : Handle) (k : Text) (n : ℤ) (w : W)
      → (d.redis_del ctx client k w).0 ≡ ok n
      → (contents (d.redis_del ctx client k w).1 k ≡ none) × (n ≡ number_of (contents w k))
  pub del_failed :
      (ctx : Ctx) (client : Handle) (k : Text) (w : W)
      → (contents (d.redis_del ctx client k w).1 k ≡ contents w k)
        ⊎ (contents (d.redis_del ctx client k w).1 k ≡ none)
