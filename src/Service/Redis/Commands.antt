-- ===== src/Service/Redis/Commands.antt =====
-- The commands of the Redis service that are about one key, with their replies.
use database_router.Shared.{Bool}
use database_router.Shared.Action.{State, Result, ok, err}
use database_router.Shared.Int.{ℤ}
use database_router.Text.{Text}
use database_router.Fault.{GoError}
use database_router.Driver.{Driver}
use database_router.Driver.Calls.{Call, Ctx}
use database_router.Manager.{Manager}
use database_router.Service.Redis.{set_value, get_value, delete_key}

pub data Command : Type 0 where
  set : Text → Text → ℤ → Command
  get delete : Text → Command

pub data Reply : Type 0 where
  stored failed : Reply
  value : Text → Reply
  deleted : Bool → Reply

abbrev pub set_reply : Result GoError (Unit {0}) → Reply
set_reply (ok _) = stored
set_reply (err e) = failed

abbrev get_reply : Result GoError (Text × ℤ) → Reply
get_reply (ok (v, ttl)) = value v
get_reply (err e) = failed

abbrev delete_reply : Result GoError Bool → Reply
delete_reply (ok b) = deleted b
delete_reply (err e) = failed

module _ {W : Type 0} (d : Driver W) (m : Manager) (ctx : Ctx) where
  -- A command by the operation of the service.
  unfoldable pub execute : Command → State W Call → Reply × State W Call
  execute (set k v ttl) s =
      (set_reply (set_value d m ctx k v ttl s).0, (set_value d m ctx k v ttl s).1)
  execute (get k) s = (get_reply (get_value d m ctx k s).0, (get_value d m ctx k s).1)
  execute (delete k) s = (delete_reply (delete_key d m ctx k s).0, (delete_key d m ctx k s).1)
