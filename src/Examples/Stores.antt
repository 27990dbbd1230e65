-- ===== src/Examples/Stores.antt =====
-- Examples for what the Redis service keeps.
use database_router.Shared.{
  ℕ, zero, suc, ◌≡◌, refl, false, none, some, Option, List, [], ◌∷◌, ◌++◌, arith, inr,
  if◌then◌else◌,
}
use database_router.Shared.Action.{Result, ok, err}
use database_router.Shared.Int.{ℤ, pos, ltb_ℤ}
use database_router.Text.{Text, codes, text_eq}
use database_router.Text.Laws.{text_eq_refl, text_eq_iff}
use database_router.Value.{Row, Fields}
use database_router.Fault.{GoError, message}
use database_router.Driver.{Driver}
use database_router.Core.{Failure}
use database_router.Core.Isolation.{Request, behind_requests, requests-kept}
use database_router.Service.Redis.Store.{IsStore, number_of}
use database_router.Service.Redis.Commands.{Command}
use database_router.Service.Redis.Expiring
use database_router.Service.Redis.Expiring.{Contents}
use database_router.Service.Redis.Concurrent.{Task, asked, System}
use database_router.Examples.Unreachable.{unreachable}
use database_router.Examples.World.{Keys, driver, runtime, manager, fresh}

held : Text → Keys → Option Text
held key [] = none
held key ((k, v, t) ∷ rest) = if text_eq k key then some v else held key rest

erase : Text → Keys → Keys
erase key [] = []
erase key ((k, v, t) ∷ rest) =
    let kept = erase key rest in if text_eq k key then kept else (k, v, t) ∷ kept

abbrev read_out : Option Text → Result GoError Text
read_out none = err (message (codes "redis: nil"))
read_out (some v) = ok v

-- The world of the examples with a Redis that deletes.
abbrev store : Driver Keys
unfolding held erase
store = record driver {
  redis_get = λ ctx h key w. (read_out (held key w), w);
  redis_del = λ ctx h key w. (ok (number_of (held key w)), erase key w);
}

held-erase_self : (key : Text) (w : Keys) → held key (erase key w) ≡ none
unfolding held erase
held-erase_self key [] = refl
held-erase_self key ((k, v, t) ∷ rest) = ground (arith, held-erase_self key rest)

held-erase_other :
    (key j : Text) (w : Keys) → text_eq key j ≡ false → held j (erase key w) ≡ held j w
unfolding held erase
held-erase_other key j [] h = refl
held-erase_other key j ((k, v, t) ∷ rest) h =
    ground
      (arith, held-erase_other key j rest, text_eq_iff k key, text_eq_iff k j, text_eq_iff key j)

store-IsStore : IsStore store
unfolding held store
store-IsStore = record {
  contents = λ w key. held key w;
  set_other = λ ctx client k v j e w h. rw h refl;
  set_self = λ ctx client k v e w h. rw (text_eq_refl k) refl;
  set_failed = λ ctx client k v e w. inr (rw (text_eq_refl k) refl);
  get_reads = λ ctx client k v w h. ground arith;
  get_keeps = λ ctx client k j w. refl;
  ttl_keeps = λ ctx client k j w. refl;
  del_other = λ ctx client k j w h. held-erase_other k j w h;
  del_self = λ ctx client k n w h. (held-erase_self k w, ground arith);
  del_failed = λ ctx client k w. inr (held-erase_self k w);
}

abbrev describe : Failure → Text
describe e = []

abbrev new_struct : Row → Result Text Fields
new_struct row = err (codes "invalid type")

abbrev requests : List Request
requests =
    Request.set (codes "cart") (codes "3") (pos 60)
    ∷ Request.get (codes "cart")
    ∷ Request.get (codes "basket")
    ∷ []

requests-kept_example :
    store-IsStore.contents
      (behind_requests store runtime describe new_struct manager none
        (codes "shop")
        requests
        fresh).world
      (codes "blog" ++ codes ":" ++ codes "cart")
    ≡ store-IsStore.contents [] (codes "blog" ++ codes ":" ++ codes "cart")
requests-kept_example =
    requests-kept store runtime describe new_struct manager none store-IsStore (codes "shop")
      (codes "blog") (codes "cart") (ground arith) (ground arith) (ground arith) requests fresh

-- A Redis whose contents are the world. Time passes with each TTL: every key that expires is gone then.
abbrev vanished : Option (Text × ℤ) → Option (Text × ℤ)
vanished none = none
vanished (some (v, e)) = if ltb_ℤ (pos 0) e then none else some (v, e)

abbrev value_of : Option (Text × ℤ) → Result GoError Text
value_of none = err (message (codes "redis: nil"))
value_of (some (v, e)) = ok v

abbrev expiring : Driver Contents
expiring = record unreachable {
  redis_set = λ ctx h k v e w. (ok tt, λ j. if text_eq k j then some (v, e) else w j);
  redis_get = λ ctx h k w. (value_of (w k), w);
  redis_ttl = λ ctx h k w. (ok (pos 0), λ j. vanished (w j));
  redis_del = λ ctx h k w. (ok (Expiring.number_of (w k)), λ j. if text_eq k j then none else w j);
}

-- Two requests on one key: the second one deletes behind the first one, which has let the key expire.
abbrev tasks : ℕ → Task
tasks zero = asked (Command.get (codes "cart"))
tasks (suc i) = asked (Command.delete (codes "cart"))

abbrev system : System Contents
system = record {
  state = record {
    world = λ j. if text_eq (codes "cart") j then some (codes "3", pos 60_000_000_000) else none;
    calls = [];
  };
  tasks = tasks;
}

abbrev schedule : List ℕ
schedule = 0 ∷ 0 ∷ 1 ∷ []
