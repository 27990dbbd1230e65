-- ===== src/Core/Isolation.antt =====
-- What one application can do to the Redis keys of another one.
use database_router.Shared.{
  ◌≡◌, ◌≢◌, refl, ◌∙◌, false, List, [], ◌∷◌, ◌++◌, arith, Bool-cases, Option-cases, inl, inr,
}
use database_router.Shared.Action.{State, Result}
use database_router.Shared.Int.{ℤ}
use database_router.Text.{Text, codes, text_eq}
use database_router.Text.Laws.{text_eq_iff}
use database_router.Value.{Runtime, Row, Fields}
use database_router.Driver.{Driver}
use database_router.Driver.Calls.{Call, Ctx}
use database_router.Manager.{Manager, with_timeout}
use database_router.Service.Redis.{expiration}
use database_router.Service.Redis.Store.{IsStore}
use database_router.Server.Redis
use database_router.Core.{Failure, named_client}
use database_router.Core.Operations.{redis_set, redis_get}
use database_router.Core.Namespaces.{NoColon, redis_keys_apart}
use database_router.Core.EndToEnd.{router_of}

-- What an application asks of its client.
pub data Request : Type 0 where
  set : Text → Text → ℤ → Request
  get : Text → Request

module _ {W : Type 0} (d : Driver W) (rt : Runtime) (describe : Failure → Text)
    (new_struct : Row → Result Text Fields) (m : Manager) (ctx : Ctx) where
  -- The state behind a request of the application `app`.
  behind_request : Text → Request → State W Call → State W Call
  behind_request app (set key value ttl) s =
      (redis_set rt describe new_struct (named_client app (router_of d rt m ctx)) key value ttl s).1
  behind_request app (get key) s =
      (redis_get rt describe new_struct (named_client app (router_of d rt m ctx)) key s).1

  pub behind_requests : Text → List Request → State W Call → State W Call
  behind_requests app [] s = s
  behind_requests app (q ∷ qs) s = behind_requests app qs (behind_request app q s)

  module _ (store : IsStore d) (app other key : Text) (plain : NoColon app) (plain' : NoColon other)
      (apart : app ≢ other) where
    keys_differ : (k : Text) → text_eq (app ++ codes ":" ++ k) (other ++ codes ":" ++ key) ≡ false
    unfolding named_client
    keys_differ k =
        elim (Bool-cases (text_eq (app ++ codes ":" ++ k) (other ++ codes ":" ++ key))) [
          | inl same ↦ absurd (
              apart
                (redis_keys_apart (router_of d rt m ctx) app other k key plain plain'
                  ((text_eq_iff _ _).0 same)).0)
          | inr differ ↦ differ
        ]

    request-kept :
        (q : Request) (s : State W Call)
        → store.contents (behind_request app q s).world (other ++ codes ":" ++ key)
          ≡ store.contents s.world (other ++ codes ":" ++ key)
    unfolding behind_request redis_set redis_get named_client Redis.set_value Redis.get_value
        database_router.Service.Redis.set_value database_router.Service.Redis.get_value
    request-kept (set k v ttl) s = elim (Option-cases m.redis_client) [
      | inl off ↦ ground arith
      | inr (client, on) ↦ ground (
        arith,
        store.set_other (with_timeout ctx 5) client (app ++ codes ":" ++ k) v
            (other ++ codes ":" ++ key) (expiration ttl) s.world (keys_differ k),
      )
    ]
    request-kept (get k) s = elim (Option-cases m.redis_client) [
      | inl off ↦ ground arith
      | inr (client, on) ↦
          let five : Ctx = with_timeout ctx 5 in
          let mine : Text = app ++ codes ":" ++ k in
          let theirs : Text = other ++ codes ":" ++ key in
          ground (
            arith,
            store.get_keeps five client mine theirs s.world,
            store.ttl_keeps five client mine theirs (d.redis_get five client mine s.world).1,
          )
    ]

    -- Through the client, the handlers and the service, over a Redis that keeps its documented
    -- behaviour: whatever an application sets and gets, whatever fails on the way, the value of each
    -- key of another application stays as it was, if neither namespace holds a colon.
    pub requests-kept :
        (qs : List Request) (s : State W Call)
        → store.contents (behind_requests app qs s).world (other ++ codes ":" ++ key)
          ≡ store.contents s.world (other ++ codes ":" ++ key)
    unfolding behind_requests
    requests-kept [] s = refl
    requests-kept (q ∷ qs) s = requests-kept qs (behind_request app q s) ∙ request-kept q s
