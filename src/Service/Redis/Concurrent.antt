-- ===== src/Service/Redis/Concurrent.antt =====
-- Requests to the Redis service that run at the same time: the calls of their goroutines reach Redis
-- in any order.
pub mod Linear
use mathlib.Core.Path.{subst}
use database_router.Shared.{
  ℕ, ◌≡◌, refl, sym, ap, ◌∙◌, fun_ext, true, false, none, some, Option, List, [], ◌∷◌, ◌++◌, map,
  arith, ◌==◌, Option-cases, Bool-cases, inl, inr, if◌then◌else◌, append_assoc, append-nil,
}
use database_router.Shared.Action.{State, Result, ok, err, Result-cases}
use database_router.Shared.Int.{ℤ, pos, ltb_ℤ}
use database_router.Text.{Text, text_eq}
use database_router.Text.Laws.{text_eq_iff}
use database_router.Fault.{GoError}
use database_router.Driver.Run
use database_router.Driver.{Driver}
use database_router.Driver.Calls.{Call, Ctx, Handle}
use database_router.Manager.{Manager, with_timeout}
use database_router.Service.Redis.{set_value, get_value, delete_key, expiration}
use database_router.Service.Redis.Commands.{
  Command, set, get, delete, Reply, stored, failed, value, deleted, execute, set_reply,
}

-- How far a request is: GetValue makes a second call behind a GET that succeeds.
pub data Task : Type 0 where
  asked : Command → Task
  read_value : Handle → Text → Text → Task
  answered : Command → Reply → Task

abbrev behind_get : Handle → Text → Result GoError Text → Task
behind_get client k (ok v) = read_value client k v
behind_get client k (err e) = answered (get k) failed

abbrev behind_del : Text → Result GoError ℤ → Task
behind_del k (ok n) = answered (delete k) (deleted (ltb_ℤ (pos 0) n))
behind_del k (err e) = answered (delete k) failed

-- What a request has been told, from the call on that decides it.
abbrev pub told : Task → List (Command × Reply)
told (asked c) = []
told (read_value client k v) = (get k, value v) ∷ []
told (answered c r) = (c, r) ∷ []

-- Requests, by number, over one Redis.
pub record System (W : Type 0) : Type 0 where
  pub state : State W Call
  pub tasks : ℕ → Task

-- What a step from the first task to the second one has decided.
abbrev pub decided : Task → Task → List (Command × Reply)
decided (asked c) t = told t
decided _ t = []

-- The commands and the replies of a history, and those of one request.
abbrev pub commands : List (ℕ × Command × Reply) → List Command
commands [] = []
commands ((i, c, r) ∷ h) = c ∷ commands h

abbrev pub replies : List (ℕ × Command × Reply) → List Reply
replies [] = []
replies ((i, c, r) ∷ h) = r ∷ replies h

abbrev pub of_request : ℕ → List (ℕ × Command × Reply) → List (Command × Reply)
of_request i [] = []
of_request i ((j, c, r) ∷ h) = if j == i then (c, r) ∷ of_request i h else of_request i h

abbrev pub tagged : ℕ → List (Command × Reply) → List (ℕ × Command × Reply)
tagged i [] = []
tagged i ((c, r) ∷ l) = (i, c, r) ∷ tagged i l

module _ {W : Type 0} (d : Driver W) (m : Manager) (ctx : Ctx) where
  pub first_call : Handle → Command → State W Call → Task × State W Call
  first_call client (set k v ttl) s =
      let (r, s') = Run.redis_set d (with_timeout ctx 5) client k v (expiration ttl) s in
      (answered (set k v ttl) (set_reply r), s')
  first_call client (get k) s =
      let (r, s') = Run.redis_get d (with_timeout ctx 5) client k s in (behind_get client k r, s')
  first_call client (delete k) s =
      let (r, s') = Run.redis_del d (with_timeout ctx 5) client k s in (behind_del k r, s')

  -- A request up to its next call.
  pub advance : Task → State W Call → Task × State W Call
  unfolding first_call
  advance (asked c) s = elim m.redis_client [
    | none ↦ (answered c failed, s)
    | some client ↦ first_call client c s
  ]
  advance (read_value client k v) s =
      (answered (get k) (value v), (Run.redis_ttl d (with_timeout ctx 5) client k s).1)
  advance (answered c r) s = (answered c r, s)

  -- With nothing in between, the calls of a request are those of the service.
  pub advance-execute :
      (c : Command) (s : State W Call)
      → advance (advance (asked c) s).0 (advance (asked c) s).1
        ≡ (answered c (execute d m ctx c s).0, (execute d m ctx c s).1)
  unfolding advance execute set_value get_value delete_key
  advance-execute (set k v ttl) s = ground arith
  advance-execute (get k) s = ground arith
  advance-execute (delete k) s = ground arith

  -- The request `i` makes its next call.
  pub step : ℕ → System W → System W
  step i sys =
      let (t, s) = advance (sys.tasks i) sys.state in
      record { state = s; tasks = λ j. if i == j then t else sys.tasks j }

  -- A schedule names the request that makes the next call.
  pub run : List ℕ → System W → System W
  unfolding step
  run [] sys = sys
  run (i ∷ schedule) sys = run schedule (step i sys)

  -- The commands in the order in which their calls have decided them, each with its request and reply.
  pub history : List ℕ → System W → List (ℕ × Command × Reply)
  history [] sys = []
  history (i ∷ schedule) sys =
      tagged i (decided (sys.tasks i) (advance (sys.tasks i) sys.state).0)
      ++ history schedule (step i sys)
