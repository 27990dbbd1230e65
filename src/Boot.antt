-- ===== src/Boot.antt =====
-- cmd/main.go: the program from its start to its end.
pub mod Lifecycle
pub mod Secure
pub mod Use
pub mod Concurrent
use database_router.Shared.{ℕ, String, Option, List, [], ◌∷◌, ◌++◌, if◌then◌else◌}
use database_router.Shared.Action.{
  State, Result, ok, err, Action, pure, raise, lift, perform, attempt, ◌>>=◌, ◌>>◌,
}
use database_router.Text.{Text, codes, is_empty}
use database_router.Value.{Runtime}
use database_router.Config.{Config}
use database_router.Config.Load.{Files, Startup, load, or_fatal, log}
use database_router.Fault.{GoError, error_text}
use database_router.Driver.{Driver, Go}
use database_router.Driver.Calls.{Call, Ctx, Handle}
use database_router.Manager.{Manager, new_manager, close}
use database_router.Tls.{Crypto, Credentials, build, mode, new_loader}
use database_router.Server.Dispatch.{Request, handle}
use database_router.Server.Registry.{Servers, new_servers}

-- net.Listen of a TCP address
pub record Network (W : Type 0) : Type 0 where
  pub listen : Text → W → Result Text Handle × W

-- How grpcServer.Serve returns: without an error after the named signal, by the goroutine that stops
-- the server, or with an error.
pub data Ending : Type 0 where
  signalled : Text → Ending
  broken : Text → Ending

-- What happens while the server serves: the requests, in the order in which they are answered, each
-- with its context, and the end.
pub record Session : Type 0 where
  pub requests : List (Ctx × Request)
  pub ending : Ending

-- An error of the TLS loader or of the manager, by its text.
abbrev by_text : {A : Type 0} → Result GoError A → Result Text A
by_text (ok a) = ok a
by_text (err e) = err (error_text e)

abbrev from_go : {W A : Type 0} → Go W A → Startup W A
from_go act s = (by_text (act s).0, (act s).1)

-- `if port == "" { port = "50051" }`
abbrev pub port_or_default : Text → Text
port_or_default port = if is_empty port then codes "50051" else port

-- `log.Fatalf("failed to listen on :%s: %v", port, err)`
abbrev listening : {A : Type 0} → Text → Result Text A → Result Text A
listening port (ok lis) = ok lis
listening port (err e) = err (codes "failed to listen on :" ++ port ++ codes ": " ++ e)

module _ {W : Type 0} (d : Driver W) (rt : Runtime) where
  handle_all : Servers W → List (Ctx × Request) → State W Call → State W Call
  handle_all srv [] s = s
  handle_all srv ((ctx, q) ∷ rest) s = handle_all srv rest (handle rt srv ctx s q)

  -- grpcServer.Serve of a server with the credentials, with what the goroutine logs
  serve : Credentials → Servers W → Session → Startup W (Unit {0})
  serve creds srv session s =
      let started = record s { calls = Call.serve creds ∷ s.calls } in
      let s' = handle_all srv session.requests started in
      elim session.ending [
        | signalled sig ↦ log (codes "received " ++ sig ++ codes " — shutting down gracefully") s'
        | broken e ↦ (err (codes "gRPC server error: " ++ e), s')
      ]

  -- main behind db.New, without the deferred Close
  pub run_server :
      Crypto → Network W → (String → Text) → Session → Config → Manager → Startup W (Unit {0})
  unfolding serve
  run_server crypto net getenv session cfg m = do
    creds ←
        or_fatal "TLS configuration error: " (lift (by_text (build crypto rt (new_loader cfg.tls))))
    let port = port_or_default (getenv "PORT")
    opened ←
        attempt (perform (λ _. Call.listen (codes ":" ++ port)) (net.listen (codes ":" ++ port)))
    lift (listening port opened)
    log (
        codes "gRPC Database Router starting on :"
        ++ port
        ++ codes "  ["
        ++ mode (new_loader cfg.tls)
        ++ codes "]")
    log (
        codes "PostgreSQL: "
        ++ cfg.postgres.enabled
        ++ codes " | MongoDB: "
        ++ cfg.mongo.enabled
        ++ codes " | Redis: "
        ++ cfg.redis.enabled)
    serve creds (new_servers d rt m) session

  -- `defer dbManager.Close()` runs when main returns, and not behind log.Fatalf.
  pub main : Files W → Crypto → Network W → (String → Text) → Session → Startup W (Unit {0})
  main fs crypto net getenv session = do
    cfg ← load fs getenv
    m ← from_go (new_manager d cfg)
    run_server crypto net getenv session cfg m
    from_go (close d m)
