-- ===== src/Boot/Secure.antt =====
-- With which credentials the program serves.
use database_router.Shared.{String, ◌≡◌, refl, ◌∙◌, List, [], ◌∷◌, ◌++◌, arith, inl, inr}
use database_router.Shared.Action.{State, Result, ok, err, Result-cases}
use database_router.Text.{Text, codes}
use database_router.Value.{Runtime}
use database_router.Fault.{GoError, error_text}
use database_router.Config.{Config}
use database_router.Config.Load.{Files, load}
use database_router.Driver.{Driver}
use database_router.Driver.Calls.{Call, Ctx, Handle}
use database_router.Driver.Handles.{served}
use database_router.Manager.{Manager, new_manager, close}
use database_router.Tls.{Crypto, Credentials, build, new_loader}
use database_router.Server.Dispatch.{Request, handle}
use database_router.Server.Registry.{new_servers}
use database_router.Server.Dispatch.Effort.{handle-Modest}
use database_router.Boot.{Network, Session, handle_all, serve, run_server, main, port_or_default}

served-load :
    {W : Type 0} (fs : Files W) (getenv : String → Text) (s : State W Call)
    → served (load fs getenv s).1.calls ≡ served s.calls
unfolding load served
served-load fs getenv s = ground arith

-- What is served with: the credentials, if they could be built and the port is open.
abbrev pub serving : Result GoError Credentials → Result Text Handle → List Credentials
serving (ok creds) (ok lis) = creds ∷ []
serving _ _ = []

module _ {W : Type 0} (d : Driver W) (rt : Runtime) where
  served-new_manager :
      (cfg : Config) (s : State W Call) → served (new_manager d cfg s).1.calls ≡ served s.calls
  unfolding new_manager served
  served-new_manager cfg s = ground arith

  served-close : (m : Manager) (s : State W Call) → served (close d m s).1.calls ≡ served s.calls
  unfolding close served
  served-close m s = ground arith

  served-handle_all :
      (m : Manager) (requests : List (Ctx × Request)) (s : State W Call)
      → served (handle_all d rt (new_servers d rt m) requests s).calls ≡ served s.calls
  unfolding handle_all
  served-handle_all m [] s = refl
  served-handle_all m ((ctx, q) ∷ rest) s =
      served-handle_all m rest (handle rt (new_servers d rt m) ctx s q)
      ∙ (handle-Modest d rt m ctx s q).1

  served-serve :
      (creds : Credentials) (m : Manager) (session : Session) (s : State W Call)
      → served (serve d rt creds (new_servers d rt m) session s).1.calls ≡ creds ∷ served s.calls
  unfolding serve served
  served-serve creds m session s = ground (
    arith,
    served-handle_all m session.requests (record s { calls = Call.serve creds ∷ s.calls }),
  )

  served-run_server :
      (crypto : Crypto) (net : Network W) (getenv : String → Text) (session : Session)
      (cfg : Config) (m : Manager) (s : State W Call)
      → served (run_server d rt crypto net getenv session cfg m s).1.calls
        ≡ serving
            (build crypto rt (new_loader cfg.tls))
            (net.listen (codes ":" ++ port_or_default (getenv "PORT")) s.world).0
          ++ served s.calls
  unfolding run_server served
  served-run_server crypto net getenv session cfg m s =
      elim (Result-cases (build crypto rt (new_loader cfg.tls))) [
        | inr (e, failed) ↦ rw failed refl
        | inl (creds, built) ↦
            let address : Text = codes ":" ++ port_or_default (getenv "PORT") in
            elim (Result-cases (net.listen address s.world).0) [
              | inr (e, failed) ↦ rw (built, failed) refl
              | inl (lis, listened) ↦ rw (built, listened) (served-serve creds m session _)
            ]
      ]

  -- Whatever the requests and the drivers do, the program serves at most once: where the credentials
  -- can be built from the configuration that it has loaded and the port of the variable PORT, or 50051
  -- where that is empty, can be opened, it serves with exactly these credentials, and otherwise not.
  pub served-main :
      (fs : Files W) (crypto : Crypto) (net : Network W) (getenv : String → Text)
      (session : Session) (s : State W Call) (cfg : Config) (m : Manager)
      → (load fs getenv s).0 ≡ ok cfg
      → (new_manager d cfg (load fs getenv s).1).0 ≡ ok m
      → served (main d rt fs crypto net getenv session s).1.calls
        ≡ serving
            (build crypto rt (new_loader cfg.tls))
            (net.listen
              (codes ":" ++ port_or_default (getenv "PORT"))
              (new_manager d cfg (load fs getenv s).1).1.world).0
          ++ served s.calls
  unfolding main
  served-main fs crypto net getenv session s cfg m loaded started =
      let s1 = (load fs getenv s).1 in
      let s2 = (new_manager d cfg s1).1 in
      let run = run_server d rt crypto net getenv session cfg m s2 in
      ground (
        arith,
        served-load fs getenv s,
        served-new_manager cfg s1,
        served-run_server crypto net getenv session cfg m s2,
        served-close m run.1,
      )

module _ {W : Type 0} (d : Driver W) (rt : Runtime) (fs : Files W) (crypto : Crypto)
    (net : Network W) (getenv : String → Text) (session : Session) (s : State W Call) (cfg : Config)
    (m : Manager) (loaded : (load fs getenv s).0 ≡ ok cfg)
    (started : (new_manager d cfg (load fs getenv s).1).0 ≡ ok m) where
  -- Where the credentials cannot be built, the program ends by log.Fatalf right behind New: it does
  -- not listen, and never serves without them.
  main-no_credentials :
      (e : GoError)
      → build crypto rt (new_loader cfg.tls) ≡ err e
      → main d rt fs crypto net getenv session s ≡ (
        err (codes "TLS configuration error: " ++ error_text e),
        (new_manager d cfg (load fs getenv s).1).1,
      )
  unfolding main run_server
  main-no_credentials e failed = rw (loaded, started, failed) refl
