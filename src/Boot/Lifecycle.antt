-- ===== src/Boot/Lifecycle.antt =====
-- The PostgreSQL connections of the program, from its start to its end.
use database_router.Shared.{String, ◌≡◌, refl, ◌∙◌, some, List, [], ◌∷◌, ◌++◌, arith, inl, inr}
use database_router.Shared.Action.{State, Result, ok, err, Result-cases}
use database_router.Text.{Text, codes}
use database_router.Value.{Runtime}
use database_router.Config.{Config}
use database_router.Config.Load.{Files, load}
use database_router.Driver.{Driver}
use database_router.Driver.Calls.{Call, Ctx, Handle}
use database_router.Driver.Handles.{still_open}
use database_router.Manager.{Manager, new_manager}
use database_router.Manager.Lifetime.{still_open-new_manager, still_open-close, close_ok}
use database_router.Tls.{Crypto, Credentials, build, new_loader}
use database_router.Server.Dispatch.{Request, handle}
use database_router.Server.Registry.{new_servers}
use database_router.Server.Dispatch.Balance.{handle-Balanced}
use database_router.Boot.{Network, Session, handle_all, serve, run_server, main, port_or_default}

-- What is open at the end of the program, where New has given the manager the connection `h`.
abbrev pub left_open : Result Text (Unit {0}) → Handle → List Handle → List Handle
left_open (ok _) h before = before
left_open (err line) h before = h ∷ before

module _ {W : Type 0} (fs : Files W) where
  load-Balanced :
      (getenv : String → Text) (s : State W Call)
      → still_open (load fs getenv s).1.calls ≡ still_open s.calls
  unfolding load still_open
  load-Balanced getenv s = ground arith

module _ {W : Type 0} (d : Driver W) (rt : Runtime) where
  handle_all-Balanced :
      (m : Manager) (requests : List (Ctx × Request)) (s : State W Call)
      → still_open (handle_all d rt (new_servers d rt m) requests s).calls ≡ still_open s.calls
  unfolding handle_all
  handle_all-Balanced m [] s = refl
  handle_all-Balanced m ((ctx, q) ∷ rest) s =
      handle_all-Balanced m rest (handle rt (new_servers d rt m) ctx s q)
      ∙ handle-Balanced d rt m ctx s q

  serve-Balanced :
      (creds : Credentials) (m : Manager) (session : Session) (s : State W Call)
      → still_open (serve d rt creds (new_servers d rt m) session s).1.calls ≡ still_open s.calls
  unfolding serve still_open
  serve-Balanced creds m session s = ground (
    arith,
    handle_all-Balanced m session.requests (record s { calls = Call.serve creds ∷ s.calls }),
  )

  pub run_server-Balanced :
      (crypto : Crypto) (net : Network W) (getenv : String → Text) (session : Session)
      (cfg : Config) (m : Manager) (s : State W Call)
      → still_open (run_server d rt crypto net getenv session cfg m s).1.calls ≡ still_open s.calls
  unfolding run_server still_open
  run_server-Balanced crypto net getenv session cfg m s =
      elim (Result-cases (build crypto rt (new_loader cfg.tls))) [
        | inr (e, failed) ↦ rw failed refl
        | inl (creds, built) ↦
            let address : Text = codes ":" ++ port_or_default (getenv "PORT") in
            elim (Result-cases (net.listen address s.world).0) [
              | inr (e, failed) ↦ rw (built, failed) refl
              | inl (lis, listened) ↦ rw (built, listened) (serve-Balanced creds m session _)
            ]
      ]

  -- From its start to its end, whatever the requests and the drivers do: once New has connected to
  -- PostgreSQL, a program that ends by a signal has closed every PostgreSQL connection that it opened,
  -- and one that ends by log.Fatalf has closed all but that of the manager, since log.Fatalf skips the
  -- deferred Close.
  pub main-still_open :
      (fs : Files W) (crypto : Crypto) (net : Network W) (getenv : String → Text)
      (session : Session) (s : State W Call) (cfg : Config) (m : Manager) (h : Handle)
      → (load fs getenv s).0 ≡ ok cfg
      → (new_manager d cfg (load fs getenv s).1).0 ≡ ok m
      → m.postgres_db ≡ some h
      → still_open (main d rt fs crypto net getenv session s).1.calls
        ≡ left_open (main d rt fs crypto net getenv session s).0 h (still_open s.calls)
  unfolding main
  main-still_open fs crypto net getenv session s cfg m h loaded started on =
      let s1 = (load fs getenv s).1 in
      let s2 = (new_manager d cfg s1).1 in
      let served = run_server d rt crypto net getenv session cfg m s2 in
      ground (
        arith,
        load-Balanced fs getenv s,
        still_open-new_manager d cfg s1 m h,
        run_server-Balanced crypto net getenv session cfg m s2,
        close_ok d m served.1,
        still_open-close d m served.1 h,
      )
