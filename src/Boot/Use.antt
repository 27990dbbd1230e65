-- ===== src/Boot/Use.antt =====
-- How the program uses its PostgreSQL connections, from its start to its end.
use database_router.Shared.{
  String, ◌≡◌, refl, none, some, Option, List, [], ◌∷◌, ◌++◌, arith, inl, inr, Option-cases,
}
use database_router.Shared.Action.{State, ok, Result-cases}
use database_router.Text.{Text, codes}
use database_router.Value.{Runtime}
use database_router.Config.{Config}
use database_router.Config.Load.{Files, load}
use database_router.Driver.{Driver}
use database_router.Driver.Calls.{Call, Ctx, Handle}
use database_router.Driver.Handles.{still_open, WellUsed}
use database_router.Manager.{Manager, new_manager, close}
use database_router.Tls.{Crypto, Credentials, build, new_loader}
use database_router.Server.Dispatch.{Request, handle}
use database_router.Server.Registry.{new_servers}
use database_router.Server.Dispatch.Balance.{handle-Balanced}
use database_router.Server.Dispatch.Use.{HoldsOpen, handle-WellUsed}
use database_router.Boot.{Network, Session, handle_all, serve, run_server, main, port_or_default}
use database_router.Boot.Lifecycle.{run_server-Balanced}

HoldsOpen-still_open :
    (o : Option Handle) (a b : List Call)
    → still_open a ≡ still_open b
    → HoldsOpen o b
    → HoldsOpen o a
HoldsOpen-still_open none a b e h = tt
HoldsOpen-still_open (some db) a b e h = rw e h

load-WellUsed :
    {W : Type 0} (fs : Files W) (getenv : String → Text) (s : State W Call)
    → WellUsed s.calls
    → WellUsed (load fs getenv s).1.calls
unfolding load
load-WellUsed fs getenv s used = ground arith

module _ {W : Type 0} (d : Driver W) (rt : Runtime) where
  pub new_manager-WellUsed :
      (cfg : Config) (s : State W Call) → WellUsed s.calls → WellUsed (new_manager d cfg s).1.calls
  unfolding new_manager still_open
  new_manager-WellUsed cfg s used = ground arith

  pub new_manager-HoldsOpen :
      (cfg : Config) (s : State W Call) (m : Manager)
      → (new_manager d cfg s).0 ≡ ok m
      → HoldsOpen m.postgres_db (new_manager d cfg s).1.calls
  unfolding new_manager still_open
  new_manager-HoldsOpen cfg s m started = elim (Option-cases m.postgres_db) [
    | inl off ↦ rw off tt
    | inr (db, on) ↦ rw on (ground arith)
  ]

  pub close-WellUsed :
      (m : Manager) (s : State W Call)
      → HoldsOpen m.postgres_db s.calls
      → WellUsed s.calls
      → WellUsed (close d m s).1.calls
  unfolding close
  close-WellUsed m s holds used = ground arith

  handle_all-WellUsed :
      (m : Manager) (requests : List (Ctx × Request)) (s : State W Call)
      → HoldsOpen m.postgres_db s.calls
      → WellUsed s.calls
      → WellUsed (handle_all d rt (new_servers d rt m) requests s).calls
  unfolding handle_all
  handle_all-WellUsed m [] s holds used = used
  handle_all-WellUsed m ((ctx, q) ∷ rest) s holds used =
      let s' = handle rt (new_servers d rt m) ctx s q in
      handle_all-WellUsed m rest s'
        (HoldsOpen-still_open m.postgres_db s'.calls s.calls (handle-Balanced d rt m ctx s q) holds)
        (handle-WellUsed d rt m ctx s holds used q)

  serve-WellUsed :
      (creds : Credentials) (m : Manager) (session : Session) (s : State W Call)
      → HoldsOpen m.postgres_db s.calls
      → WellUsed s.calls
      → WellUsed (serve d rt creds (new_servers d rt m) session s).1.calls
  unfolding serve still_open
  serve-WellUsed creds m session s holds used =
      let started : State W Call = record s { calls = Call.serve creds ∷ s.calls } in
      ground (
        arith,
        handle_all-WellUsed m session.requests started
            (HoldsOpen-still_open m.postgres_db started.calls s.calls refl holds) used,
      )

  run_server-WellUsed :
      (crypto : Crypto) (net : Network W) (getenv : String → Text) (session : Session)
      (cfg : Config) (m : Manager) (s : State W Call)
      → HoldsOpen m.postgres_db s.calls
      → WellUsed s.calls
      → WellUsed (run_server d rt crypto net getenv session cfg m s).1.calls
  unfolding run_server still_open
  run_server-WellUsed crypto net getenv session cfg m s holds used =
      elim (Result-cases (build crypto rt (new_loader cfg.tls))) [
        | inr (e, failed) ↦ rw failed used
        | inl (creds, built) ↦
            let address : Text = codes ":" ++ port_or_default (getenv "PORT") in
            elim (Result-cases (net.listen address s.world).0) [
              | inr (e, failed) ↦ rw (built, failed) used
              | inl (lis, listened) ↦
                  rw (built, listened)
                    (serve-WellUsed creds m session _
                      (HoldsOpen-still_open m.postgres_db _ s.calls refl holds) used)
            ]
      ]

  started-WellUsed :
      (crypto : Crypto) (net : Network W) (getenv : String → Text) (session : Session)
      (cfg : Config) (m : Manager) (s : State W Call)
      → HoldsOpen m.postgres_db s.calls
      → WellUsed s.calls
      → WellUsed (close d m (run_server d rt crypto net getenv session cfg m s).1).1.calls
  started-WellUsed crypto net getenv session cfg m s holds used =
      let served = run_server d rt crypto net getenv session cfg m s in
      close-WellUsed m served.1
        (HoldsOpen-still_open m.postgres_db served.1.calls s.calls
          (run_server-Balanced d rt crypto net getenv session cfg m s) holds)
        (run_server-WellUsed crypto net getenv session cfg m s holds used)

  -- From its start to its end, whatever the files, the requests and the drivers do, the program never
  -- pings, queries or closes a PostgreSQL connection, and never closes a result of one, unless the
  -- connection has been opened and not been closed since.
  pub main-WellUsed :
      (fs : Files W) (crypto : Crypto) (net : Network W) (getenv : String → Text)
      (session : Session) (w : W)
      → WellUsed (main d rt fs crypto net getenv session (record { world = w; calls = [] })).1.calls
  unfolding main
  main-WellUsed fs crypto net getenv session w =
      let s : State W Call = record { world = w; calls = [] } in
      let s1 = (load fs getenv s).1 in
      let configured = load-WellUsed fs getenv s tt in
      elim (Result-cases (load fs getenv s).0) [
        | inr (e, failed) ↦ rw failed configured
        | inl (cfg, loaded) ↦
            let s2 = (new_manager d cfg s1).1 in
            let connected = new_manager-WellUsed cfg s1 configured in
            elim (Result-cases (new_manager d cfg s1).0) [
              | inr (e, failed) ↦ ground (arith, connected)
              | inl (m, started) ↦
                  let holds = new_manager-HoldsOpen cfg s1 m started in
                  ground (
                    arith,
                    run_server-WellUsed crypto net getenv session cfg m s2 holds connected,
                    started-WellUsed crypto net getenv session cfg m s2 holds connected,
                  )
            ]
      ]
