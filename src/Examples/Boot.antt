-- ===== src/Examples/Boot.antt =====
-- Examples for the start and the end of the program.
use database_router.Shared.{
  String, ◌≡◌, refl, Bool, true, false, none, some, [], ◌∷◌, ◌++◌, arith, if◌then◌else◌,
}
use database_router.Shared.Action.{State, Result, ok, err}
use database_router.Shared.Int.{pos}
use database_router.Text.{Text, codes, text_eq}
use database_router.Text.Laws.{text_eq_refl}
use database_router.Config.{Config, override_from_env}
use database_router.Config.Load.{Files, load, default_config}
use database_router.Config.FirstRun.{IsLawfulFiles, load-first_run}
use database_router.Driver.Calls.{Call}
use database_router.Driver.Handles.{still_open, served, WellUsed}
use database_router.Manager.{Manager, new_manager}
use database_router.Tls.{build, new_loader}
use database_router.Server.Dispatch.{PostgresRequest, check, to_postgres, to_health, handle}
use database_router.Server.Registry.{new_servers}
use database_router.Server.Dispatch.Balance.{handle-Balanced}
use database_router.Server.Dispatch.Effort.{Modest, handle-Modest}
use database_router.Boot.{Network, Session, signalled, main}
use database_router.Boot.Use.{main-WellUsed}
use database_router.Boot.Lifecycle.{left_open, main-still_open}
use database_router.Boot.Secure.{serving, served-main}
use database_router.Examples.World.{Keys, driver, runtime, config, manager, crypto, fresh}

abbrev text_of : Text → Keys → Result Text Text
text_of name [] = err (codes "no such file")
text_of name ((k, v, t) ∷ rest) = if text_eq k name then ok v else text_of name rest

abbrev is_absent : Text → Keys → Bool
is_absent name [] = true
is_absent name ((k, v, t) ∷ rest) = if text_eq k name then false else is_absent name rest

-- The files are keys of the world. One text stands for the default configuration, and every other one
-- for that of the examples.
abbrev files : Files Keys
files = record {
  is_missing = is_absent;
  read_file = λ name w. (text_of name w, w);
  write_file = λ name text w. (ok tt, (name, text, pos 0) ∷ w);
  unmarshal = λ text. if text_eq text (codes "{}") then ok config else ok default_config;
  marshal = λ cfg. ok (codes "{default}");
}

files-IsLawfulFiles : IsLawfulFiles files
unfolding text_eq
files-IsLawfulFiles = record {
  read-write = λ name text w h. rw (text_eq_refl name) refl;
  is_there-write = λ name text w h. rw (text_eq_refl name) refl;
  read-read = λ name w. refl;
  is_missing-read = λ name w. refl;
  unmarshal-marshal = λ text h. ground arith;
}

abbrev unset : String → Text
unset key = []

load-first_run_example :
    ((load files unset fresh).0 ≡ ok (override_from_env unset default_config))
    × (files.is_missing (codes "config.json") (load files unset fresh).1.world ≡ false)
    × ((files.read_file (codes "config.json") (load files unset fresh).1.world).0
        ≡ ok (codes "{default}"))
    × ((env : String → Text)
        → (load files env (load files unset fresh).1).0 ≡ ok (override_from_env env default_config))
load-first_run_example =
    load-first_run files unset fresh (codes "{default}") files-IsLawfulFiles refl refl refl

-- A world with a configuration.
abbrev configured : State Keys Call
configured = record { world = (codes "config.json", codes "{}", pos 0) ∷ []; calls = [] }

abbrev network : Network Keys
network = record { listen = λ address w. (ok 20, w) }

abbrev session : Session
session = record {
  requests =
      (none, to_postgres (PostgresRequest.execute_query (codes "select 1") (codes "logs")))
      ∷ (some 5, to_postgres PostgresRequest.list_databases)
      ∷ [];
  ending = signalled (codes "interrupt");
}

handle-Balanced_example :
    still_open
      (handle runtime
        (new_servers driver runtime manager)
        none
        fresh
        (to_postgres (PostgresRequest.execute_query (codes "select 1") (codes "logs")))).calls
    ≡ []
unfolding still_open
handle-Balanced_example =
    handle-Balanced driver runtime manager none fresh
      (to_postgres (PostgresRequest.execute_query (codes "select 1") (codes "logs")))

handle-Modest_example :
    Modest fresh (handle runtime (new_servers driver runtime manager) none fresh (to_health check))
handle-Modest_example = handle-Modest driver runtime manager none fresh (to_health check)

-- What New makes of the configuration in the world: no MongoDB answers the ping.
abbrev started : Manager
started = record manager { postgres_db = some 7; mongo_db = none }

was_loaded : (load files unset configured).0 ≡ ok config
unfolding load text_eq override_from_env database_router.Config.replace_text
    database_router.Config.replace_int database_router.Config.replace_bool
was_loaded = refl

was_started : (new_manager driver config (load files unset configured).1).0 ≡ ok started
unfolding load new_manager text_eq
was_started = refl

main-WellUsed_example :
    WellUsed (main driver runtime files crypto network unset session configured).1.calls
main-WellUsed_example =
    main-WellUsed driver runtime files crypto network unset session configured.world

main-still_open_example :
    still_open (main driver runtime files crypto network unset session configured).1.calls
    ≡ left_open (main driver runtime files crypto network unset session configured).0 7 []
unfolding still_open
main-still_open_example =
    main-still_open driver runtime files crypto network unset session configured config started 7
      was_loaded was_started refl

served-main_example :
    served (main driver runtime files crypto network unset session configured).1.calls
    ≡ serving (build crypto runtime (new_loader config.tls)) (ok 20) ++ []
unfolding served
served-main_example =
    served-main driver runtime files crypto network unset session configured config started
      was_loaded was_started
