-- ===== src/Manager/Lifetime.antt =====
-- Which PostgreSQL connections the manager opens and closes.
use database_router.Shared.{◌≡◌, true, false, some, Bool, List, [], ◌∷◌, ◌++◌, arith, if◌then◌else◌}
use database_router.Shared.Action.{State, Result, ok, err}
use database_router.Text.{Text}
use database_router.Config.{Config}
use database_router.Fault.{GoError}
use database_router.Driver.{Driver}
use database_router.Driver.Calls.{Call, Handle}
use database_router.Driver.Handles.{still_open, remove}
use database_router.Manager.{Manager, is_true, get_postgres_connection, close, new_manager}
use database_router.Manager.Startup.{postgres_opened, postgres_pinged}

-- The connections that are open for the caller of GetPostgresConnection to close.
abbrev pub handed_over : Result GoError (Handle × Bool) → List Handle
handed_over (ok (h, true)) = h ∷ []
handed_over (ok (h, false)) = []
handed_over (err e) = []

module _ {W : Type 0} (d : Driver W) (m : Manager) (s : State W Call) where
  -- GetPostgresConnection leaves open exactly what it hands over: a temporary connection, or nothing
  -- more than before where it returns the default connection or an error.
  still_open-get_postgres_connection :
      (dbname : Text)
      → still_open (get_postgres_connection d m dbname s).1.calls
        ≡ handed_over (get_postgres_connection d m dbname s).0 ++ still_open s.calls
  unfolding get_postgres_connection still_open
  still_open-get_postgres_connection dbname = ground arith

module _ {W : Type 0} (d : Driver W) where
  pub still_open-new_manager :
      (cfg : Config) (s : State W Call) (m : Manager) (h : Handle)
      → (new_manager d cfg s).0 ≡ ok m
      → m.postgres_db ≡ some h
      → still_open (new_manager d cfg s).1.calls ≡ h ∷ still_open s.calls
  unfolding new_manager still_open
  still_open-new_manager cfg s m h started on = ground arith

  -- Close drops the errors of the drivers.
  pub close_ok : (m : Manager) (s : State W Call) → (close d m s).0 ≡ ok tt
  unfolding close
  close_ok m s = ground arith

  pub still_open-close :
      (m : Manager) (s : State W Call) (h : Handle)
      → m.postgres_db ≡ some h
      → still_open (close d m s).1.calls ≡ remove h (still_open s.calls)
  unfolding close still_open
  still_open-close m s h on = ground arith

abbrev unless_pinged : Handle → Result GoError (Unit {0}) → List Handle
unless_pinged h (ok _) = []
unless_pinged h (err e) = h ∷ []

module _ {W : Type 0} (d : Driver W) (cfg : Config) (s : State W Call) where
  abbrev left_behind : Result GoError Handle → List Handle
  left_behind (ok h) = unless_pinged h (postgres_pinged d cfg s h).0
  left_behind (err e) = []

  -- The connection that New opens to an enabled PostgreSQL that does not answer the first ping.
  abbrev pub leaked : List Handle
  leaked = if is_true cfg.postgres.enabled then left_behind (postgres_opened d cfg s).0 else []

  -- Close behind New, on the manager that New returns, leaves open exactly the PostgreSQL connections
  -- that were open before New, and the connection of New whose first ping has failed, whatever
  -- the drivers answer.
  pub close-new_manager :
      (m : Manager)
      → (new_manager d cfg s).0 ≡ ok m
      → still_open (close d m (new_manager d cfg s).1).1.calls ≡ leaked ++ still_open s.calls
  unfolding new_manager close still_open
  close-new_manager m started = ground arith
