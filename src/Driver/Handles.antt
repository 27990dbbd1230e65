-- ===== src/Driver/Handles.antt =====
-- The PostgreSQL connections that a run has opened and not closed and how it uses them, and the
-- servers that it has started.
pub mod Counts
use database_router.Shared.{◌≡◌, Bool, true, false, ◌||◌, List, [], ◌∷◌, ◌==◌, some, if◌then◌else◌}
use database_router.Tls.{Credentials}
use database_router.Driver.Calls.{Call, Handle}

-- Without the first occurrence of a handle.
abbrev pub remove : Handle → List Handle → List Handle
remove h [] = []
remove h (j ∷ l) = if j == h then l else j ∷ remove h l

-- From a trace, whose latest call stands first.
unfoldable pub still_open : List Call → List Handle
still_open [] = []
still_open (Call.sql_open dsn (some h) ∷ calls) = h ∷ still_open calls
still_open (Call.sql_close h ∷ calls) = remove h (still_open calls)
still_open (_ ∷ calls) = still_open calls

abbrev pub is_open : Handle → List Handle → Bool
is_open h [] = false
is_open h (j ∷ l) = j == h || is_open h l

-- Each call on a PostgreSQL connection is made while the connection is open.
abbrev pub WellUsed : List Call → Type 0
WellUsed [] = Unit
WellUsed (Call.set_max_open_conns h n ∷ calls) =
    (is_open h (still_open calls) ≡ true) × WellUsed calls
WellUsed (Call.set_max_idle_conns h n ∷ calls) =
    (is_open h (still_open calls) ≡ true) × WellUsed calls
WellUsed (Call.set_conn_max_lifetime h n ∷ calls) =
    (is_open h (still_open calls) ≡ true) × WellUsed calls
WellUsed (Call.sql_ping c h ∷ calls) = (is_open h (still_open calls) ≡ true) × WellUsed calls
WellUsed (Call.sql_query c h text args ∷ calls) =
    (is_open h (still_open calls) ≡ true) × WellUsed calls
WellUsed (Call.sql_query_row c h text args ∷ calls) =
    (is_open h (still_open calls) ≡ true) × WellUsed calls
WellUsed (Call.sql_exec c h text args ∷ calls) =
    (is_open h (still_open calls) ≡ true) × WellUsed calls
WellUsed (Call.rows_close h ∷ calls) = (is_open h (still_open calls) ≡ true) × WellUsed calls
WellUsed (Call.sql_close h ∷ calls) = (is_open h (still_open calls) ≡ true) × WellUsed calls
WellUsed (_ ∷ calls) = WellUsed calls

-- The credentials of each server that has been started, the latest first.
unfoldable pub served : List Call → List Credentials
served [] = []
served (Call.serve creds ∷ calls) = creds ∷ served calls
served (_ ∷ calls) = served calls
