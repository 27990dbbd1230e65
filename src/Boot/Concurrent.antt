-- ===== src/Boot/Concurrent.antt =====
-- The PostgreSQL connections of a program whose requests are answered at the same time, from New to
-- Close.
use database_router.Shared.{ℕ, ◌+◌, ◌<◌, ◌≡◌, true, some, List, ◌++◌, ◌==◌, arith, if◌then◌else◌}
use database_router.Shared.Action.{State, ok}
use database_router.Value.{Runtime}
use database_router.Config.{Config}
use database_router.Driver.{Driver}
use database_router.Driver.Calls.{Call, Handle}
use database_router.Driver.Handles.{still_open, is_open, WellUsed}
use database_router.Driver.Handles.Counts.{count, is_open-count, count-remove}
use database_router.Manager.{Manager, new_manager, close}
use database_router.Manager.Lifetime.{still_open-new_manager, still_open-close}
use database_router.Server.Dispatch.Use.{HoldsOpen}
use database_router.Server.Dispatch.Concurrent.{
  Job, Mixed, calls_of, of_request, trace_of, Interleaves, interleaved-WellUsed,
  interleaved-Balanced,
}
use database_router.Boot.Use.{new_manager-WellUsed, new_manager-HoldsOpen, close-WellUsed}

module _ {W : Type 0} (d : Driver W) (rt : Runtime) (cfg : Config) (s : State W Call)
    (used : WellUsed s.calls) (m : Manager) (started : (new_manager d cfg s).0 ≡ ok m) (db : Handle)
    (connected : m.postgres_db ≡ some db) (n : ℕ) (jobs : ℕ → Job W) (u : Mixed)
    (mixed : Interleaves rt m n jobs u)
    (answered : (i : ℕ) → i < n → of_request i u ≡ trace_of rt m (jobs i)) where
  abbrev base : List Call
  base = (new_manager d cfg s).1.calls

  held : HoldsOpen m.postgres_db base
  held = new_manager-HoldsOpen d rt cfg s m started

  used_before : WellUsed base
  used_before = new_manager-WellUsed d rt cfg s used

  -- Before Close, the connection of the manager is open once more than before New, and no other one.
  count-before_close :
      (t : State W Call) (h : Handle)
      → t.calls ≡ calls_of u ++ base
      → count h (still_open t.calls) ≡ (if db == h then 1 else 0) + count h (still_open s.calls)
  count-before_close t h before =
      let balanced = interleaved-Balanced rt m base held used_before n jobs u mixed answered h in
      let opened = still_open-new_manager d cfg s m db started connected in
      rw (before, balanced, opened) (ground arith)

  db-is_open :
      (t : State W Call) → t.calls ≡ calls_of u ++ base → is_open db (still_open t.calls) ≡ true
  db-is_open t before =
      is_open-count db (still_open t.calls) (ground (arith, count-before_close t db before))

  -- The program from New to Close, whose requests interleave in between, whatever the drivers answer:
  -- where New has connected to PostgreSQL and each request has been answered before Close, every
  -- PostgreSQL connection is used only while it is open, those of the manager and of the requests,
  -- and each is open exactly as often behind Close as before New.
  pub program-WellUsed :
      (t : State W Call)
      → t.calls ≡ calls_of u ++ (new_manager d cfg s).1.calls
      → WellUsed (close d m t).1.calls
        × ((h : Handle) → count h (still_open (close d m t).1.calls) ≡ count h (still_open s.calls))
  program-WellUsed t before =
      let open_now : is_open db (still_open t.calls) ≡ true = db-is_open t before in
      let holds : HoldsOpen m.postgres_db t.calls = rw connected open_now in
      let used_now : WellUsed t.calls =
        rw before (interleaved-WellUsed rt m base held used_before n jobs u mixed) in
      (
        close-WellUsed d rt m t holds used_now,
        λ h. rw (still_open-close d m t db connected) (
            omega (
              arith,
              count-remove db h (still_open t.calls) open_now,
              count-before_close t h before,
            )),
      )
