-- ===== src/Server/Rpc.antt =====
-- A handler ends with a response or with a gRPC status.
use database_router.Shared.Action.{Action, Result, ok, err}
use database_router.Fault.{GoError, Status, to_grpc_error}
use database_router.Driver.{Go}
use database_router.Driver.Calls.{Call}

abbrev pub Rpc : Type 0 → Type 0 → Type 0
Rpc W A = Action W Call Status A

abbrev to_status : {A : Type 0} → Result GoError A → Result Status A
to_status (ok a) = ok a
to_status (err e) = err (to_grpc_error e)

-- `if err != nil { return nil, toGRPCError(err) }`
abbrev pub checked : {W A : Type 0} → Go W A → Rpc W A
checked act s = (to_status (act s).0, (act s).1)
