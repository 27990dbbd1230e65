-- ===== src/Lib.antt =====
-- The database router is a gRPC server in front of PostgreSQL, MongoDB and Redis, with a Go SDK
-- for its clients and a core client that keeps applications in namespaces of their own. This
-- library models its Go code.
--
-- The parts and their files:
-- * main (cmd/main.go): Boot.antt has the program from its start to its end, with its fatal exits
--   and the deferred Close, Server/Registry.antt the services and the servers that it makes,
--   Server/Dispatch.antt the handlers that it registers. Proofs are in Boot/Lifecycle.antt,
--   Boot/Use.antt and Boot/Secure.antt, and on all requests in Server/Dispatch/Balance.antt,
--   Server/Dispatch/Use.antt, Server/Dispatch/Own.antt and Server/Dispatch/Effort.antt.
--   Server/Dispatch/Concurrent.antt has requests that are answered at the same time, as traces
--   whose calls interleave: each request runs with a driver and a world of its own, so what the
--   others do in between shows in the answers that it gets, which nothing restricts.
--   Boot/Concurrent.antt puts New before them and Close behind them.
-- * config.Load and overrideFromEnv (internal/config/config.go): Config.antt has the records and
--   the overrides, Config/Load.antt the defaults and the loading, Config/Overrides.antt and
--   Config/FirstRun.antt proofs.
-- * db.Manager (internal/db/database.go): Manager.antt has New as new_manager,
--   GetPostgresConnection as get_postgres_connection, the three init functions and Close. Proofs
--   are in Manager/Startup.antt and Manager/Lifetime.antt. Manager/Dsn.antt reads connection
--   strings by the format of libpq, without reference to the code that builds them.
-- * The services (internal/service): Service.antt has the interfaces of service.go as records of
--   operations, Service/Postgres.antt, Service/Redis.antt and Service/Mongo.antt the operations of
--   the files of these names, Service/Health.antt CheckAll, Service/Results.antt the loops over
--   result sets, Service/Backends.antt the constructors. Service/Redis/Expiring.antt has the store
--   of keys, values and expirations that the Redis service implements, Service/Redis/Store.antt
--   one whose keys do not expire, Service/Redis/Commands.antt the operations on keys as commands.
--   Service/Redis/Concurrent.antt has requests whose calls interleave: a schedule names the
--   request that makes the next call. Service/Postgres/Tables.antt has the tables that InsertData,
--   UpdateData and DeleteData change, Service/Postgres/Changes.antt these operations on them,
--   Service/Postgres/Changes/Refinement.antt the proof; Service/Mongo/Store.antt,
--   Service/Mongo/Commands.antt and Service/Mongo/Refinement.antt are the same for the collections
--   of MongoDB. The SQL texts, isValidIdentifier and quoteIdentifier are in Sql.antt;
--   Sql/Lexer.antt reads such texts the way PostgreSQL does.
-- * The errors (internal/service/errors.go, internal/server/errors.go): Fault.antt.
-- * The gRPC layer (internal/server): Server/Convert.antt is convert.go, Server/Postgres.antt,
--   Server/Mongo.antt, Server/Redis.antt and Server/Health.antt are the handlers, over the
--   interfaces of Service.antt; Server/Messages.antt has the fields of the responses
--   (sdk/go/proto/dbrouter/dbrouter.pb.go). Server/Mongo/Identity.antt is about the ids of
--   documents, Server/Scalars.antt is about the kinds of values in them.
-- * The TLS of the server (internal/tlsconfig/loader.go): Tls.antt. The SDK (sdk/go/client.go):
--   Sdk.antt. The core client (core/go/client.go): Core.antt and Core/Operations.antt, and
--   Core/EndToEnd.antt for the client over the server; Core/Isolation.antt and
--   Core/Confinement.antt are about what the namespaces of two applications share,
--   Core/Queries.antt about what PgQuery returns, Core/Inserts.antt about what PgInsert stores,
--   Core/Integers.antt about integers on their way between an application and the router.
--
-- How the code is modelled. A Go function that talks to a driver is an action of
-- Shared/Action.antt: it takes a state with the outside world and the calls made so far, the
-- latest first, and gives a result or an error with the new state. The world is a type of its own,
-- which only the driver reads: Driver.antt has the drivers as a record of functions (database/sql
-- with lib/pq, the MongoDB driver, go-redis), so a theorem about an action holds for all that the
-- drivers may answer. Driver/Calls.antt has the calls as values; a trace keeps their arguments,
-- the remaining seconds of the context among them. A defer is `finally`; an error that the code
-- drops is `attempt`. A result `(v, err)` is a value or an error: the values beside an error are
-- not kept, as no caller reads them.
--
-- Data. A text is a list of code points (Text.antt), so Go strings are taken as valid UTF-8. A map
-- is an association list in the order in which a `range` over it visits its entries; theorems hold
-- for each such order. Floats are their IEEE 754 bits; Value/Float/Exact.antt reads the integer
-- that they stand for, and `bit_length` has one step of fuel for each of 64 bits. Signed integers
-- are ℤ of Shared/Int.antt, with `wrap` where the code converts to 32 or 64 bits. A handle is a
-- number. `itoa` has one step of fuel more than its number, and a number has at most that many
-- digits: Text/Decimal.antt proves that reading the digits back gives the number. All other
-- recursion is structural.
--
-- Parameters, as their code is not part of the repository: the drivers; fmt's %v and %q, the case
-- tables of unicode and the conversion of cells to strings (Runtime of Value.antt); crypto/tls
-- with its files (Crypto of Tls.antt); the file system and encoding/json (Files of
-- Config/Load.antt); net.Listen (Network of Boot.antt); Vault, structpb.NewStruct, and the
-- dialling and the closing of a connection of gRPC. What a Session of Boot.antt holds is likewise
-- given from outside: the requests, and how Serve returns.
--
-- Not modelled: the serialization and the stubs that protoc generates, the reflection service of
-- gRPC, and the scheduling of goroutines: in Boot.antt the requests stand one behind the other, in
-- the order in which they are answered, and where they interleave, in
-- Service/Redis/Concurrent.antt and Server/Dispatch/Concurrent.antt, any order of their calls is
-- taken; further the SDKs and the core clients in other languages, and the deployment.
pub mod Shared
pub mod Text
pub mod Sql
pub mod Value
pub mod Config
pub mod Fault
pub mod Driver
pub mod Manager
pub mod Service
pub mod Server
pub mod Tls
pub mod Sdk
pub mod Core
pub mod Boot
pub mod Examples
