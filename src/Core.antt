-- ===== src/Core.antt =====
-- core/go/client.go: the client that keeps each application in its own namespace.
pub mod Operations
pub mod Namespaces
pub mod EndToEnd
pub mod Confinement
pub mod Isolation
pub mod Cells
pub mod Queries
pub mod Inserts
pub mod Integers
use database_router.Shared.{
  ℕ, String, Bool, true, false, Option, none, some, List, [], ◌∷◌, ◌++◌, if◌then◌else◌,
}
use database_router.Shared.Action.{Result, ok, err, Action, pure, raise, lift, attempt, ◌>>=◌, ◌>>◌}
use database_router.Shared.Int.{ℤ}
use database_router.Text.{Text, codes, is_empty, contains, to_lower}
use database_router.Value.{
  Value, nil, bool, float64, float32, int, int32, int64, str, bytes, map_of, slice_of, other, Row,
  empty_row, entry, PbValue, nil_pointer, no_kind, null_value, number_value, string_value,
  bool_value, struct_value, list_value, Fields, no_fields, field, Runtime, assign,
}
use database_router.Value.Float.{float64_of_int}
use database_router.Fault.{GoError, error_text}
use database_router.Driver.{tell}
use database_router.Driver.Calls.{Call}
use database_router.Sdk.{Options}
use database_router.Server.Messages.{
  CreateDatabaseResponse, ExecuteQueryResponse, InsertDataResponse, InsertDocumentResponse,
  SetValueResponse, GetValueResponse,
}

-- What ends a call of the client without a result: a gRPC status with its message, another error,
-- or a panic.
pub data Failure : Type 0 where
  status_error : Text → Failure
  plain_error : Text → Failure
  panic : Failure

abbrev pub Remote : Type 0 → Type 0 → Type 0
Remote W A = Action W Call Failure A

-- The client of the SDK, by the calls that the core client makes.
pub record Router (W : Type 0) : Type 0 where
  pub create_database : Text → Remote W CreateDatabaseResponse
  pub execute_query : Text → Text → Remote W ExecuteQueryResponse
  pub insert_data : Text → Text → Fields → Remote W InsertDataResponse
  pub insert_document : Text → Text → Option Fields → Remote W InsertDocumentResponse
  pub set_value : Text → Text → ℤ → Remote W SetValueResponse
  pub get_value : Text → Remote W GetValueResponse
  pub close : Remote W (Unit {0})

pub record Client (W : Type 0) : Type 0 where
  pub app_namespace : Text
  pub pg_db : Text
  pub mongo_db : Text
  pub redis_prefix : Text
  pub dbr : Router W

-- The names that New gives to a namespace.
unfoldable pub named_client : {W : Type 0} → Text → Router W → Client W
named_client app_namespace dbr = record {
  app_namespace = app_namespace;
  pg_db = app_namespace ++ codes "_pg";
  mongo_db = app_namespace ++ codes "_mongo";
  redis_prefix = app_namespace ++ codes ":";
  dbr = dbr;
}

-- getEnv
get_env : (String → Text) → String → Text → Text
get_env getenv key fallback = let v = getenv key in if is_empty v then fallback else v

-- The Vault client: the secret at "secret" / "dbrouter/certs", for an address and a token.
pub record Vault : Type 0 where
  pub new_client : Text → Result GoError ℕ
  pub read_certs : ℕ → Text → Result GoError (Text → Value)

-- `x.(string)` panics unless `x` is a string.
pub as_string : Value → Result Failure Text
as_string (str s) = ok s
as_string _ = err panic

failed : {A : Type 0} → String → GoError → Result Failure A
failed text e = err (plain_error (codes text ++ error_text e))

-- `dial` is Connect of the SDK, with the stubs over its connection.
module _ {W : Type 0} (vault : Vault) (getenv : String → Text)
    (dial : Options → Result GoError (Router W)) where
  dialled : Result GoError (Router W) → Result Failure (Router W)
  dialled (ok dbr) = ok dbr
  dialled (err e) = failed "dbr connect: " e

  with_certs : Text → Result Failure Text → Result Failure Text → Result Failure (Router W)
  with_certs host (err p) key = err p
  with_certs host (ok cert) (err p) = err p
  with_certs host (ok cert) (ok key) = dialled (
      dial (record {
        host = host;
        cert_file = [];
        key_file = [];
        ca_file = [];
        cert_data = cert;
        key_data = key;
        ca_data = [];
        insecure = false;
      }))

  with_secret : Text → Result GoError (Text → Value) → Result Failure (Router W)
  with_secret host (err e) = failed "vault read: " e
  with_secret host (ok secret) =
      with_certs host (as_string (secret (codes "client_cert")))
        (as_string (secret (codes "client_key")))

  with_vault : Text → Text → Result GoError ℕ → Result Failure (Router W)
  with_vault token host (err e) = failed "vault client: " e
  with_vault token host (ok vc) = with_secret host (vault.read_certs vc token)

  connect_via_vault : Result Failure (Router W)
  unfolding with_vault with_secret with_certs dialled failed as_string get_env
  connect_via_vault =
      with_vault (get_env getenv "VAULT_TOKEN" (codes "dev-root-token"))
        (get_env getenv "DB_ROUTER_HOST" (codes "db.0.xeze.org:443"))
        (vault.new_client (get_env getenv "VAULT_ADDR" (codes "http://127.0.0.1:8200")))

  connected : Text → Result Failure (Router W) → Result Failure (Client W)
  connected app_namespace (ok dbr) = ok (named_client app_namespace dbr)
  connected app_namespace (err e) = err e

  unfoldable pub new_client : Text → Result Failure (Client W)
  unfolding connect_via_vault connected named_client
  new_client app_namespace =
      if is_empty app_namespace
      then err (plain_error (codes "app_namespace is required"))
      else connected app_namespace connect_via_vault

-- A value of a result row: NULL, lists and structs are left out.
unpack_fields : Row → Fields → Result Failure Row
unpack_fields row no_fields = ok row
unpack_fields row (field k nil_pointer fs) = err panic
unpack_fields row (field k (string_value s) fs) = unpack_fields (assign k (str s) row) fs
unpack_fields row (field k (number_value x) fs) = unpack_fields (assign k (float64 x) row) fs
unpack_fields row (field k (bool_value b) fs) = unpack_fields (assign k (bool b) row) fs
unpack_fields row (field k _ fs) = unpack_fields row fs

unfoldable pub unpack_rows : List Row → List Fields → Result Failure (List Row)
unfolding unpack_fields
unpack_rows results [] = ok results
unpack_rows results (fields ∷ rest) = elim (unpack_fields empty_row fields) [
  | ok row ↦ unpack_rows (results ++ row ∷ []) rest
  | err e ↦ err e
]

pub pack_value : Runtime → Value → PbValue
pack_value rt (str s) = string_value s
pack_value rt (bool b) = bool_value b
pack_value rt (float64 x) = number_value x
pack_value rt (int n) = number_value (float64_of_int n)
pack_value rt v = string_value (rt.sprint v)

unfoldable pub pack_row : Runtime → Row → Fields
unfolding pack_value
pack_row rt empty_row = no_fields
pack_row rt (entry k v r) = field k (pack_value rt v) (pack_row rt r)

-- `st, ok := status.FromError(err); ok && strings.Contains(strings.ToLower(st.Message()), text)`
pub says : Runtime → Failure → Text → Bool
says rt (status_error msg) text = contains (to_lower rt.lower msg) text
says rt (plain_error msg) text = false
says rt panic text = false

abbrev print : {W : Type 0} → Text → Remote W (Unit {0})
print line s = (ok tt, record s { calls = Call.log line ∷ s.calls })
