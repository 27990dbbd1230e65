-- ===== src/Fault.antt =====
-- internal/service/errors.go and internal/server/errors.go: the errors of the service layer, and
-- the gRPC status that the server layer gives to each.
pub mod Laws
use database_router.Shared.{Bool, true, false, ◌++◌, ◌||◌, if◌then◌else◌}
use database_router.Text.{Text, codes, contains}

-- Go's `error`: a NotEnabledError, or any other one, by its text.
pub data GoError : Type 0 where
  not_enabled : Text → GoError
  message : Text → GoError

-- err.Error()
unfoldable pub error_text : GoError → Text
error_text (not_enabled backend) = backend ++ codes " not enabled"
error_text (message t) = t

unfoldable pub is_not_enabled : GoError → Bool
is_not_enabled (not_enabled backend) = true
is_not_enabled (message t) = false

-- google.golang.org/grpc/codes
pub data Code : Type 0 where
  invalid_argument not_found internal unavailable : Code

pub record Status : Type 0 where
  pub code : Code
  pub text : Text

abbrev pub status : Code → Text → Status
status c t = record { code = c; text = t }

-- The texts that make an error one of the caller.
unfoldable pub is_bad_input : Text → Bool
is_bad_input msg =
    contains msg (codes "invalid table name")
    || contains msg (codes "no data to update")
    || contains msg (codes "limit must be")
    || contains msg (codes "invalid ID format")

unfoldable pub to_grpc_error : GoError → Status
unfolding is_bad_input is_not_enabled error_text
to_grpc_error err =
    if is_not_enabled err
    then status unavailable (error_text err)
    else let msg = error_text err in
      if is_bad_input msg
      then status invalid_argument msg
      else if contains msg (codes "not found")
      then status not_found msg
      else status internal msg
