-- ===== src/Examples/Replies.antt =====
-- Examples for the conversions and the errors of the server.
use database_router.Shared.{◌≡◌, ◌↔◌, true, some, arith}
use database_router.Shared.Int.{negsuc}
use database_router.Text.{codes}
use database_router.Value.{
  PbValue, int, int32, int64, list_value, pb_item, no_pb_items, string_value, null_value, Fields,
  field, no_fields,
}
use database_router.Fault.{GoError, message, error_text, is_not_enabled, unavailable, to_grpc_error}
use database_router.Fault.Laws.{to_grpc_error_lem}
use database_router.Server.Convert.{to_proto_value, from_proto_value}
use database_router.Server.Convert.RoundTrip.{IsScalar, to_proto-from_proto}
use database_router.Core.{pack_value}
use database_router.Core.Integers.{integer_of, integers_exact}
use database_router.Examples.World.{runtime}

abbrev nested : PbValue
nested = list_value (pb_item (string_value (codes "a")) no_pb_items)

abbrev flat : Fields
flat = field (codes "name") (string_value (codes "ann")) (field (codes "age") null_value no_fields)

to_proto-from_proto_example :
    (to_proto_value runtime (from_proto_value nested) ≡ nested) ↔ IsScalar nested
to_proto-from_proto_example = to_proto-from_proto runtime nested

abbrev refused : GoError
refused = message (codes "dial tcp: connection refused")

to_grpc_error_lem_example :
    ((to_grpc_error refused).text ≡ error_text refused)
    × (((to_grpc_error refused).code ≡ unavailable) ↔ (is_not_enabled refused ≡ true))
to_grpc_error_lem_example = to_grpc_error_lem refused

-- The least int32.
integers_exact_example :
    (integer_of (to_proto_value runtime (int (negsuc 2147483647))) ≡ some (negsuc 2147483647))
    × (integer_of (to_proto_value runtime (int32 (negsuc 2147483647))) ≡ some (negsuc 2147483647))
    × (integer_of (to_proto_value runtime (int64 (negsuc 2147483647))) ≡ some (negsuc 2147483647))
    × (integer_of (pack_value runtime (int (negsuc 2147483647))) ≡ some (negsuc 2147483647))
integers_exact_example = integers_exact runtime (negsuc 2147483647) (ground arith)
