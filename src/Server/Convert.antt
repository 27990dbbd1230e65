-- ===== src/Server/Convert.antt =====
-- internal/server/convert.go: rows to and from the values of structpb.
pub mod RoundTrip
use database_router.Shared.Int.{ℤ}
use database_router.Value.{
  Value, nil, bool, float64, float32, int, int32, int64, str, bytes, map_of, slice_of, other, Row,
  empty_row, entry, Items, no_items, item, PbValue, nil_pointer, no_kind, null_value, number_value,
  string_value, bool_value, struct_value, list_value, Fields, no_fields, field, PbItems,
  no_pb_items, pb_item, Runtime, assign,
}
use database_router.Value.Float.{float64_of_int, float64_of_float32}

unfoldable pub to_proto_value : Runtime → Value → PbValue
to_proto_value rt nil = null_value
to_proto_value rt (bool b) = bool_value b
to_proto_value rt (float64 x) = number_value x
to_proto_value rt (float32 x) = number_value (float64_of_float32 x)
to_proto_value rt (int n) = number_value (float64_of_int n)
to_proto_value rt (int32 n) = number_value (float64_of_int n)
to_proto_value rt (int64 n) = number_value (float64_of_int n)
to_proto_value rt (str s) = string_value s
to_proto_value rt (bytes b) = string_value (rt.string_of_bytes b)
to_proto_value rt (map_of r) = string_value (rt.sprint (map_of r))
to_proto_value rt (slice_of l) = string_value (rt.sprint (slice_of l))
to_proto_value rt (other k) = string_value (rt.sprint (other k))

-- The maps are filled in the order of the `range`, from the entries at hand to those that follow.
unfoldable mutual
  pub from_proto_value : PbValue → Value
  from_proto_value nil_pointer = nil
  from_proto_value no_kind = nil
  from_proto_value null_value = nil
  from_proto_value (number_value x) = float64 x
  from_proto_value (string_value s) = str s
  from_proto_value (bool_value b) = bool b
  from_proto_value (struct_value fs) = map_of (from_fields fs)
  from_proto_value (list_value l) = slice_of (from_items l)

  from_fields : Fields → Row
  from_fields no_fields = empty_row
  from_fields (field k v fs) = entry k (from_proto_value v) (from_fields fs)

  from_items : PbItems → Items
  from_items no_pb_items = no_items
  from_items (pb_item v l) = item (from_proto_value v) (from_items l)

-- `protoFieldsToRow`: the keys of a map are distinct, so each assignment adds an entry.
unfoldable pub proto_fields_to_row : Fields → Row
unfolding from_proto_value
proto_fields_to_row fs = from_fields fs

unfoldable pub row_to_proto_fields : Runtime → Row → Fields
unfolding to_proto_value
row_to_proto_fields rt empty_row = no_fields
row_to_proto_fields rt (entry k v r) = field k (to_proto_value rt v) (row_to_proto_fields rt r)
