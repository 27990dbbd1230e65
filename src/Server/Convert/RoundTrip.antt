-- ===== src/Server/Convert/RoundTrip.antt =====
-- What survives the two conversions between rows and structpb.
use database_router.Shared.{◌≡◌, ◌↔◌, refl}
use database_router.Value.{
  PbValue, nil_pointer, no_kind, null_value, number_value, string_value, bool_value, struct_value,
  list_value, Fields, no_fields, field, Runtime,
}
use database_router.Server.Convert.{
  to_proto_value, from_proto_value, proto_fields_to_row, row_to_proto_fields,
}

-- A null, a number, a text or a Boolean.
abbrev pub IsScalar : PbValue → Type 0
IsScalar null_value = Unit
IsScalar (number_value x) = Unit
IsScalar (string_value s) = Unit
IsScalar (bool_value b) = Unit
IsScalar _ = ⊥

abbrev pub AllScalar : Fields → Type 0
AllScalar no_fields = Unit
AllScalar (field k v fs) = IsScalar v × AllScalar fs

-- A value that a client writes is read back as it was written exactly if it is a scalar: a list or a
-- struct comes back as a text.
pub to_proto-from_proto :
    (rt : Runtime) (v : PbValue) → (to_proto_value rt (from_proto_value v) ≡ v) ↔ IsScalar v
unfolding to_proto_value from_proto_value
to_proto-from_proto rt nil_pointer = (λ e. cc, λ x. absurd x)
to_proto-from_proto rt no_kind = (λ e. cc, λ x. absurd x)
to_proto-from_proto rt null_value = (λ _. tt, λ _. refl)
to_proto-from_proto rt (number_value x) = (λ _. tt, λ _. refl)
to_proto-from_proto rt (string_value s) = (λ _. tt, λ _. refl)
to_proto-from_proto rt (bool_value b) = (λ _. tt, λ _. refl)
to_proto-from_proto rt (struct_value fs) = (λ e. cc, λ x. absurd x)
to_proto-from_proto rt (list_value l) = (λ e. cc, λ x. absurd x)

-- Fields of scalars survive the way into a row and back.
fields_round_trip :
    (rt : Runtime) (fs : Fields)
    → AllScalar fs
    → row_to_proto_fields rt (proto_fields_to_row fs) ≡ fs
unfolding row_to_proto_fields proto_fields_to_row
fields_round_trip rt no_fields h = refl
fields_round_trip rt (field k v fs) (hv, h) =
    cc ((to_proto-from_proto rt v).1 hv, fields_round_trip rt fs h)
