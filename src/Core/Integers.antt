-- ===== src/Core/Integers.antt =====
-- Integers on their way between an application and the router.
use database_router.Shared.{◌≡◌, none, some, Option}
use database_router.Shared.Int.{ℤ}
use database_router.Value.{int, int32, int64, PbValue, number_value, Runtime}
use database_router.Value.Float.Exact.{exact_integer, IsExact, exact_integer-float64_of_int}
use database_router.Server.Convert.{to_proto_value}
use database_router.Core.{pack_value}

-- The integer that a number of structpb is exactly; a number that is not an integer has none.
abbrev pub integer_of : PbValue → Option ℤ
integer_of (number_value x) = exact_integer x
integer_of _ = none

-- Below 2 ^ 53 in magnitude, an int, an int32 and an int64 in a row of the router, and an int that an
-- application stores through PgInsert, are sent as exactly the number that they are.
pub integers_exact :
    (rt : Runtime) (n : ℤ)
    → IsExact n
    → (integer_of (to_proto_value rt (int n)) ≡ some n)
      × (integer_of (to_proto_value rt (int32 n)) ≡ some n)
      × (integer_of (to_proto_value rt (int64 n)) ≡ some n)
      × (integer_of (pack_value rt (int n)) ≡ some n)
unfolding to_proto_value pack_value
integers_exact rt n h = let exact = exact_integer-float64_of_int n h in (exact, exact, exact, exact)
