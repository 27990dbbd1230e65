-- ===== src/Value.antt =====
-- The dynamic values of the program: Go's `interface{}` as the drivers and the conversions use it,
-- `Row` of internal/service/service.go, and structpb's `Value`.
pub mod Float
pub mod Rows
use database_router.Shared.{ℕ, suc, Bool, List, [], ◌∷◌, Option, none, some, if◌then◌else◌}
use database_router.Shared.Int.{ℤ}
use database_router.Text.{Text, text_eq}

-- A row is a map; its entries stand in the order in which one `range` over it visits them.
mutual
  pub data Value : Type 0 where
    nil : Value
    bool : Bool → Value
    -- by their IEEE 754 bits
    float64 float32 : ℕ → Value
    int int32 int64 : ℤ → Value
    str : Text → Value
    bytes : List ℕ → Value
    map_of : Row → Value
    slice_of : Items → Value
    -- a value of any other type, such as a time or an ObjectID
    other : ℕ → Value

  pub data Row : Type 0 where
    empty_row : Row
    entry : Text → Value → Row → Row

  pub data Items : Type 0 where
    no_items : Items
    item : Value → Items → Items

-- structpb.Value; a `nil` pointer and a value with no kind are possible too.
mutual
  pub data PbValue : Type 0 where
    nil_pointer no_kind null_value : PbValue
    number_value : ℕ → PbValue
    string_value : Text → PbValue
    bool_value : Bool → PbValue
    struct_value : Fields → PbValue
    list_value : PbItems → PbValue

  pub data Fields : Type 0 where
    no_fields : Fields
    field : Text → PbValue → Fields → Fields

  pub data PbItems : Type 0 where
    no_pb_items : PbItems
    pb_item : PbValue → PbItems → PbItems

-- The parts of Go's library that are tables or printers of dynamic values.
pub record Runtime : Type 0 where
  -- unicode.ToUpper and unicode.ToLower beyond ASCII
  pub upper : ℕ → ℕ
  pub lower : ℕ → ℕ
  -- fmt.Sprintf("%v", v)
  pub sprint : Value → Text
  -- fmt.Sprintf("%q", s)
  pub quoted : Text → Text
  -- database/sql's conversion of a cell to a string
  pub as_string : Value → Option Text
  -- string(b)
  pub string_of_bytes : List ℕ → Text

-- The keys and the values in the order of a `range`.
unfoldable pub keys : Row → List Text
keys empty_row = []
keys (entry k v r) = k ∷ keys r

unfoldable pub values : Row → List Value
values empty_row = []
values (entry k v r) = v ∷ values r

unfoldable pub lookup : Text → Row → Option Value
lookup k empty_row = none
lookup k (entry j v r) = if text_eq j k then some v else lookup k r

-- row[k] = v
unfoldable pub assign : Text → Value → Row → Row
assign k v empty_row = entry k v empty_row
assign k v (entry j w r) = if text_eq j k then entry j v r else entry j w (assign k v r)
