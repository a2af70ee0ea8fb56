-- ===== src/Dsl/Json.antt =====
-- `serde_json::Value`, as far as the manifests use it.
use asmodeus.Prelude.{ℕ, Bool, Option, none, some, Text, text_eq, if◌then◌else◌}

-- A number of the value −(n + 1) is `neg_int n`; a float is its 64 bits.
mutual
  pub data Value : Type 0 where
    null : Value
    boolean : Bool → Value
    pos_int neg_int float : ℕ → Value
    string : Text → Value
    array : Values → Value
    object : Fields → Value

  pub data Values : Type 0 where
    no_values : Values
    value : Value → Values → Values

  -- The entries of an object, the last one inserted first.
  pub data Fields : Type 0 where
    no_fields : Fields
    field : Text → Value → Fields → Fields

-- `Value::as_u64`.
unfoldable pub as_u64 : Value → Option ℕ
as_u64 null = none
as_u64 (boolean b) = none
as_u64 (pos_int n) = some n
as_u64 (neg_int n) = none
as_u64 (float bits) = none
as_u64 (string s) = none
as_u64 (array vs) = none
as_u64 (object fs) = none

-- `Value::as_str`.
unfoldable pub as_str : Value → Option Text
as_str null = none
as_str (boolean b) = none
as_str (pos_int n) = none
as_str (neg_int n) = none
as_str (float bits) = none
as_str (string s) = some s
as_str (array vs) = none
as_str (object fs) = none

-- `Map::get`.
unfoldable pub get_field : Text → Fields → Option Value
get_field k no_fields = none
get_field k (field j v fs) = if text_eq j k then some v else get_field k fs
