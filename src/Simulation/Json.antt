-- ===== src/Simulation/Json.antt =====
-- `serde_json::Value`, as far as crates/mailbox/src/parser.rs and crates/simulation/src/rpc.rs look
-- into it: `get` of an object's field, `as_str` and `as_array`.
use sidecar.Prelude.{
  ℕ, suc, ◌+◌, Bool, Option, none, some, List, [], ◌∷◌, Bytes, bytes_beq, if◌then◌else◌,
}

mutual
  pub data Value : Type 0 where
    null : Value
    bool : Bool → Value
    num : ℕ → Value
    str : Bytes → Value
    arr : Items → Value
    obj : Fields → Value

  pub data Items : Type 0 where
    nil : Items
    cons : Value → Items → Items

  pub data Fields : Type 0 where
    end : Fields
    field : Bytes → Value → Fields → Fields

abbrev pub elements : Items → List Value
elements nil = []
elements (cons v vs) = v ∷ elements vs

abbrev pub get_field : Bytes → Fields → Option Value
get_field key end = none
get_field key (field k v fs) = if bytes_beq k key then some v else get_field key fs

abbrev pub get : Bytes → Value → Option Value
get key (obj fs) = get_field key fs
get key _ = none

abbrev pub as_str : Value → Option Bytes
as_str (str s) = some s
as_str _ = none

abbrev pub as_array : Value → Option (List Value)
as_array (arr vs) = some (elements vs)
as_array _ = none

-- `node.get(key).and_then(|v| v.as_str())`
abbrev pub text_of : Option Value → Option Bytes
text_of none = none
text_of (some v) = as_str v

-- The number of values in a value.
unfoldable mutual
  pub size : Value → ℕ
  size null = 1
  size (bool b) = 1
  size (num n) = 1
  size (str s) = 1
  size (arr vs) = suc (size_items vs)
  size (obj fs) = suc (size_fields fs)

  pub size_items : Items → ℕ
  size_items nil = 0
  size_items (cons v vs) = size v + size_items vs

  pub size_fields : Fields → ℕ
  size_fields end = 0
  size_fields (field k v fs) = size v + size_fields fs
