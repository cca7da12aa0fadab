-- ===== src/Cjson.antt =====
-- The calls that the program makes of the cJSON library, whose copy in core/cJSON.c is not
-- modelled. A value is immutable here: an `Add…` call returns the value that the C call leaves in
-- its first argument, and `cJSON_Duplicate` is the value itself.
pub mod Laws
use vajra_ai.Prelude.{ℕ, Bool, Option, none, some, ◌++◌, if◌then◌else◌}
use vajra_ai.Prelude.Int.{ℤ}
use vajra_ai.CString.{Bytes, codes}

pub record Cjson (J : Type 0) : Type 0 where
  pub parse : Bytes → Option J
  -- cJSON_PrintUnformatted; NULL if it fails
  pub print : J → Option Bytes
  pub create_object : J
  pub create_array : J
  pub create_string : Bytes → J
  -- cJSON_AddStringToObject, cJSON_AddNumberToObject (at a number that is not negative, and at any
  -- int), cJSON_AddBoolToObject, cJSON_AddItemToObject
  pub add_string : J → Bytes → Bytes → J
  pub add_number : J → Bytes → ℕ → J
  pub add_int : J → Bytes → ℤ → J
  pub add_bool : J → Bytes → Bool → J
  pub add_item : J → Bytes → J → J
  -- cJSON_AddItemToArray
  pub add_to_array : J → J → J
  pub array_size : J → ℕ
  pub array_item : J → ℕ → Option J
  pub object_item : J → Bytes → Option J
  pub is_string : J → Bool
  pub is_number : J → Bool
  pub is_array : J → Bool
  pub is_object : J → Bool
  pub is_null : J → Bool
  pub is_bool : J → Bool
  pub is_true : J → Bool
  -- the field `valueint`
  pub int_value : J → ℤ
  -- cJSON_GetStringValue: NULL if the value is no string
  pub string_value : J → Option Bytes

-- cJSON_GetStringValue, which passes a NULL on.
abbrev pub value? : {J : Type 0} → Cjson J → Option J → Option Bytes
value? cj none = none
value? cj (some v) = cj.string_value v

-- cJSON_GetStringValue(cJSON_GetObjectItem(args, key))
unfoldable pub string_arg : {J : Type 0} → Cjson J → J → Bytes → Option Bytes
string_arg cj args key = value? cj (cj.object_item args key)

-- The answer of a tool that is written as a literal.
unfoldable pub error_json : Bytes → Option Bytes
error_json text = some (codes "{\"error\": \"" ++ text ++ codes "\"}")

-- cJSON_GetObjectItem, which returns NULL on NULL.
abbrev pub object_item? {ℓ} : {J : Type ℓ} → Option J → (J → Option J) → Option J
object_item? none f = none
object_item? (some o) f = f o

-- The text of a value that is there and is a string.
unfoldable pub string_of : {J : Type 0} → Cjson J → Option J → Option Bytes
string_of cj none = none
string_of cj (some v) = if cj.is_string v then cj.string_value v else none
