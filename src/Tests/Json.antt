-- ===== src/Tests/Json.antt =====
-- A small JSON type that stands for cJSON in the tests.
pub mod Laws
use vajra_ai.Prelude.{ℕ, zero, suc, Bool, true, false, Option, none, some, if◌then◌else◌}
use vajra_ai.Prelude.Int.{ℤ, pos}
use vajra_ai.CString.{Bytes, codes, equal}
use vajra_ai.Cjson.{Cjson}

mutual
  pub data Json : Type 0 where
    str : Bytes → Json
    num : ℤ → Json
    boolean : Bool → Json
    arr : Items → Json
    obj : Fields → Json

  pub data Items : Type 0 where
    nil : Items
    cons : Json → Items → Items

  pub data Fields : Type 0 where
    end : Fields
    field : Bytes → Json → Fields → Fields

unfoldable pub add_field : Fields → Bytes → Json → Fields
add_field end k v = field k v end
add_field (field j w fs) k v = field j w (add_field fs k v)

unfoldable pub add_to : Items → Json → Items
add_to nil v = cons v nil
add_to (cons w xs) v = cons w (add_to xs v)

unfoldable pub size : Items → ℕ
size nil = 0
size (cons _ xs) = suc (size xs)

unfoldable pub item : Items → ℕ → Option Json
item nil i = none
item (cons v xs) zero = some v
item (cons v xs) (suc i) = item xs i

unfoldable pub get_field : Fields → Bytes → Option Json
unfolding equal
get_field end k = none
get_field (field j v fs) k = if equal j k then some v else get_field fs k

abbrev pub add_item : Json → Bytes → Json → Json
add_item (obj fs) k v = obj (add_field fs k v)
add_item j k v = j

abbrev pub add_to_array : Json → Json → Json
add_to_array (arr xs) v = arr (add_to xs v)
add_to_array j v = j

abbrev pub array_size : Json → ℕ
array_size (arr xs) = size xs
array_size j = 0

abbrev pub array_item : Json → ℕ → Option Json
array_item (arr xs) i = item xs i
array_item j i = none

abbrev pub object_item : Json → Bytes → Option Json
object_item (obj fs) k = get_field fs k
object_item j k = none

abbrev pub is_string : Json → Bool
is_string (str s) = true
is_string j = false

abbrev pub string_value : Json → Option Bytes
string_value (str s) = some s
string_value j = none

abbrev pub is_number : Json → Bool
is_number (num n) = true
is_number j = false

abbrev pub is_array : Json → Bool
is_array (arr xs) = true
is_array j = false

abbrev pub is_object : Json → Bool
is_object (obj fs) = true
is_object j = false

abbrev pub is_bool : Json → Bool
is_bool (boolean b) = true
is_bool j = false

abbrev pub is_true : Json → Bool
is_true (boolean b) = b
is_true j = false

abbrev pub int_value : Json → ℤ
int_value (num n) = n
int_value j = pos 0

-- The empty object parses, and what else does is a parameter; printing shows only the text of a
-- string.
abbrev pub parsing : (Bytes → Option Json) → Cjson Json
parsing others = record {
  parse = λ s. if equal s (codes "{}") then some (obj end) else others s;
  print = λ j. string_value j;
  create_object = obj end;
  create_array = arr nil;
  create_string = str;
  add_string = λ o k v. add_item o k (str v);
  add_number = λ o k v. add_item o k (num (pos v));
  add_int = λ o k v. add_item o k (num v);
  add_bool = λ o k v. add_item o k (boolean v);
  add_item = add_item;
  add_to_array = add_to_array;
  array_size = array_size;
  array_item = array_item;
  object_item = object_item;
  is_string = is_string;
  is_number = λ j. is_number j;
  is_array = is_array;
  is_object = is_object;
  is_null = λ j. false;
  is_bool = is_bool;
  is_true = is_true;
  int_value = int_value;
  string_value = string_value;
}

abbrev pub json : Cjson Json
json = parsing (λ s. none)
