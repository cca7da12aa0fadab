-- ===== src/Tests/Json/Laws.antt =====
-- The JSON of the tests does what the model relies on of cJSON.
use vajra_ai.Prelude.{
  ℕ, zero, suc, ◌<◌, ◌≡◌, refl, true, false, Option, none, some, [], ◌∷◌, arith, Bool-cases, inl,
  inr,
}
use vajra_ai.CString.{Bytes, equal, equal_nocase, to_lower}
use vajra_ai.CString.Laws.{equal_refl}
use vajra_ai.Cjson.Laws.{AddsItem, Laws}
use vajra_ai.Tests.Json.{
  Json, str, num, boolean, arr, obj, Items, nil, cons, Fields, end, field, add_field, add_to, size,
  item, get_field, is_object, is_array, array_size, array_item, add_item, add_to_array, parsing,
}

-- Strings that differ also without their case differ.
equal-false : (s t : Bytes) → equal_nocase s t ≡ false → equal s t ≡ false
unfolding equal equal_nocase to_lower
equal-false [] [] h = cc
equal-false [] (d ∷ ds) h = refl
equal-false (c ∷ cs) [] h = refl
equal-false (c ∷ cs) (d ∷ ds) h = ground (arith, equal-false cs ds)

get_field-add_field_self :
    (fs : Fields) (k : Bytes) (v : Json)
    → get_field fs k ≡ none
    → get_field (add_field fs k v) k ≡ some v
unfolding get_field add_field
get_field-add_field_self end k v h = rw (equal_refl k) refl
get_field-add_field_self (field j w fs) k v h = elim (Bool-cases (equal j k)) [
  | inl e ↦ absurd (let bad : Option.some w ≡ none = rw e at h in cc)
  | inr e ↦ rw e (get_field-add_field_self fs k v (rw e at h))
]

get_field-add_field_other :
    (fs : Fields) (k other : Bytes) (v : Json)
    → equal k other ≡ false
    → get_field (add_field fs k v) other ≡ get_field fs other
unfolding get_field add_field
get_field-add_field_other end k other v h = rw h refl
get_field-add_field_other (field j w fs) k other v h =
    ground (arith, get_field-add_field_other fs k other v h)

add_item-AddsItem :
    (others : Bytes → Option Json) (o : Json) (key : Bytes) (v : Json)
    → is_object o ≡ true
    → AddsItem (parsing others) o key v (add_item o key v)
add_item-AddsItem others (obj fs) key v h = record {
  stays_object = refl;
  hit = get_field-add_field_self fs key v;
  miss = λ other e. get_field-add_field_other fs key other v (equal-false key other e);
}
add_item-AddsItem others (str s) key v h = absurd (cc)
add_item-AddsItem others (num n) key v h = absurd (cc)
add_item-AddsItem others (boolean b) key v h = absurd (cc)
add_item-AddsItem others (arr xs) key v h = absurd (cc)

size-add_to : (xs : Items) (v : Json) → size (add_to xs v) ≡ suc (size xs)
unfolding size add_to
size-add_to nil v = refl
size-add_to (cons w xs) v = omega (arith, size-add_to xs v)

item-add_to_last : (xs : Items) (v : Json) → item (add_to xs v) (size xs) ≡ some v
unfolding size add_to item
item-add_to_last nil v = refl
item-add_to_last (cons w xs) v = item-add_to_last xs v

item-add_to_before :
    (xs : Items) (v : Json) (i : ℕ) → i < size xs → item (add_to xs v) i ≡ item xs i
unfolding size add_to item
item-add_to_before nil v i h = absurd (omega arith)
item-add_to_before (cons w xs) v zero h = refl
item-add_to_before (cons w xs) v (suc i) h = item-add_to_before xs v i (omega arith)

array-is_array : (a v : Json) → is_array a ≡ true → is_array (add_to_array a v) ≡ true
array-is_array (arr xs) v h = refl
array-is_array (str s) v h = cc
array-is_array (num n) v h = cc
array-is_array (boolean b) v h = cc
array-is_array (obj fs) v h = cc

array-size : (a v : Json) → is_array a ≡ true → array_size (add_to_array a v) ≡ suc (array_size a)
array-size (arr xs) v h = size-add_to xs v
array-size (str s) v h = absurd (cc)
array-size (num n) v h = absurd (cc)
array-size (boolean b) v h = absurd (cc)
array-size (obj fs) v h = absurd (cc)

array-last :
    (a v : Json) → is_array a ≡ true → array_item (add_to_array a v) (array_size a) ≡ some v
array-last (arr xs) v h = item-add_to_last xs v
array-last (str s) v h = absurd (cc)
array-last (num n) v h = absurd (cc)
array-last (boolean b) v h = absurd (cc)
array-last (obj fs) v h = absurd (cc)

array-before :
    (a v : Json) (i : ℕ)
    → is_array a ≡ true
    → i < array_size a
    → array_item (add_to_array a v) i ≡ array_item a i
array-before (arr xs) v i h lt = item-add_to_before xs v i lt
array-before (str s) v i h lt = absurd (cc)
array-before (num n) v i h lt = absurd (cc)
array-before (boolean b) v i h lt = absurd (cc)
array-before (obj fs) v i h lt = absurd (cc)

pub parsing-Laws : (others : Bytes → Option Json) → Laws (parsing others)
unfolding get_field size equal
parsing-Laws others = record {
  new_object = refl;
  new_object_empty = λ key. refl;
  add_item_lem = add_item-AddsItem others;
  string_item = str;
  string_item_value = λ s. refl;
  string_item_is_string = λ s. refl;
  add_string_lem = λ o key s. add_item-AddsItem others o key (str s);
  new_array = refl;
  new_array_empty = refl;
  add_to_array-is_array = array-is_array;
  add_to_array-size = array-size;
  add_to_array-last = array-last;
  add_to_array-before = array-before;
  parse_empty = (obj end, refl);
}
