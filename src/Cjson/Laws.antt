-- ===== src/Cjson/Laws.antt =====
-- What the program relies on when it reads back a value that it has built by calls of cJSON: the
-- documented behaviour of the Add… and Get… calls. Keys are compared without their case, as
-- cJSON_GetObjectItem does.
use mathlib.Core.Path.{subst}
use vajra_ai.Prelude.{
  ℕ, suc, ◌<◌, ◌≡◌, sym, inl, inr, true, false, Option, none, some, arith, ◌==◌, ==_iff, Bool-cases,
}
use vajra_ai.CString.{Bytes, codes, equal_nocase}
use vajra_ai.Cjson.{Cjson}

-- An Add… call that puts `v` at `key` into `o`.
pub record AddsItem {J : Type 0} (cj : Cjson J) (o : J) (key : Bytes) (v o' : J) : Type 0 where
  pub stays_object : cj.is_object o' ≡ true
  pub hit : cj.object_item o key ≡ none → cj.object_item o' key ≡ some v
  pub miss :
      (other : Bytes)
      → equal_nocase key other ≡ false
      → cj.object_item o' other ≡ cj.object_item o other

pub record Laws {J : Type 0} (cj : Cjson J) : Type 0 where
  pub new_object : cj.is_object cj.create_object ≡ true
  pub new_object_empty : (key : Bytes) → cj.object_item cj.create_object key ≡ none
  pub add_item_lem :
      (o : J) (key : Bytes) (v : J)
      → cj.is_object o ≡ true
      → AddsItem cj o key v (cj.add_item o key v)
  pub string_item : Bytes → J
  pub string_item_value : (s : Bytes) → cj.string_value (string_item s) ≡ some s
  pub string_item_is_string : (s : Bytes) → cj.is_string (string_item s) ≡ true
  pub add_string_lem :
      (o : J) (key s : Bytes)
      → cj.is_object o ≡ true
      → AddsItem cj o key (string_item s) (cj.add_string o key s)
  pub new_array : cj.is_array cj.create_array ≡ true
  pub new_array_empty : cj.array_size cj.create_array ≡ 0
  pub add_to_array-is_array :
      (a v : J) → cj.is_array a ≡ true → cj.is_array (cj.add_to_array a v) ≡ true
  pub add_to_array-size :
      (a v : J) → cj.is_array a ≡ true → cj.array_size (cj.add_to_array a v) ≡ suc (cj.array_size a)
  pub add_to_array-last :
      (a v : J)
      → cj.is_array a ≡ true
      → cj.array_item (cj.add_to_array a v) (cj.array_size a) ≡ some v
  pub add_to_array-before :
      (a v : J) (i : ℕ)
      → cj.is_array a ≡ true
      → i < cj.array_size a
      → cj.array_item (cj.add_to_array a v) i ≡ cj.array_item a i
  pub parse_empty : (o : J) × (cj.parse (codes "{}") ≡ some o)

-- An array each of whose items has a property, which may speak of its index.
pub record Items {J : Type 0} (cj : Cjson J) (P : ℕ → Option J → Type 0) (a : J) : Type 0 where
  pub is_array : cj.is_array a ≡ true
  pub entry : (i : ℕ) → i < cj.array_size a → P i (cj.array_item a i)

below_lem : (i n : ℕ) → (i == n) ≡ false → i < suc n → i < n
below_lem i n e h = ground arith

module _ {J : Type 0} (cj : Cjson J) (laws : Laws cj) (P : ℕ → Option J → Type 0) where
  pub Items-create_array : Items cj P cj.create_array
  Items-create_array = record {
    is_array = laws.new_array;
    entry = λ i lt. absurd (omega (arith, lt, laws.new_array_empty));
  }

  pub Items-add_to_array :
      (a v : J) → Items cj P a → P (cj.array_size a) (some v) → Items cj P (cj.add_to_array a v)
  Items-add_to_array a v h p = record {
    is_array = laws.add_to_array-is_array a v h.is_array;
    entry = λ i lt. elim (Bool-cases (i == cj.array_size a)) [
      | inl same ↦
          subst (λ (k : ℕ). P k (cj.array_item (cj.add_to_array a v) k))
            (sym ((==_iff i (cj.array_size a)).0 same))
            (subst (P (cj.array_size a)) (sym (laws.add_to_array-last a v h.is_array)) p)
      | inr other ↦
          let below : i < cj.array_size a =
            below_lem i (cj.array_size a) other
              (omega (arith, lt, laws.add_to_array-size a v h.is_array)) in
          subst (P i) (sym (laws.add_to_array-before a v i h.is_array below)) (h.entry i below)
    ];
  }
