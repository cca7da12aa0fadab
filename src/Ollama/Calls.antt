-- ===== src/Ollama/Calls.antt =====
-- providers/ollama/ollama.c: what the tool calls are that a response carries.
use vajra_ai.Prelude.{
  ℕ, ◌≡◌, ◌≢◌, refl, ap, ◌∙◌, inl, inr, false, Option, none, some, [], ◌∷◌, Bool-cases,
}
use vajra_ai.CString.{Bytes, codes, equal_nocase, to_lower}
use vajra_ai.Cjson.{Cjson, object_item?, value?, string_of}
use vajra_ai.Cjson.Laws.{Laws, AddsItem}
use vajra_ai.Agent.Wire.{string_at}
use vajra_ai.Ollama.{if_parsed, checked, args_text, with_args, named_call, kept_call, norm_call}

module _ {J : Type 0} (cj : Cjson J) where
  -- A JSON text that parses.
  abbrev pub Parses : Bytes → Type 0
  Parses text = (o : J) × (cj.parse text ≡ some o)

  -- A tool call in the normalized form: its id, and a function with a name and arguments.
  pub record IsNormCall (id name args : Bytes) (tc : Option J) : Type 0 where
    pub func : J
    pub id_is : string_at cj tc (codes "id") ≡ some id
    pub func_is : object_item? tc (λ j. cj.object_item j (codes "function")) ≡ some func
    pub name_is : string_at cj (some func) (codes "name") ≡ some name
    pub args_is : string_at cj (some func) (codes "arguments") ≡ some args

  -- One whose name is not empty and whose arguments are the text of a JSON value.
  pub record IsCall (id : Bytes) (tc : Option J) : Type 0 where
    pub name : Bytes
    pub args : Bytes
    pub norm : IsNormCall id name args tc
    pub name_there : name ≢ []
    pub args_parse : Parses args

  -- A pair of texts that may stand in a call.
  abbrev pub GoodPair : Option (Bytes × Bytes) → Type 0
  GoodPair none = Unit {0}
  GoodPair (some (name, args)) = (name ≢ []) × Parses args

  abbrev ParsesOption : Option Bytes → Type 0
  ParsesOption none = Unit {0}
  ParsesOption (some text) = Parses text

  if_parsed_lem :
      (text : Bytes) (o : Option J) → cj.parse text ≡ o → ParsesOption (if_parsed cj text o)
  if_parsed_lem text none e = tt
  if_parsed_lem text (some o) e = (o, e)

  checked_lem : (o : Option Bytes) → ParsesOption (checked cj o)
  unfolding checked
  checked_lem none = tt
  checked_lem (some text) = if_parsed_lem text (cj.parse text) refl

module _ {J : Type 0} (cj : Cjson J) (laws : Laws cj) where
  args_text_lem : (args : Option J) → ParsesOption cj (args_text cj args)
  unfolding args_text
  args_text_lem none = laws.parse_empty
  args_text_lem (some args) = elim (Bool-cases (cj.is_string args)) [
    | inl e ↦ rw e (checked_lem cj (cj.string_value args))
    | inr e ↦ rw e (checked_lem cj (cj.print args))
  ]

  with_args_lem :
      (c : ℕ) (cs : Bytes) (o : Option Bytes)
      → ParsesOption cj o
      → GoodPair cj (with_args cj (c ∷ cs) o)
  unfolding with_args
  with_args_lem c cs none h = tt
  with_args_lem c cs (some args) h = (λ e. cc, h)

  named_call_lem : (name : Option Bytes) (args : Option J) → GoodPair cj (named_call cj name args)
  unfolding named_call
  named_call_lem none args = tt
  named_call_lem (some []) args = tt
  named_call_lem (some (c ∷ cs)) args = with_args_lem c cs (args_text cj args) (args_text_lem args)

  pub kept_call_lem : (func : Option J) → GoodPair cj (kept_call cj func)
  unfolding kept_call
  kept_call_lem none = tt
  kept_call_lem (some func) =
      named_call_lem (string_of cj (cj.object_item func (codes "name")))
        (cj.object_item func (codes "arguments"))

  -- A string that was added is read back.
  string_at-added :
      (o o' : J) (key s : Bytes)
      → AddsItem cj o key (laws.string_item s) o'
      → cj.object_item o key ≡ none
      → string_at cj (some o') key ≡ some s
  string_at-added o o' key s added fresh =
      ap (value? cj) (added.hit fresh) ∙ laws.string_item_value s

  -- Any other key reads as before.
  string_at-other :
      (o o' v : J) (key other : Bytes)
      → AddsItem cj o key v o'
      → equal_nocase key other ≡ false
      → string_at cj (some o') other ≡ string_at cj (some o) other
  string_at-other o o' v key other added e = ap (value? cj) (added.miss other e)

  -- The two fields of an object that is built by two string calls.
  pub IsNormCall-norm_call :
      (id name args : Bytes) → IsNormCall cj id name args (some (norm_call cj id name args))
  unfolding norm_call equal_nocase to_lower
  IsNormCall-norm_call id name args =
      let new = cj.create_object in
      let with_id = laws.add_string_lem new (codes "id") id laws.new_object in
      let norm_tc =
        laws.add_string_lem (cj.add_string new (codes "id") id) (codes "type") (codes "function")
          with_id.stays_object in
      let with_name = laws.add_string_lem new (codes "name") name laws.new_object in
      let norm_func =
        laws.add_string_lem (cj.add_string new (codes "name") name) (codes "arguments") args
          with_name.stays_object in
      let func_item =
        cj.add_string (cj.add_string new (codes "name") name) (codes "arguments") args in
      let whole =
        laws.add_item_lem
          (cj.add_string (cj.add_string new (codes "id") id) (codes "type") (codes "function"))
          (codes "function") func_item norm_tc.stays_object in
      record {
        func = func_item;
        id_is =
            string_at-other _ _ _ _ (codes "id") whole refl
            ∙ string_at-other _ _ _ _ (codes "id") norm_tc refl
            ∙ string_at-added _ _ _ _ with_id (laws.new_object_empty (codes "id"));
        func_is = whole.hit (
            norm_tc.miss (codes "function") refl
            ∙ with_id.miss (codes "function") refl
            ∙ laws.new_object_empty (codes "function"));
        name_is =
            string_at-other _ _ _ _ (codes "name") norm_func refl
            ∙ string_at-added _ _ _ _ with_name (laws.new_object_empty (codes "name"));
        args_is =
            string_at-added _ _ _ _ norm_func
              (with_name.miss (codes "arguments") refl ∙ laws.new_object_empty (codes "arguments"));
      }

  pub IsCall-norm_call :
      (id name args : Bytes)
      → name ≢ []
      → Parses cj args
      → IsCall cj id (some (norm_call cj id name args))
  IsCall-norm_call id name args there parses = record {
    name = name;
    args = args;
    norm = IsNormCall-norm_call id name args;
    name_there = there;
    args_parse = parses;
  }
