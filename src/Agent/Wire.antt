-- ===== src/Agent/Wire.antt =====
-- agent/agent.c, `build_messages_json`: the history in the wire format that the flags of the
-- provider ask for.
use vajra_ai.Prelude.{
  ℕ, zero, suc, ◌+◌, Bool, true, false, ◌&&◌, Option, none, some, List, [], ◌∷◌, ltb, if◌then◌else◌,
}
use vajra_ai.CString.{Bytes, codes, equal}
use vajra_ai.Cjson.{Cjson, object_item?, value?}
use vajra_ai.Agent.State.{Message, MsgFormat}

abbrev is_empty : Bytes → Bool
is_empty [] = true
is_empty (c ∷ cs) = false

module _ {J : Type 0} (cj : Cjson J) where
  -- A field that is written only if its text is not NULL.
  unfoldable pub add_string? : J → Bytes → Option Bytes → J
  add_string? o key none = o
  add_string? o key (some v) = cj.add_string o key v

  abbrev pub string_at : Option J → Bytes → Option Bytes
  string_at o key = value? cj (object_item? o (λ j. cj.object_item j key))

  -- The stored string of arguments as an object, for providers that want one.
  unfoldable pub arguments_object : Option J → J
  arguments_object none = cj.create_object
  arguments_object (some args) =
      let decoded : Option J =
        if cj.is_string args
        then elim (cj.string_value args) [ none ↦ none | some text ↦ cj.parse text ]
        else some args in
      elim decoded [ none ↦ cj.create_object | some o ↦ o ]

  -- The arguments as a string, for the others.
  unfoldable pub add_arguments_string : J → Option J → J
  unfolding add_string?
  add_arguments_string o none = cj.add_string o (codes "arguments") (codes "{}")
  add_arguments_string o (some args) =
      if cj.is_string args
      then add_string? o (codes "arguments") (cj.string_value args)
      else cj.add_string o (codes "arguments")
          (elim (cj.print args) [ none ↦ codes "{}" | some text ↦ text ])

  unfoldable pub add_arguments : MsgFormat → J → Option J → J
  unfolding arguments_object add_arguments_string
  add_arguments fmt o args =
      if fmt.tool_args_as_object
      then cj.add_item o (codes "arguments") (arguments_object args)
      else add_arguments_string o args

  -- One tool call, rebuilt; `none` for an item without a function, which is skipped.
  unfoldable pub wire_call : MsgFormat → Option J → Option J
  unfolding add_string? add_arguments
  wire_call fmt tc = elim (object_item? tc (λ j. cj.object_item j (codes "function"))) [
    | none ↦ none
    | some func ↦
        let call =
          cj.add_string (add_string? cj.create_object (codes "id") (string_at tc (codes "id")))
            (codes "type") (codes "function") in
        let named =
          add_string? cj.create_object (codes "name") (string_at (some func) (codes "name")) in
        let args = cj.object_item func (codes "arguments") in
        some (cj.add_item call (codes "function") (add_arguments fmt named args))
  ]

  abbrev add_call : J → Option J → J
  add_call arr none = arr
  add_call arr (some call) = cj.add_to_array arr call

  -- `for (j = 0; j < size; j++)`, on the rounds left.
  unfoldable pub wire_calls : MsgFormat → J → ℕ → ℕ → J → J
  unfolding wire_call
  wire_calls fmt calls zero j arr = arr
  wire_calls fmt calls (suc n) j arr =
      wire_calls fmt calls n (j + 1) (add_call arr (wire_call fmt (cj.array_item calls j)))

  -- An assistant message that made tool calls and has no text.
  unfoldable pub is_assistant_tool_only : Message J → Bool
  is_assistant_tool_only m =
      equal m.role (codes "assistant")
      && elim m.tool_calls [ none ↦ false | some c ↦ ltb 0 (cj.array_size c) ]
      && is_empty m.content

  add_content : MsgFormat → J → Message J → J
  unfolding is_assistant_tool_only
  add_content fmt msg m =
      if is_assistant_tool_only m
      then (if fmt.assistant_tool_call_empty_content
          then cj.add_string msg (codes "content") []
          else msg)
      else cj.add_string msg (codes "content") m.content

  add_tool_result : MsgFormat → J → Message J → J
  unfolding add_string?
  add_tool_result fmt msg m =
      if equal m.role (codes "tool")
      then (let with_id = add_string? msg (codes "tool_call_id") m.tool_call_id in
          if fmt.tool_result_include_name
          then add_string? with_id (codes "name") m.name
          else with_id)
      else msg

  add_tool_calls : MsgFormat → J → Option J → J
  unfolding wire_calls
  add_tool_calls fmt msg none = msg
  add_tool_calls fmt msg (some calls) =
      cj.add_item msg (codes "tool_calls")
        (wire_calls fmt calls (cj.array_size calls) 0 cj.create_array)

  unfoldable pub wire_message : MsgFormat → Message J → J
  unfolding add_content add_tool_result add_tool_calls
  wire_message fmt m =
      let msg = cj.add_string cj.create_object (codes "role") m.role in
      add_tool_calls fmt (add_tool_result fmt (add_content fmt msg m) m) m.tool_calls

  wire_messages : MsgFormat → J → List (Message J) → J
  unfolding wire_message
  wire_messages fmt arr [] = arr
  wire_messages fmt arr (m ∷ ms) = wire_messages fmt (cj.add_to_array arr (wire_message fmt m)) ms

  unfoldable pub build_messages_json : MsgFormat → List (Message J) → J
  unfolding wire_messages
  build_messages_json fmt ms = wire_messages fmt cj.create_array ms
