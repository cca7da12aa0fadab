-- ===== src/Agent/State.antt =====
-- agent/agent.h and providers/provider.h: messages, the provider interface, the agent, and the
-- functions of agent/agent.c that make, extend and reset an agent. `J` are cJSON values and `W` is
-- the world that the provider and the tools act on.
use vajra_ai.Prelude.{
  ℕ, Bool, ◌&&◌, Option, none, some, List, [], ◌∷◌, ◌++◌, ltb, leb, if◌then◌else◌, length,
}
use vajra_ai.Prelude.Int.{ℤ, pos, negsuc}
use vajra_ai.CString.{Bytes, codes}

abbrev pub max_messages : ℕ
max_messages = 128

abbrev pub max_system_parts : ℕ
max_system_parts = 16

-- `message_t`
pub record Message (J : Type 0) : Type 0 where
  pub role : Bytes
  pub content : Bytes
  pub tool_call_id : Option Bytes
  pub name : Option Bytes
  pub tool_calls : Option J

-- `msg_format_t`
pub record MsgFormat : Type 0 where
  pub tool_result_include_name : Bool
  pub assistant_tool_call_empty_content : Bool
  pub send_tool_choice_auto : Bool
  pub tool_args_as_object : Bool

-- `llm_response_t`, without the token counts, which the agent does not read.
pub record LlmResponse (J : Type 0) : Type 0 where
  pub content : Option Bytes
  pub tool_calls : Option J
  pub error : Option Bytes

-- `provider_t`: `chat_complete` takes the messages and the tools as printed JSON, either of which
-- is NULL where printing failed.
pub record Provider (J W : Type 0) : Type 0 where
  pub name : Bytes
  pub model : Bytes
  pub fmt : MsgFormat
  pub chat_complete : Option Bytes → Option Bytes → W → LlmResponse J × W

-- `agent_t`: the arrays and their counts are lists. `on_thinking` gets the number of the iteration
-- that its status text names; `on_response` is called nowhere in agent.c.
pub record Agent (J W : Type 0) : Type 0 where
  pub provider : Provider J W
  pub messages : List (Message J)
  pub max_iterations : ℤ
  pub history_limit : ℤ
  pub system_parts : List Bytes
  pub on_thinking : Option (ℕ → W → W)

module _ {J W : Type 0} where
  -- `agent_create`, where `calloc` succeeds.
  unfoldable pub agent_create : Provider J W → Agent J W
  agent_create provider = record {
    provider = provider;
    messages = [];
    max_iterations = pos 10;
    history_limit = pos 0;
    system_parts = [];
    on_thinking = none;
  }

  unfoldable pub agent_add_system_part : Agent J W → Option Bytes → Agent J W
  agent_add_system_part agent none = agent
  agent_add_system_part agent (some part) =
      if leb max_system_parts (length agent.system_parts)
      then agent
      else record agent { system_parts = agent.system_parts ++ part ∷ [] }

  unfoldable pub agent_new_conversation : Agent J W → Agent J W
  agent_new_conversation agent = record agent { messages = [] }

  unfoldable pub agent_message_count : Option (Agent J W) → ℕ
  agent_message_count none = 0
  agent_message_count (some agent) = length agent.messages

-- `build_system_prompt`: every part with a blank line behind it.
unfoldable pub build_system_prompt : List Bytes → Bytes
build_system_prompt [] = []
build_system_prompt (part ∷ parts) = part ++ (codes "\n\n" ++ build_system_prompt parts)

-- The history limit in force: `history_limit` (the C field `max_messages`) if it lies in 1..128.
unfoldable pub limit_of : ℤ → ℕ
limit_of (pos m) = if ltb 0 m && leb m max_messages then m else max_messages
limit_of (negsuc _) = max_messages
