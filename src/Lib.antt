-- ===== src/Lib.antt =====
-- A model of the Aham agent (src/ of the repository), a C program that runs an agentic loop against
-- a language model, with the theorems about it.
--
-- The agent keeps a history of messages. A turn (agent_chat) adds the user's message and then asks
-- the provider again and again: tool calls in a response are looked up in the tool registry, run,
-- and their results added to the history; a response without tool calls ends the turn. The history
-- is compacted where it is full. The tools ask the allowlist whether a command or a path is
-- permitted, and the configuration gives the limits. The gateway starts turns on requests, and answers
-- a page of the tasks of the scheduler; a line that begins with a slash is answered without a turn. The
-- providers turn a history into a request and an answer into a response.
--
-- Which file models which part:
--   Types, Types/*: src/core/types.c (result_t, str_trim, sanitize_output, strbuf_t)
--   ToolRegistry, ToolRegistry/*: src/agent/tool_registry.c
--   Agent/State: the records of src/agent/agent.h and src/providers/provider.h, and the functions
--     of src/agent/agent.c that make and reset an agent
--   Agent/History, Agent/History/*: agent_compact_history, agent_add_message, the roll-back
--   Agent/Think, Agent/Think/*: strip_think_tags
--   Agent/Wire: build_messages_json
--   Agent/Chat, Agent/Chat/*: parse_tool_arguments and agent_chat
--   Allowlist, Allowlist/*: src/security/allowlist.c
--   Config, Config/*: src/core/config.c
--   Scheduler, Scheduler/*: src/tools/scheduler/scheduler.c
--   FileTools, FileTools/*: src/tools/file_ops/file_tool.c
--   Templates, Templates/*: src/core/templates.c
--   Shell, Shell/*: src/tools/shell/shell_tool.c
--   Http, Http/*: src/providers/http_client.c
--   Providers, Providers/*: src/providers/registry.c
--   HistoryLog, HistoryLog/*: src/history/history.c
--   Ollama, Ollama/*: src/providers/ollama/ollama.c
--   Openai, Openai/*: src/providers/openai/openai.c
--   MdMemory, MdMemory/*: src/memory/md_memory.c
--   Skills, Skills/*: src/tools/skills/skills.c
--   Gateway, Gateway/*: src/gateway/gateway.c
--   Heartbeat, Heartbeat/*: src/heartbeat/heartbeat.c
--   SlashCommands, SlashCommands/*: src/ux/slash_commands.c
--   Serial, Serial/*: src/tools/serial/serial_tool.c
--   CString, CString/*: the functions of <string.h> and <ctype.h> that the sources call
--   Files: fgets() over a file's content
--   Memory: the faults that C code may end in, and the code that does not
--   Cjson: the calls of the cJSON library, as a record of operations
--   Prelude, Prelude/*: shared names and lemmas
--   Tests, Tests/*: runs at concrete inputs, and the theorems at inputs that meet their hypotheses
--
-- How the code corresponds. A `char *` is the list of its bytes up to the NUL, and an `Option` where
-- it may be NULL. An array with its count is the list of the elements in use, and a write at the
-- count is a fault if the count is the size of the array (Memory.Outcome). A function that changes
-- a structure returns the new one. A loop over an array is a recursion on the list, `for` with a
-- counter a recursion on the rounds left. Memory that is allocated is there: a failed malloc is not
-- modelled, and free has no counterpart.
--
-- Bounds and fuel. size_t is 64 bits wide and its sums are taken modulo 2 ^ 64. The doubling loop of
-- the string buffer has fuel 65, enough for every size up to 2 ^ 63 (Types.StrBuf.grow_total). The
-- loop of strip_think_tags has the length of its input and one more as fuel, enough since every
-- round takes the two tags off (Agent.Think.Blocks.strip_text-total). The loop over the details of a
-- log entry has the length of the details as fuel (HistoryLog.Entries.log_all-sections). The loop of
-- shell_run_timed runs over the list of what its rounds meet, and the reads of a round are a list too:
-- a child that keeps the pipe filled for ever is not represented.
--
-- Parameters. cJSON values are an arbitrary type with the operations of Cjson. The provider's
-- chat_complete and the tools' execute are functions on an arbitrary world. fnmatch of POSIX is an
-- arbitrary Boolean function. What a child process writes and when it ends, what libcurl answers,
-- what the calls of the file system do and what the clock shows are arguments.
--
-- What is not modelled, and why: src/core/cJSON.c is a copy of the cJSON library; its calls are the
-- record Cjson, and what is relied on of them is the record Cjson.Laws. src/core/log.c,
-- src/ux/typing.c, sockets, signals, fork and the start of threads are input and output, and
-- src/cli/main.c is glue. Of src/gateway/gateway.c the calls of the socket interface are left out: a
-- connection is the list of the pieces that it yields. Of src/tools/serial/serial_tool.c
-- the calls of termios, select() and the clock are left out: what a port yields up to a deadline is a
-- list of events.
mod Prelude
pub mod CString
pub mod Files
pub mod Memory
pub mod Cjson
pub mod Types
pub mod ToolRegistry
pub mod Agent
pub mod Allowlist
pub mod Config
pub mod Scheduler
pub mod Shell
pub mod Http
pub mod Providers
pub mod HistoryLog
pub mod FileTools
pub mod Templates
pub mod Ollama
pub mod Openai
pub mod MdMemory
pub mod Skills
pub mod Gateway
pub mod Heartbeat
pub mod SlashCommands
pub mod Serial
mod Tests
