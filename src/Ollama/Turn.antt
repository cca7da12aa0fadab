-- ===== src/Ollama/Turn.antt =====
-- agent/agent.c with the provider of providers/ollama/ollama.c.
use vajra_ai.Prelude.{ℕ, Option, none, some}
use vajra_ai.Prelude.Int.{ℤ}
use vajra_ai.CString.{Bytes}
use vajra_ai.Cjson.{Cjson}
use vajra_ai.Cjson.Laws.{Laws}
use vajra_ai.ToolRegistry.{Registry}
use vajra_ai.Agent.State.{Agent}
use vajra_ai.Http.{HttpResponse}
use vajra_ai.Ollama.{OllamaState, ollama_create}

module _ {J W : Type 0} (cj : Cjson J)
    (post : Bytes → Option Bytes → ℤ → W → HttpResponse × W) where
  abbrev pub with_ollama :
      Agent J (W × Option OllamaState)
      → Option Bytes
      → Option Bytes
      → Agent J (W × Option OllamaState)
  with_ollama agent model base_url = record agent {
    provider = ollama_create cj post model base_url;
  }

module _ {J W : Type 0} (cj : Cjson J) (laws : Laws cj)
    (post : Bytes → Option Bytes → ℤ → W → HttpResponse × W)
    (tools : Registry J (W × Option OllamaState)) where
  -- The counter that the ids of a response go on from.
  abbrev counter_of : Option OllamaState → ℕ
  counter_of none = 0
  counter_of (some s) = s.call_counter
