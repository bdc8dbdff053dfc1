-- ===== src/Examples/Dispatches.antt =====
-- MCP messages dispatched over a concrete JSON.
use veetee_vuqb.Base.{ℕ, ◌≡◌, refl, none, some, [], ◌∷◌, replicate, str_eq}
use veetee_vuqb.Base.Text.{codes}
use veetee_vuqb.Mcp.{Registry, ok, zero_registry, registry_tool_at, Tool}
use veetee_vuqb.Mcp.Call.{Answer}
use veetee_vuqb.Examples.Trees.{Json, text, number, empty, field, json}
use veetee_vuqb.McpDispatch.{DispatchResult, Reply, dispatch_message}

abbrev lamp : Tool
lamp = record {
  name = some (codes "lamp");
  description = none;
  input_schema_json = some (codes "{}");
  invoke = some 1;
}

abbrev fan : Tool
fan = record lamp { name = some (codes "fan") }

abbrev registry : Registry
registry = record zero_registry { tools = some (lamp ∷ fan ∷ []); tool_count = 2 }

fan_at : registry_tool_at registry 1 ≡ some fan
unfolding registry_tool_at
fan_at = refl

-- A call of the lamp under the request id `id`.
abbrev call_lamp : ℕ → Json
call_lamp id = field (codes "type") (text (codes "mcp")) (
    field (codes "payload")
      (field (codes "jsonrpc") (text (codes "2.0")) (
        field (codes "method") (text (codes "tools/call")) (
          field (codes "id") (number id)
            (field (codes "params") (field (codes "name") (text (codes "lamp")) empty) empty))))
      empty)

abbrev yes : Answer
yes = record { status = ok; written = codes "{}"; length = 2 }

abbrev reply : Reply
reply = record { output = replicate 120 0; capacity = 120; session_id = codes "s1" }

wrong_session :
    (dispatch_message json reply
      (λ callback arguments. yes)
      (codes "veetee")
      (codes "1")
      registry
      (field (codes "session_id") (text (codes "s2")) (call_lamp 3))).1.0
    ≡ DispatchResult.err_envelope
unfolding dispatch_message str_eq
wrong_session = refl
