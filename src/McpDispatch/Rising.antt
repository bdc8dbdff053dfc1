-- ===== src/McpDispatch/Rising.antt =====
-- The dispatcher reaches the registry only by calls, so no request id is executed twice.
use veetee_vuqb.Base.{
  ℕ, ◌≤◌, ◌<◌, ◌≡◌, Bool, true, false, if◌then◌else◌, not, ◌&&◌, ◌||◌, arith, Option, none, some,
  List, str_eq, take,
}
use veetee_vuqb.Base.Text.{codes}
use veetee_vuqb.Mcp.{McpResult, Registry, is_null, name_eq}
use veetee_vuqb.Mcp.Call.{Answer, Invocation, failed}
use veetee_vuqb.Mcp.Calls.{call_moves}
use veetee_vuqb.Base.Int.{pos}
use veetee_vuqb.Mcp.Digest.{digest_call}
use veetee_vuqb.Json.{CJson, string_of, is_object}
use veetee_vuqb.McpDispatch.{
  DispatchResult, Reply, Dispatched, Sent, object_item, positive_request_id, respond, call_printed,
  call_tool, print_arguments, dispatch_method, dispatch_payload, dispatch_message,
}

-- The high-water mark does not fall, and an invocation is of a request above it, which is the new mark.
unfoldable pub Moves : Registry → Dispatched → Type 0
Moves registry (registry', sent, made) =
    (registry.highest_request_id ≤ registry'.highest_request_id)
    × ((i : Invocation)
        → made ≡ some i
        → (registry.highest_request_id < i.request_id)
          × (i.request_id ≡ registry'.highest_request_id))

quiet : (registry : Registry) (sent : Sent) → Moves registry (registry, sent, none)
unfolding Moves
quiet registry sent = (omega arith, λ i e. absurd (cc))

Moves-if :
    (registry : Registry) (b : Bool) (x y : Dispatched)
    → Moves registry x
    → Moves registry y
    → Moves registry (if b then x else y)
Moves-if registry true x y h k = h
Moves-if registry false x y h k = k

Moves-option :
    {A : Type 0} (registry : Registry) (o : Option A) (x : Dispatched) (f : A → Dispatched)
    → Moves registry x
    → ((a : A) → Moves registry (f a))
    → Moves registry (elim o [ none ↦ x | some a ↦ f a ])
Moves-option registry none x f h k = h
Moves-option registry (some a) x f h k = k a

module _ (j : CJson) (r : Reply) (answers : ℕ → List ℕ → Answer) where
  call_printed-Moves :
      (registry : Registry) (id : ℕ) (method name : List ℕ) (arguments : Option (List ℕ))
      → Moves registry (call_printed j r answers registry id method name arguments)
  unfolding call_printed respond Moves
  call_printed-Moves registry id method name none =
      quiet registry (DispatchResult.err_capacity, r.output, 0)
  call_printed-Moves registry id method name (some arguments_json) = call_moves registry (record {
    answers = answers;
    call = record {
      request_id = pos id;
      argument_digest = digest_call (some method) (some name) (some arguments_json);
      tool_name = some name;
      arguments_json = some arguments_json;
    };
    result = failed McpResult.ok;
  })

  call_tool-Moves :
      (registry : Registry) (id : ℕ) (method : List ℕ) (params : Option j.Value)
      → Moves registry (call_tool j r answers registry id method params)
  unfolding call_tool
  call_tool-Moves registry id method params =
      let arguments = object_item j params (codes "arguments") in
      Moves-option registry (string_of j (object_item j params (codes "name"))) _ _
        (quiet registry _)
        (λ name.
          Moves-if registry (not (is_null arguments) && not (is_object j arguments)) _ _
            (quiet registry _)
            (call_printed-Moves registry id method name (print_arguments j arguments)))

  dispatch_method-Moves :
      (server_name server_version : List ℕ) (registry : Registry) (id : ℕ) (method : List ℕ)
      (params : Option j.Value)
      → Moves registry
          (dispatch_method j r answers server_name server_version registry id method params)
  unfolding dispatch_method
  dispatch_method-Moves server_name server_version registry id method params =
      Moves-if registry (not (is_null params) && not (is_object j params)) _ _ (quiet registry _) (
        Moves-if registry (str_eq method (codes "initialize")) _ _ (quiet registry _) (
          Moves-if registry (str_eq method (codes "tools/list")) _ _ (quiet registry _) (
            Moves-if registry (str_eq method (codes "tools/call")) _ _
              (call_tool-Moves registry id method params) (quiet registry _))))

  dispatch_payload-Moves :
      (server_name server_version : List ℕ) (registry : Registry) (payload : Option j.Value)
      → Moves registry (dispatch_payload j r answers server_name server_version registry payload)
  unfolding dispatch_payload
  dispatch_payload-Moves server_name server_version registry payload =
      Moves-if registry
        (not (is_object j payload)
          || not (name_eq (string_of j (object_item j payload (codes "jsonrpc"))) (codes "2.0")))
        _ _ (quiet registry _)
        (Moves-option registry (string_of j (object_item j payload (codes "method"))) _ _
          (quiet registry _)
          (λ method.
            Moves-if registry (str_eq (take 13 method) (codes "notifications")) _ _
              (quiet registry _)
              (Moves-option registry (positive_request_id j (object_item j payload (codes "id"))) _
                _ (quiet registry _)
                (λ id.
                  dispatch_method-Moves server_name server_version registry id method
                    (object_item j payload (codes "params"))))))

  pub dispatch_message-Moves :
      (server_name server_version : List ℕ) (registry : Registry) (message : j.Value)
      → Moves registry (dispatch_message j r answers server_name server_version registry message)
  unfolding dispatch_message
  dispatch_message-Moves server_name server_version registry message =
      Moves-if registry
        (not (j.is_object message)
          || not (name_eq (string_of j (j.item message (codes "type"))) (codes "mcp"))
          || (not (is_null (j.item message (codes "session_id")))
              && not (name_eq (string_of j (j.item message (codes "session_id"))) r.session_id)))
        _ _ (quiet registry _)
        (dispatch_payload-Moves server_name server_version registry
          (j.item message (codes "payload")))
