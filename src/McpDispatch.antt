-- ===== src/McpDispatch.antt =====
-- veetee-firmware/main/veetee_mcp_dispatch.c and veetee_mcp_dispatch.h: one MCP message, dispatched to
-- the registry, and its response.
pub mod Cursors
pub mod Rising
use veetee_vuqb.Base.{
  ℕ, ◌-◌, ◌^◌, ◌+◌, zero, suc, Bool, true, false, not, ◌&&◌, ◌||◌, if◌then◌else◌, ltb, ◌==◌, Option,
  none, some, List, [], ◌∷◌, take, str_eq,
}
use veetee_vuqb.Base.Int.{ℤ, pos, negsuc}
use veetee_vuqb.Base.Text.{codes}
use veetee_vuqb.Mcp.{
  McpResult, err_tool_not_found, err_duplicate_conflict, err_duplicate_expired,
  err_result_too_large, McpCall, McpCallResult, Tool, Registry, name_eq, registry_tool_at, is_null,
}
use veetee_vuqb.Mcp.Call.{Answer, Invocation, failed, registry_call}
use veetee_vuqb.Mcp.Digest.{digest_call}
use veetee_vuqb.Json.{CJson, string_of, is_object}
use veetee_vuqb.McpWire.{McpWireResult, valid_json_object}
use veetee_vuqb.McpWire.Messages
use veetee_vuqb.McpWire.Messages.{Written, write_result, write_initialize}
use veetee_vuqb.McpWire.ToolsList.{default_page_size, Listed, write_tools_list}

-- vt_mcp_dispatch_result_t
pub data DispatchResult : Type 0 where
  ok ignored err_argument err_envelope err_request_id : DispatchResult
  err_method err_cursor err_capacity err_registry : DispatchResult

abbrev error_message : McpResult → List ℕ
error_message McpResult.err_tool_not_found = codes "tool not found"
error_message McpResult.err_duplicate_conflict = codes "request id conflicts with a previous call"
error_message McpResult.err_duplicate_expired =
    codes "request id has expired from the duplicate cache"
error_message McpResult.err_result_too_large = codes "tool result exceeds the bounded response size"
error_message McpResult.err_request_id = codes "request id is invalid"
error_message _ = codes "tool call failed"

abbrev wire_is_ok : McpWireResult → Bool
wire_is_ok McpWireResult.ok = true
wire_is_ok _ = false

abbrev is_ok : McpResult → Bool
is_ok McpResult.ok = true
is_ok _ = false

-- What a response leaves: the result, the output, the output length.
abbrev pub Sent : Type 0
Sent = DispatchResult × List ℕ × ℕ

abbrev sent : Written → Sent
sent (result, output, n) = (if wire_is_ok result then ok else err_capacity, output, n)

-- Where a response goes: the output with its capacity, and the session that it names.
pub record Reply : Type 0 where
  pub output : List ℕ
  pub capacity : ℕ
  pub session_id : List ℕ

unfoldable pub write_error : Reply → ℕ → List ℕ → Sent
write_error r id text =
    sent (Messages.write_error r.output r.capacity (some r.session_id) (pos id) (some text) 0)

abbrev list_result : Listed → Sent
list_result (McpWireResult.ok, output, next, n) = (ok, output, n)
list_result (McpWireResult.err_capacity, output, next, n) = (err_capacity, output, n)
list_result (_, output, next, n) = (err_registry, output, n)

-- What vt_mcp_dispatch_message leaves: the registry, what was sent, and the invocation that it made.
abbrev pub Dispatched : Type 0
Dispatched = Registry × Sent × Option Invocation

-- The loop of cursor_index, over the `left` indices from `index` on.
unfoldable pub cursor_from : ℕ → Registry → ℕ → List ℕ → Option ℕ
cursor_from zero registry index cursor = none
cursor_from (suc left) registry index cursor =
    let rest = cursor_from left registry (index + 1) cursor in
    elim (registry_tool_at registry index) [
      | none ↦ rest
      | some tool ↦ if name_eq tool.name cursor then some index else rest
    ]

module _ (j : CJson) where
  -- object_item on a pointer that may be NULL
  abbrev pub object_item : Option j.Value → List ℕ → Option j.Value
  object_item none name = none
  object_item (some object) name = j.item object name

  abbrev positive : ℤ → Option ℕ
  positive (negsuc n) = none
  positive (pos id) = if (id == 0) || ltb (2 ^ 31 - 1) id then none else some id

  -- positive_request_id
  unfoldable pub positive_request_id : Option j.Value → Option ℕ
  positive_request_id none = none
  positive_request_id (some value) =
      if not (j.is_number value) || not (j.is_whole value)
      then none
      else positive (j.valueint value)

  -- cursor_index: the index, or `none` where the cursor is not valid
  unfoldable pub cursor_index : Registry → Option j.Value → Option ℕ
  cursor_index registry params = elim (object_item params (codes "cursor")) [
    | none ↦ some 0
    | some cursor ↦ elim (string_of j (some cursor)) [
      | none ↦ none
      | some name ↦ cursor_from registry.tool_count registry 0 name
    ]
  ]

  -- The branch `tools/list`.
  unfoldable pub list_tools : Reply → Registry → ℕ → Option j.Value → Sent
  list_tools r registry id params = elim (cursor_index registry params) [
    | none ↦ write_error r id (codes "cursor is invalid")
    | some start ↦ list_result (
        write_tools_list r.output r.capacity (some r.session_id) (pos id) registry start
          default_page_size start 0)
  ]

  -- The end of the branch `tools/call`: the response to what the registry answered.
  unfoldable pub respond :
      Reply → ℕ → McpResult × Registry × McpCallResult × Option Invocation → Dispatched
  respond r id (status, registry, result, made) = (
    registry,
    (if not (is_ok status)
        then write_error r id (error_message status)
        else sent (
            write_result r.output r.capacity (some r.session_id) (pos id)
              (elim result.result_json [
                | none ↦ none
                | some text ↦ some (take result.result_length text)
              ])
              0)),
    made,
  )

  unfoldable pub call_printed :
      Reply → (ℕ → List ℕ → Answer) → Registry → ℕ → List ℕ → List ℕ → Option (List ℕ) → Dispatched
  call_printed r answers registry id method name none =
      (registry, (err_capacity, r.output, 0), none)
  call_printed r answers registry id method name (some arguments_json) = respond r id (
      registry_call answers registry
        (record {
          request_id = pos id;
          argument_digest = digest_call (some method) (some name) (some arguments_json);
          tool_name = some name;
          arguments_json = some arguments_json;
        })
        (failed McpResult.ok))

  -- `cJSON_PrintUnformatted` of the arguments, or of an empty object where there are none
  abbrev print_arguments : Option j.Value → Option (List ℕ)
  print_arguments (some arguments) = j.print arguments
  print_arguments none = elim j.create_object [ none ↦ none | some object ↦ j.print object ]

  -- The branch `tools/call`.
  unfoldable pub call_tool :
      Reply → (ℕ → List ℕ → Answer) → Registry → ℕ → List ℕ → Option j.Value → Dispatched
  call_tool r answers registry id method params =
      let arguments = object_item params (codes "arguments") in
      let refuse : Dispatched =
        (registry, write_error r id (codes "tool name and object arguments are required"), none) in
      elim (string_of j (object_item params (codes "name"))) [
        | none ↦ refuse
        | some name ↦
            if not (is_null arguments) && not (is_object j arguments)
            then refuse
            else call_printed r answers registry id method name (print_arguments arguments)
      ]

  -- From the request id on.
  unfoldable pub dispatch_method :
      Reply
      → (ℕ → List ℕ → Answer)
      → List ℕ
      → List ℕ
      → Registry
      → ℕ
      → List ℕ
      → Option j.Value
      → Dispatched
  dispatch_method r answers server_name server_version registry id method params =
      if not (is_null params) && not (is_object j params)
      then (registry, write_error r id (codes "params must be an object"), none)
      else if str_eq method (codes "initialize")
      then (
        registry,
        sent (
            write_initialize r.output r.capacity (some r.session_id) (pos id)
              (some (codes "2024-11-05")) (some server_name) (some server_version) 0),
        none,
      )
      else if str_eq method (codes "tools/list")
      then (registry, list_tools r registry id params, none)
      else if str_eq method (codes "tools/call")
      then call_tool r answers registry id method params
      else (registry, write_error r id (codes "method not found"), none)

  -- From the payload on.
  unfoldable pub dispatch_payload :
      Reply → (ℕ → List ℕ → Answer) → List ℕ → List ℕ → Registry → Option j.Value → Dispatched
  dispatch_payload r answers server_name server_version registry payload =
      let refuse : DispatchResult → Dispatched =
        λ result. (registry, (result, r.output, 0), none) in
      if not (is_object j payload)
        || not (name_eq (string_of j (object_item payload (codes "jsonrpc"))) (codes "2.0"))
      then refuse err_envelope
      else elim (string_of j (object_item payload (codes "method"))) [
        | none ↦ refuse err_method
        | some method ↦
            if str_eq (take 13 method) (codes "notifications")
            then refuse ignored
            else elim (positive_request_id (object_item payload (codes "id"))) [
              | none ↦ refuse err_request_id
              | some id ↦
                  dispatch_method r answers server_name server_version registry id method
                    (object_item payload (codes "params"))
            ]
      ]

  -- vt_mcp_dispatch_message with no pointer NULL
  unfoldable pub dispatch_message :
      Reply → (ℕ → List ℕ → Answer) → List ℕ → List ℕ → Registry → j.Value → Dispatched
  dispatch_message r answers server_name server_version registry message =
      let session = j.item message (codes "session_id") in
      if not (j.is_object message)
        || not (name_eq (string_of j (j.item message (codes "type"))) (codes "mcp"))
        || (not (is_null session) && not (name_eq (string_of j session) r.session_id))
      then (registry, (err_envelope, r.output, 0), none)
      else dispatch_payload r answers server_name server_version registry
          (j.item message (codes "payload"))
