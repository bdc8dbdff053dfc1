-- ===== src/McpTask.antt =====
-- veetee-firmware/main/veetee_mcp_task.c and veetee_mcp_task.h: the task that owns the MCP registry,
-- its bounded queue of requests and its lock. What FreeRTOS, the heap and the callbacks answer is an
-- argument of each call.
pub mod Setup
pub mod Steps
use veetee_vuqb.Base.{
  ℕ, ◌+◌, Bool, true, false, not, ◌&&◌, ◌||◌, if◌then◌else◌, ltb, leb, ◌==◌, Option, none, some,
  List, [], ◌∷◌, ◌++◌, length, replicate, take, str_eq,
}
use veetee_vuqb.Json.{CJson}
use veetee_vuqb.Mcp.{
  McpResult, max_tools, Tool, Registry, zero_registry, registry_init, registry_reset_session,
}
use veetee_vuqb.McpWire.{max_bytes}
use veetee_vuqb.BoardHal.{HalResult, Hal}
use veetee_vuqb.BoardHal.Lookup.{copy_tools}

-- VT_MCP_TASK_MAX_SESSION_BYTES and VT_MCP_TASK_MAX_MESSAGE_BYTES
abbrev pub max_session_bytes : ℕ
max_session_bytes = 96

abbrev pub max_message_bytes : ℕ
max_message_bytes = max_bytes

-- vt_mcp_task_result_t
pub data TaskResult : Type 0 where
  ok err_argument err_capacity err_queue err_session : TaskResult

-- vt_mcp_task_request_t; the length is that of `json`
pub record TaskRequest : Type 0 where
  pub session_id : List ℕ
  pub json : List ℕ

-- vt_mcp_task_t; of the lock, whether it is there, and of the queue, also its depth
pub record McpTask : Type 0 where
  pub queue : Option (List TaskRequest)
  pub queue_depth : ℕ
  pub registry_lock : Bool
  pub registry : Registry
  pub tool_storage : List Tool
  pub output : Option (List ℕ)
  pub server_name : List ℕ
  pub server_version : List ℕ
  pub stop_requested : Bool

abbrev pub blank_tool : Tool
blank_tool = record { name = none; description = none; input_schema_json = none; invoke = none }

-- The task after its memset.
abbrev pub zero_task : McpTask
zero_task = record {
  queue = none;
  queue_depth = 0;
  registry_lock = false;
  registry = zero_registry;
  tool_storage = replicate max_tools blank_tool;
  output = none;
  server_name = [];
  server_version = [];
  stop_requested = false;
}

-- What init_common is given: the two names, whether the two callbacks are there, and the queue's depth.
pub record TaskConfig : Type 0 where
  pub server_name : Option (List ℕ)
  pub server_version : Option (List ℕ)
  pub has_send : Bool
  pub has_current_session : Bool
  pub queue_depth : ℕ

-- Which of the three allocations succeed.
pub record Allocations : Type 0 where
  pub queue : Bool
  pub lock : Bool
  pub output : Bool

abbrev pub is_registry_ok : McpResult → Bool
is_registry_ok McpResult.ok = true
is_registry_ok _ = false

abbrev pub is_hal_ok : HalResult → Bool
is_hal_ok HalResult.ok = true
is_hal_ok _ = false

-- init_common past its NULL tests
unfoldable pub init_with :
    McpTask → Option (List Tool) → ℕ → List ℕ → List ℕ → ℕ → Allocations → TaskResult × McpTask
init_with task tools tool_count server_name server_version queue_depth made =
    let (result, registry) = registry_init task.registry tools tool_count in
    let registered = record task { registry = registry } in
    if not (is_registry_ok result)
    then (TaskResult.err_argument, registered)
    else if not made.queue || not made.lock
    then (TaskResult.err_queue, registered)
    else if not made.output
    then (TaskResult.err_capacity, registered)
    else (
      TaskResult.ok,
      record registered {
        queue = some [];
        queue_depth = queue_depth;
        registry_lock = true;
        output = some (replicate (max_bytes + 1) 0);
        server_name = server_name;
        server_version = server_version;
      },
    )

unfoldable pub init_common :
    McpTask → Option (List Tool) → ℕ → TaskConfig → Allocations → TaskResult × McpTask
init_common task tools tool_count config made = elim config.server_name [
  | none ↦ (TaskResult.err_argument, task)
  | some name ↦ elim config.server_version [
    | none ↦ (TaskResult.err_argument, task)
    | some version ↦
        if not config.has_send || not config.has_current_session || config.queue_depth == 0
        then (TaskResult.err_argument, task)
        else init_with task tools tool_count name version config.queue_depth made
  ]
]

-- vt_mcp_task_init on a task that is not NULL
abbrev pub init : Option (List Tool) → ℕ → TaskConfig → Allocations → TaskResult × McpTask
init tools tool_count config made = init_common zero_task tools tool_count config made

-- vt_mcp_task_init_from_board_hal with no pointer NULL
unfoldable pub init_from_board_hal : Hal → TaskConfig → Allocations → TaskResult × McpTask
init_from_board_hal hal config made =
    let (result, tools, tool_count) = copy_tools hal zero_task.tool_storage max_tools in
    let task = record zero_task { tool_storage = tools } in
    if not (is_hal_ok result)
    then (TaskResult.err_capacity, task)
    else init_common task (some tools) tool_count config made

-- copy_session: the copy, or `none` where it does not fit
unfoldable pub copy_session : ℕ → List ℕ → Option (List ℕ)
copy_session capacity session_id =
    if leb capacity (length session_id) then none else some session_id

-- The two parts of vt_mcp_task_reset_session, between which the task can run.
unfoldable pub reset_registry : McpTask → McpTask
reset_registry task = record task { registry = registry_reset_session task.registry }

unfoldable pub drain : McpTask → McpTask
drain task = record task { queue = elim task.queue [ none ↦ none | some requests ↦ some [] ] }

-- vt_mcp_task_reset_session: `locked` says whether the lock was taken in time
unfoldable pub reset_session : McpTask → Bool → McpTask
reset_session task locked =
    if task.registry_lock && not locked then task else drain (reset_registry task)

-- xQueueSend without a wait: `none` where the queue is full
unfoldable pub queue_send : ℕ → List TaskRequest → TaskRequest → Option (List TaskRequest)
queue_send depth requests request =
    if leb depth (length requests) then none else some (requests ++ (request ∷ []))

unfoldable pub enqueue_text : McpTask → List TaskRequest → List ℕ → List ℕ → TaskResult × McpTask
enqueue_text task requests session_id serialized =
    if length serialized == 0 || ltb max_message_bytes (length serialized)
    then (TaskResult.err_capacity, task)
    else elim (queue_send task.queue_depth requests
        (record { session_id = session_id; json = serialized })) [
          | none ↦ (TaskResult.err_queue, task)
          | some requests' ↦ (TaskResult.ok, record task { queue = some requests' })
        ]

-- vt_mcp_task_enqueue: `allocated` says whether the request could be allocated
unfoldable pub enqueue :
    (j : CJson) → McpTask → Option j.Value → Option (List ℕ) → Bool → TaskResult × McpTask
enqueue j task none session_id allocated = (TaskResult.err_argument, task)
enqueue j task (some message) none allocated = (TaskResult.err_argument, task)
enqueue j task (some message) (some session_id) allocated = elim task.queue [
  | none ↦ (TaskResult.err_argument, task)
  | some requests ↦
      if not allocated
      then (TaskResult.err_capacity, task)
      else elim (copy_session max_session_bytes session_id) [
        | none ↦ (TaskResult.err_session, task)
        | some copied ↦ elim (j.print message) [
          | none ↦ (TaskResult.err_capacity, task)
          | some serialized ↦ enqueue_text task requests copied serialized
        ]
      ]
]

-- session_is_current, where `current` is what the callback returns
unfoldable pub session_is_current : Option (List ℕ) → List ℕ → Bool
session_is_current none session_id = false
session_is_current (some current) [] = true
session_is_current (some current) (c ∷ cs) = str_eq current (c ∷ cs)
