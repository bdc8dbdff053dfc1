-- ===== src/Mcp/Call.antt =====
-- vt_mcp_registry_call of veetee-firmware/main/veetee_mcp.c.
use veetee_vuqb.Base.{
  ℕ, ◌+◌, ◌-◌, ◌%◌, ◌^◌, true, false, not, ◌&&◌, ◌||◌, if◌then◌else◌, ltb, leb, ◌==◌, Option, none,
  some, List, set,
}
use veetee_vuqb.Base.Buffer.{copy_at}
use veetee_vuqb.Base.Int.{ℤ, pos, negsuc}
use veetee_vuqb.Mcp.{
  max_cache_entries, max_result_bytes, McpResult, err_argument, err_request_id, err_tool_not_found,
  err_duplicate_conflict, err_duplicate_expired, err_result_too_large, err_invoke, Tool, McpCall,
  McpCallResult, CacheEntry, Registry, zero_entry, find_tool, find_cache, cache_result, is_null,
}

-- What a callback returns: its status, what it stores in the result buffer, and the length that it
-- reports. Callbacks belong to their peripherals, so each call is given their answers.
pub record Answer : Type 0 where
  pub status : McpResult
  pub written : List ℕ
  pub length : ℕ

-- An invocation of a callback: the request, the callback, the arguments.
pub record Invocation : Type 0 where
  pub request_id : ℕ
  pub callback : ℕ
  pub arguments_json : List ℕ

-- The entry after the callback has answered.
unfoldable pub answered : CacheEntry → Answer → CacheEntry
answered entry answer =
    let filled = record entry {
      status = answer.status;
      result_json = copy_at entry.result_json 0 answer.written;
    } in
    if ltb max_result_bytes answer.length
    then record filled { status = err_result_too_large; result_length = 0 }
    else record filled { result_length = answer.length % 2 ^ 16 }

-- The cache entry of a new request, and the invocation it makes; no registered tool has a NULL
-- callback.
unfoldable pub run_tool :
    (ℕ → List ℕ → Answer) → Option Tool → CacheEntry → ℕ → List ℕ → CacheEntry × Option Invocation
unfolding answered
run_tool answers none entry id arguments = (record entry { status = err_tool_not_found }, none)
run_tool answers (some tool) entry id arguments = elim tool.invoke [
  | none ↦ (record entry { status = err_invoke }, none)
  | some callback ↦
      let invocation : Invocation = record {
        request_id = id;
        callback = callback;
        arguments_json = arguments;
      } in
      (answered entry (answers callback arguments), some invocation)
]

-- The part of vt_mcp_registry_call for a request above the high-water mark.
unfoldable pub call_new :
    (ℕ → List ℕ → Answer)
    → Registry
    → ℕ
    → ℕ
    → List ℕ
    → List ℕ
    → McpResult × Registry × McpCallResult × Option Invocation
call_new answers registry id digest name arguments =
    let slot = registry.next_cache_slot in
    let fresh = record zero_entry { used = true; request_id = id; argument_digest = digest } in
    let (entry, invocation) = run_tool answers (find_tool registry name) fresh id arguments in
    let registry' = record registry {
      highest_request_id = id;
      next_cache_slot = (slot + 1) % max_cache_entries;
      cache = set registry.cache slot entry;
    } in
    (entry.status, registry', cache_result entry false, invocation)

abbrev pub failed : McpResult → McpCallResult
failed status = record { status = status; cached = false; result_json = none; result_length = 0 }

-- The part for a request at or below the mark.
unfoldable pub call_seen :
    Registry → Option CacheEntry → ℕ → McpResult × Registry × McpCallResult × Option Invocation
call_seen registry none digest =
    (err_duplicate_expired, registry, failed err_duplicate_expired, none)
call_seen registry (some entry) digest =
    if not (entry.argument_digest == digest)
    then (err_duplicate_conflict, registry, failed err_duplicate_conflict, none)
    else (entry.status, registry, cache_result entry true, none)

unfoldable pub call_with :
    (ℕ → List ℕ → Answer)
    → Registry
    → ℕ
    → ℕ
    → List ℕ
    → List ℕ
    → McpResult × Registry × McpCallResult × Option Invocation
call_with answers registry id digest name arguments =
    if (id == 0) || ltb (2 ^ 31 - 1) id
    then (err_request_id, registry, failed err_request_id, none)
    else if leb id registry.highest_request_id
    then call_seen registry (find_cache registry.cache id) digest
    else call_new answers registry id digest name arguments

unfoldable pub call_signed :
    (ℕ → List ℕ → Answer)
    → Registry
    → ℤ
    → ℕ
    → List ℕ
    → List ℕ
    → McpResult × Registry × McpCallResult × Option Invocation
call_signed answers registry (negsuc n) digest name arguments =
    (err_request_id, registry, failed err_request_id, none)
call_signed answers registry (pos id) digest name arguments =
    call_with answers registry id digest name arguments

unfoldable pub call_pointers :
    (ℕ → List ℕ → Answer)
    → Registry
    → McpCall
    → Option (List ℕ)
    → Option (List ℕ)
    → McpCallResult
    → McpResult × Registry × McpCallResult × Option Invocation
call_pointers answers registry call (some name) (some arguments) result =
    call_signed answers registry call.request_id call.argument_digest name arguments
call_pointers answers registry call _ _ result = (err_argument, registry, result, none)

-- vt_mcp_registry_call with registry, call and result not NULL: what it returns, the registry, the
-- caller's result, and the invocation that it made.
unfoldable pub registry_call :
    (ℕ → List ℕ → Answer)
    → Registry
    → McpCall
    → McpCallResult
    → McpResult × Registry × McpCallResult × Option Invocation
unfolding call_pointers
registry_call answers registry call result =
    if ltb 0 registry.tool_count && is_null registry.tools
    then (err_argument, registry, result, none)
    else call_pointers answers registry call call.tool_name call.arguments_json result
