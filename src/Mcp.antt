-- ===== src/Mcp.antt =====
-- veetee-firmware/main/veetee_mcp.c and veetee_mcp.h: the registry of MCP tools, and its cache of
-- answered requests. A C string is the list of its bytes, a pointer an Option.
pub mod Setup
pub mod Call
pub mod Cache
pub mod Calls
pub mod Window
pub mod Replay
pub mod Digest
use veetee_vuqb.Base.{
  ℕ, ◌+◌, ◌-◌, ◌*◌, ◌%◌, ◌^◌, Bool, true, false, not, ◌&&◌, ◌||◌, if◌then◌else◌, ltb, leb, ◌==◌,
  Option, none, some, List, [], ◌∷◌, ◌++◌, length, get_elem?, set, take, replicate, str_eq,
}
use veetee_vuqb.Base.Int.{ℤ, pos, negsuc}

abbrev pub max_tools : ℕ
max_tools = 16

abbrev pub max_cache_entries : ℕ
max_cache_entries = 16

abbrev pub max_result_bytes : ℕ
max_result_bytes = 768

abbrev pub max_tool_name_bytes : ℕ
max_tool_name_bytes = 64

-- vt_mcp_result_t
pub data McpResult : Type 0 where
  ok err_argument err_registry err_request_id err_tool_not_found : McpResult
  err_duplicate_conflict err_duplicate_expired err_result_too_large err_invoke : McpResult

-- vt_mcp_tool_t; `invoke` numbers the callback together with its context
pub record Tool : Type 0 where
  pub name : Option (List ℕ)
  pub description : Option (List ℕ)
  pub input_schema_json : Option (List ℕ)
  pub invoke : Option ℕ

-- vt_mcp_call_t; `request_id` is an int32_t
pub record McpCall : Type 0 where
  pub request_id : ℤ
  pub argument_digest : ℕ
  pub tool_name : Option (List ℕ)
  pub arguments_json : Option (List ℕ)

-- vt_mcp_call_result_t
pub record McpCallResult : Type 0 where
  pub status : McpResult
  pub cached : Bool
  pub result_json : Option (List ℕ)
  pub result_length : ℕ

-- vt_mcp_cache_entry_t; only positive ids are ever stored
pub record CacheEntry : Type 0 where
  pub used : Bool
  pub request_id : ℕ
  pub argument_digest : ℕ
  pub status : McpResult
  pub result_length : ℕ
  pub result_json : List ℕ

-- vt_mcp_registry_t
pub record Registry : Type 0 where
  pub tools : Option (List Tool)
  pub tool_count : ℕ
  pub highest_request_id : ℕ
  pub next_cache_slot : ℕ
  pub cache : List CacheEntry

abbrev pub zero_entry : CacheEntry
zero_entry = record {
  used = false;
  request_id = 0;
  argument_digest = 0;
  status = ok;
  result_length = 0;
  result_json = replicate max_result_bytes 0;
}

-- memset of the whole registry
abbrev pub zero_registry : Registry
zero_registry = record {
  tools = none;
  tool_count = 0;
  highest_request_id = 0;
  next_cache_slot = 0;
  cache = replicate max_cache_entries zero_entry;
}

unfoldable pub valid_tool_name : Option (List ℕ) → Bool
valid_tool_name none = false
valid_tool_name (some []) = false
valid_tool_name (some (c ∷ cs)) = ltb (length (c ∷ cs)) max_tool_name_bytes

abbrev pub name_eq : Option (List ℕ) → List ℕ → Bool
name_eq none name = false
name_eq (some n) name = str_eq n name

-- `strcmp(tool->name, name) == 0`; no registered tool has a NULL name
unfoldable pub has_name : Tool → List ℕ → Bool
has_name tool name = name_eq tool.name name

unfoldable pub find_in : List Tool → List ℕ → Option Tool
find_in [] name = none
find_in (tool ∷ tools) name = if has_name tool name then some tool else find_in tools name

unfoldable pub tool_list : Registry → List Tool
tool_list registry = elim registry.tools [ none ↦ [] | some tools ↦ take registry.tool_count tools ]

unfoldable pub find_tool : Registry → List ℕ → Option Tool
find_tool registry name = find_in (tool_list registry) name

unfoldable pub find_cache : List CacheEntry → ℕ → Option CacheEntry
find_cache [] request_id = none
find_cache (entry ∷ entries) request_id =
    if entry.used && (entry.request_id == request_id)
    then some entry
    else find_cache entries request_id

abbrev pub cache_result : CacheEntry → Bool → McpCallResult
cache_result entry cached = record {
  status = entry.status;
  cached = cached;
  result_json = some entry.result_json;
  result_length = entry.result_length;
}

unfoldable pub is_named : Option (List ℕ) → List Tool → Bool
is_named none tools = false
is_named (some name) [] = false
is_named (some name) (tool ∷ tools) = has_name tool name || is_named (some name) tools

abbrev pub is_null {ℓ} : {A : Type ℓ} → Option A → Bool
is_null none = true
is_null (some _) = false

-- The loop of vt_mcp_registry_init; `previous` are the tools before the index.
unfoldable pub tools_valid : List Tool → List Tool → Bool
tools_valid previous [] = true
tools_valid previous (tool ∷ tools) =
    let rest = tools_valid (previous ++ (tool ∷ [])) tools in
    if not (valid_tool_name tool.name) || is_null tool.invoke
    then false
    else if is_named tool.name previous
    then false
    else rest

abbrev pub list_of : Option (List Tool) → List Tool
list_of none = []
list_of (some tools) = tools

-- vt_mcp_registry_init on a registry that is not NULL
unfoldable pub registry_init : Registry → Option (List Tool) → ℕ → McpResult × Registry
registry_init registry tools tool_count =
    if (ltb 0 tool_count && is_null tools) || ltb max_tools tool_count
    then (err_argument, registry)
    else if tools_valid [] (take tool_count (list_of tools))
    then (ok, record zero_registry { tools = tools; tool_count = tool_count })
    else (err_registry, zero_registry)

unfoldable pub registry_reset_session : Registry → Registry
registry_reset_session registry = record registry {
  highest_request_id = 0;
  next_cache_slot = 0;
  cache = replicate max_cache_entries zero_entry;
}

unfoldable pub registry_tool_at : Registry → ℕ → Option Tool
registry_tool_at registry index =
    if leb registry.tool_count index then none else get_elem? (list_of registry.tools) index
