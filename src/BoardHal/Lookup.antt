-- ===== src/BoardHal/Lookup.antt =====
-- The lookups of veetee-firmware/main/veetee_board_hal.c, and the copy of the enabled tools.
use veetee_vuqb.Base.{
  ℕ, ◌+◌, not, if◌then◌else◌, ltb, leb, ◌==◌, Option, none, some, List, [], ◌∷◌, get_elem?, set,
  take, str_eq,
}
use veetee_vuqb.Mcp.{Tool}
use veetee_vuqb.BoardHal.{HalResult, ok, err_capacity, Capability, Hal}

-- `hal->capabilities[index]` for the indices below `hal->capability_count`
abbrev pub active : Hal → List Capability
active hal = take hal.capability_count hal.capabilities

pub capability_at : Hal → ℕ → Option Capability
capability_at hal index =
    if leb hal.capability_count index then none else get_elem? hal.capabilities index

pub find_from : List Capability → List ℕ → Option Capability
find_from [] capability_id = none
find_from (capability ∷ capabilities) capability_id =
    if str_eq capability.capability_id capability_id
    then some capability
    else find_from capabilities capability_id

-- vt_board_hal_find_capability
abbrev pub find_capability : Hal → Option (List ℕ) → Option Capability
find_capability hal none = none
find_capability hal (some capability_id) = find_from (active hal) capability_id

unfoldable pub count_enabled : List Capability → ℕ → ℕ
count_enabled [] count = count
count_enabled (capability ∷ capabilities) count =
    count_enabled capabilities (if capability.enabled then count + 1 else count)

-- vt_board_hal_tool_count
abbrev pub tool_count : Hal → ℕ
tool_count hal = count_enabled (active hal) 0

unfoldable pub tool_from : List Capability → ℕ → ℕ → Option Tool
tool_from [] enabled_index index = none
tool_from (capability ∷ capabilities) enabled_index index =
    let skip = tool_from capabilities enabled_index index in
    let next = tool_from capabilities (enabled_index + 1) index in
    if not capability.enabled
    then skip
    else if enabled_index == index
    then capability.tool
    else next

-- vt_board_hal_tool_at
abbrev pub tool_at : Hal → ℕ → Option Tool
tool_at hal index = tool_from (active hal) 0 index

abbrev pub put_tool : List Tool → ℕ → Option Tool → List Tool
put_tool tools index none = tools
put_tool tools index (some tool) = set tools index tool

-- The loop of vt_board_hal_copy_tools. Every active capability has a tool.
unfoldable pub copy_from : List Capability → List Tool → ℕ → List Tool
copy_from [] tools output_index = tools
copy_from (capability ∷ capabilities) tools output_index =
    let skip = copy_from capabilities tools output_index in
    let next =
      copy_from capabilities (put_tool tools output_index capability.tool) (output_index + 1) in
    if capability.enabled then next else skip

-- vt_board_hal_copy_tools with no pointer NULL: the result, the tools and the tool count.
unfoldable pub copy_tools : Hal → List Tool → ℕ → HalResult × List Tool × ℕ
copy_tools hal tools capacity =
    let required = tool_count hal in
    if ltb capacity required
    then (err_capacity, tools, required)
    else (ok, copy_from (active hal) tools 0, required)
