-- ===== src/Examples/Boards.antt =====
-- A board with a lamp that is switched off and a fan.
use veetee_vuqb.Base.{
  ◌≡◌, ◌↔◌, true, false, none, some, List, [], ◌∷◌, length, take, replicate, arith,
}
use veetee_vuqb.Mcp
use veetee_vuqb.Mcp.{Tool, zero_registry, registry_init}
use veetee_vuqb.BoardHal.{ok, Descriptor, Manifest, Capability, Hal, zero_capability, validate}
use veetee_vuqb.BoardHal.Lookup.{copy_tools}
use veetee_vuqb.BoardHal.Manifests.{IsManifest, validate_iff}
use veetee_vuqb.BoardHal.Activation.{IsActive}
use veetee_vuqb.BoardHal.Tools.{enabled_tools, registry_init-copy_tools}
use veetee_vuqb.BoardHal.Lookup.{active}
use mathlib.Core.Option
use veetee_vuqb.McpTask.{TaskResult, init_from_board_hal}
use veetee_vuqb.McpTask.Setup.{all_made, complete, init_from_board_hal-serves}

abbrev lamp : Tool
lamp = record {
  name = some (b'l' ∷ []);
  description = none;
  input_schema_json = none;
  invoke = some 1;
}

abbrev fan : Tool
fan = record {
  name = some (b'f' ∷ []);
  description = none;
  input_schema_json = none;
  invoke = some 2;
}

abbrev descriptor : Descriptor
descriptor = record {
  capability_id = some (b'l' ∷ []);
  owner_id = some (b'o' ∷ []);
  tool = some lamp;
  timeout_ms = 500;
  safety_class = 1;
  enabled = true;
}

abbrev manifest : Manifest
manifest = record {
  capability_revision = 8;
  capabilities = some (descriptor ∷ []);
  capability_count = 1;
}

abbrev off : Capability
off = record {
  capability_id = b'l' ∷ [];
  owner_id = b'o' ∷ [];
  tool = some lamp;
  timeout_ms = 500;
  safety_class = 1;
  enabled = false;
}

abbrev on : Capability
on = record off { capability_id = b'f' ∷ []; tool = some fan; enabled = true }

abbrev board : Hal
board = record {
  capability_revision = 7;
  capability_count = 2;
  capabilities = off ∷ on ∷ replicate 14 zero_capability;
}

board-IsActive : IsActive board
board-IsActive = record {
  counted = omega arith;
  have_tools = (tt, (tt, tt));
  are_tools = (((omega arith, omega arith), tt), (((omega arith, omega arith), tt), tt));
  names_differ = (((λ q. ground arith), tt), (tt, tt));
}

validate_iff_example : (validate true manifest ≡ ok) ↔ IsManifest manifest
validate_iff_example = validate_iff manifest

abbrev room : List Tool
room = lamp ∷ lamp ∷ []

registry_init-copy_tools_example :
    let (result, copied, count) = copy_tools board room 2 in
    (registry_init zero_registry (some copied) count).0 ≡ Mcp.ok
registry_init-copy_tools_example =
    registry_init-copy_tools board room 2 zero_registry board-IsActive (omega arith) (omega arith)

init_from_board_hal-serves_example :
    let (result, task) = init_from_board_hal board (complete (b'v' ∷ []) (b'1' ∷ []) 2) all_made in
    let tools = enabled_tools (active board) in
    (result ≡ TaskResult.ok)
    × (task.queue ≡ some [])
    × (task.queue_depth ≡ 2)
    × (task.registry.tool_count ≡ length tools)
    × (Option.map (take (length tools)) task.registry.tools ≡ some tools)
    × (task.registry.highest_request_id ≡ 0)
init_from_board_hal-serves_example =
    init_from_board_hal-serves board (b'v' ∷ []) (b'1' ∷ []) 2 board-IsActive (omega arith)
      (omega arith)
