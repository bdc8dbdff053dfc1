-- ===== src/BoardHal.antt =====
-- veetee-firmware/main/veetee_board_hal.c and veetee_board_hal.h: the manifest of the board's
-- capabilities. A C string is the list of its bytes, a pointer an Option.
pub mod Lookup
pub mod Descriptors
pub mod Manifests
pub mod Activation
pub mod Tools
use veetee_vuqb.Base.{
  ℕ, zero, suc, ◌+◌, ◌-◌, Bool, true, false, not, ◌&&◌, ◌||◌, if◌then◌else◌, ltb, leb, ◌==◌, Option,
  none, some, List, [], ◌∷◌, ◌++◌, length, get_elem?, set, take, replicate, str_eq,
}
use veetee_vuqb.Mcp.{
  McpResult, max_tools, Tool, Registry, zero_registry, registry_init, name_eq, is_null,
}

abbrev pub max_capabilities : ℕ
max_capabilities = max_tools

abbrev pub max_capability_id_bytes : ℕ
max_capability_id_bytes = 64

abbrev pub max_owner_id_bytes : ℕ
max_owner_id_bytes = 32

abbrev pub max_timeout_ms : ℕ
max_timeout_ms = 60000

abbrev pub max_safety_class : ℕ
max_safety_class = 3

-- vt_board_hal_result_t
pub data HalResult : Type 0 where
  ok err_argument err_capacity err_descriptor : HalResult
  err_duplicate err_revision err_stale_revision : HalResult

-- vt_board_capability_descriptor_t; the tool is what its pointer points to
pub record Descriptor : Type 0 where
  pub capability_id : Option (List ℕ)
  pub owner_id : Option (List ℕ)
  pub tool : Option Tool
  pub timeout_ms : ℕ
  pub safety_class : ℕ
  pub enabled : Bool

-- vt_board_manifest_t
pub record Manifest : Type 0 where
  pub capability_revision : ℕ
  pub capabilities : Option (List Descriptor)
  pub capability_count : ℕ

-- vt_board_capability_t; the two char arrays are the strings in them, the bytes behind are all 0
pub record Capability : Type 0 where
  pub capability_id : List ℕ
  pub owner_id : List ℕ
  pub tool : Option Tool
  pub timeout_ms : ℕ
  pub safety_class : ℕ
  pub enabled : Bool

-- vt_board_hal_t
pub record Hal : Type 0 where
  pub capability_revision : ℕ
  pub capability_count : ℕ
  pub capabilities : List Capability

abbrev pub zero_capability : Capability
zero_capability = record {
  capability_id = [];
  owner_id = [];
  tool = none;
  timeout_ms = 0;
  safety_class = 0;
  enabled = false;
}

-- vt_board_hal_init, and `vt_board_hal_t next = {0}`
abbrev pub init : Hal
init = record {
  capability_revision = 0;
  capability_count = 0;
  capabilities = replicate max_capabilities zero_capability;
}

unfoldable pub bounded_nonempty : Option (List ℕ) → ℕ → Bool
bounded_nonempty none capacity = false
bounded_nonempty (some []) capacity = false
bounded_nonempty (some (c ∷ cs)) capacity = ltb (length (c ∷ cs)) capacity

-- `capabilities` are the descriptors before the index.
unfoldable pub duplicate_capability_id : List Descriptor → List ℕ → Bool
duplicate_capability_id [] capability_id = false
duplicate_capability_id (capability ∷ capabilities) capability_id =
    name_eq capability.capability_id capability_id
    || duplicate_capability_id capabilities capability_id

abbrev pub text_of : Option (List ℕ) → List ℕ
text_of none = []
text_of (some text) = text

-- `*capability->tool`, put behind the tools in front
abbrev pub tool_of : Option Tool → List Tool
tool_of none = []
tool_of (some tool) = tool ∷ []

-- The test of one descriptor.
unfoldable pub descriptor_fits : Descriptor → Bool
descriptor_fits capability = not (
    not (bounded_nonempty capability.capability_id max_capability_id_bytes)
    || not (bounded_nonempty capability.owner_id max_owner_id_bytes)
    || is_null capability.tool
    || (capability.timeout_ms == 0)
    || ltb max_timeout_ms capability.timeout_ms
    || ltb max_safety_class capability.safety_class)

-- The loop of vt_board_hal_validate: its result and `all_tools`. `previous` are the descriptors
-- before the index.
unfoldable pub validate_from : List Descriptor → List Tool → List Descriptor → HalResult × List Tool
validate_from previous all_tools [] = (ok, all_tools)
validate_from previous all_tools (capability ∷ capabilities) =
    let rest =
      validate_from (previous ++ (capability ∷ [])) (all_tools ++ tool_of capability.tool)
        capabilities in
    if not (descriptor_fits capability)
    then (err_descriptor, all_tools)
    else if duplicate_capability_id previous (text_of capability.capability_id)
    then (err_duplicate, all_tools)
    else rest

abbrev pub list_of : Option (List Descriptor) → List Descriptor
list_of none = []
list_of (some capabilities) = capabilities

abbrev registry_is_ok : McpResult → Bool
registry_is_ok McpResult.ok = true
registry_is_ok _ = false

abbrev pub is_ok : HalResult → Bool
is_ok ok = true
is_ok _ = false

-- The end of vt_board_hal_validate, after the loop; `allocated` tells whether calloc succeeds.
unfoldable pub validate_tools : Bool → HalResult × List Tool → HalResult
validate_tools allocated (result, all_tools) =
    if not (is_ok result)
    then result
    else if not allocated
    then err_capacity
    else if not (registry_is_ok (registry_init zero_registry (some all_tools) (length all_tools)).0)
    then err_duplicate
    else ok

-- vt_board_hal_validate on a manifest that is not NULL
unfoldable pub validate : Bool → Manifest → HalResult
validate allocated manifest =
    if manifest.capability_revision == 0
    then err_revision
    else if ltb max_capabilities manifest.capability_count
        || (ltb 0 manifest.capability_count && is_null manifest.capabilities)
    then err_capacity
    else validate_tools allocated
        (validate_from [] [] (take manifest.capability_count (list_of manifest.capabilities)))

-- The assignments of one round of the loop of vt_board_hal_activate.
unfoldable pub capability_of : Descriptor → Capability
capability_of source = record {
  capability_id = text_of source.capability_id;
  owner_id = text_of source.owner_id;
  tool = source.tool;
  timeout_ms = source.timeout_ms;
  safety_class = source.safety_class;
  enabled = source.enabled;
}

-- The loop, from an index on.
unfoldable pub copy_capabilities : List Capability → ℕ → List Descriptor → List Capability
copy_capabilities capabilities index [] = capabilities
copy_capabilities capabilities index (source ∷ sources) =
    copy_capabilities (set capabilities index (capability_of source)) (index + 1) sources

-- vt_board_hal_activate with no pointer NULL: the result and the board.
unfoldable pub activate : Bool → Hal → Manifest → HalResult × Hal
activate allocated hal manifest =
    if not (manifest.capability_revision == 0)
      && leb manifest.capability_revision hal.capability_revision
    then (err_stale_revision, hal)
    else if not (is_ok (validate allocated manifest))
    then (validate allocated manifest, hal)
    else let next : Hal = record {
      capability_revision = manifest.capability_revision;
      capability_count = manifest.capability_count;
      capabilities =
          copy_capabilities init.capabilities 0
            (take manifest.capability_count (list_of manifest.capabilities));
    } in
      (ok, next)
