-- ===== src/BoardTools/Boards.antt =====
-- What the board offers: the manifest of vt_board_tools_init is accepted, and its enabled tools.
use veetee_vuqb.Base.{
  ℕ, ◌<◌, ◌≡◌, ◌≢◌, refl, subst, Bool, true, false, if◌then◌else◌, leb, ◌==◌, some, List, [], ◌∷◌,
  ◌++◌, length, str_eq, arith,
}
use veetee_vuqb.Base.Esp.{EspError}
use veetee_vuqb.Mcp.{Tool, valid_tool_name, has_name, is_named, tools_valid, registry_init}
use veetee_vuqb.BoardHal
use veetee_vuqb.BoardHal.{
  HalResult, Hal, list_of, validate, validate_from, validate_tools, descriptor_fits,
  bounded_nonempty, duplicate_capability_id, copy_capabilities, capability_of, activate,
}
use veetee_vuqb.BoardHal.Lookup.{active}
use veetee_vuqb.BoardHal.Tools.{enabled_tools}
use veetee_vuqb.BoardHal.Activation.{IsActive, activate-IsActive}
use veetee_vuqb.BoardTools.{BoardTools}
use veetee_vuqb.BoardTools.Setup.{
  BoardConfig, PinAnswers, max_board_name_bytes, valid_gpio, output_of, configure_output,
  led_config, lamp_config, status_tool, led_tool, lamp_tool, manifest_of, assemble, init,
}

manifest_of-accepted :
    (revision : ℕ) (led lamp : Bool)
    → (revision == 0) ≡ false
    → validate true (manifest_of revision led lamp) ≡ HalResult.ok
unfolding validate validate_from validate_tools descriptor_fits bounded_nonempty
    duplicate_capability_id registry_init tools_valid is_named valid_tool_name has_name str_eq
manifest_of-accepted revision led lamp h = rw h refl

-- The tools of the status and of each output that is there.
abbrev pub offered : Bool → Bool → List Tool
offered led lamp =
    status_tool ∷ ((if led then led_tool ∷ [] else []) ++ (if lamp then lamp_tool ∷ [] else []))

-- The board after the activation.
abbrev hal_of : ℕ → Bool → Bool → Hal
hal_of revision led lamp = record {
  capability_revision = revision;
  capability_count = 3;
  capabilities =
      copy_capabilities BoardHal.init.capabilities 0
        (list_of (manifest_of revision led lamp).capabilities);
}

hal_of-offered :
    (revision : ℕ) (led lamp : Bool)
    → enabled_tools (active (hal_of revision led lamp)) ≡ offered led lamp
unfolding copy_capabilities capability_of
hal_of-offered revision true true = refl
hal_of-offered revision true false = refl
hal_of-offered revision false true = refl
hal_of-offered revision false false = refl

activate-hal_of :
    (revision : ℕ) (led lamp : Bool)
    → (revision == 0) ≡ false
    → activate true BoardHal.init (manifest_of revision led lamp)
      ≡ (HalResult.ok, hal_of revision led lamp)
unfolding activate
activate-hal_of revision led lamp h =
    let stale : leb revision 0 ≡ false = ground arith in
    rw (activate, h, stale, manifest_of-accepted revision led lamp h) refl

init-IsActive : IsActive BoardHal.init
init-IsActive = record { counted = omega arith; have_tools = tt; are_tools = tt; names_differ = tt }

hal_of-IsActive :
    (revision : ℕ) (led lamp : Bool) → (revision == 0) ≡ false → IsActive (hal_of revision led lamp)
hal_of-IsActive revision led lamp h =
    subst (λ (r : HalResult × Hal). IsActive r.1) (activate-hal_of revision led lamp h)
      (activate-IsActive true BoardHal.init (manifest_of revision led lamp) (omega arith)
        init-IsActive).1

-- A board whose name is not empty and fits, with a revision that is not 0, is set up where the calls for
-- its pins and calloc succeed: the board is active, and its enabled tools, which the MCP task takes, are the
-- status and an output for each of the two pins that the chip has.
pub init-offers :
    (gpio_num_max : ℕ) (led_pin lamp_pin : PinAnswers) (config : BoardConfig)
    → 0 < length config.board_name
    → length config.board_name < max_board_name_bytes
    → config.capability_revision ≢ 0
    → configure_output gpio_num_max (led_config config) led_pin ≡ EspError.ok
    → configure_output gpio_num_max (lamp_config config) lamp_pin ≡ EspError.ok
    → let led = valid_gpio gpio_num_max config.status_led_gpio in
      let lamp = valid_gpio gpio_num_max config.lamp_gpio in
      (tools : BoardTools) × (init gpio_num_max true (led_pin, lamp_pin) (some config)
        ≡ (EspError.ok, some tools))
      × IsActive tools.hal
      × (enabled_tools (active tools.hal) ≡ offered led lamp)
unfolding init assemble
init-offers gpio_num_max led_pin lamp_pin config named fits revised led_ok lamp_ok =
    let led = valid_gpio gpio_num_max config.status_led_gpio in
    let lamp = valid_gpio gpio_num_max config.lamp_gpio in
    let revision = config.capability_revision in
    let h : (revision == 0) ≡ false = ground arith in
    let tools : BoardTools = record {
      board_name = config.board_name;
      hal = hal_of revision led lamp;
      status_led = output_of gpio_num_max (led_config config);
      lamp = output_of gpio_num_max (lamp_config config);
      tool_storage = status_tool ∷ led_tool ∷ lamp_tool ∷ [];
    } in
    let e : (length config.board_name == 0) ≡ false = ground arith in
    let f : leb max_board_name_bytes (length config.board_name) ≡ false = ground arith in
    (
      tools,
      rw (init, e, f, h, led_ok, lamp_ok, assemble, activate-hal_of revision led lamp h) refl,
      hal_of-IsActive revision led lamp h,
      hal_of-offered revision led lamp,
    )
