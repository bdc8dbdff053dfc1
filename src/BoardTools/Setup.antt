-- ===== src/BoardTools/Setup.antt =====
-- vt_board_tools_init: the outputs, the three tools and the manifest of the board.
use veetee_vuqb.Base.{
  ℕ, Bool, true, false, not, ◌||◌, if◌then◌else◌, ltb, leb, ◌==◌, Option, none, some, List, [], ◌∷◌,
  ◌++◌, length,
}
use veetee_vuqb.Base.Esp.{EspError}
use veetee_vuqb.Base.Int.{ℤ, pos, negsuc, int_eq}
use veetee_vuqb.Base.Text.{codes}
use veetee_vuqb.Mcp.{Tool}
use veetee_vuqb.BoardHal
use veetee_vuqb.BoardHal.{HalResult, Descriptor, Manifest, Hal, activate, is_ok}
use veetee_vuqb.BoardTools.{Output, BoardTools}

abbrev pub max_board_name_bytes : ℕ
max_board_name_bytes = 64

-- The two schemas, and the three descriptions with their UTF-8 bytes.
abbrev status_schema : List ℕ
status_schema = codes "{\"type\":\"object\",\"additionalProperties\":false}"

abbrev output_schema : List ℕ
output_schema =
    codes "{\"type\":\"object\",\"additionalProperties\":false,\"properties\":{"
    ++ codes "\"enabled\":{\"type\":\"boolean\"},"
    ++ codes "\"brightness\":{\"type\":\"integer\",\"minimum\":0,\"maximum\":100},"
    ++ codes "\"red\":{\"type\":\"integer\",\"minimum\":0,\"maximum\":255},"
    ++ codes "\"green\":{\"type\":\"integer\",\"minimum\":0,\"maximum\":255},"
    ++ codes "\"blue\":{\"type\":\"integer\",\"minimum\":0,\"maximum\":255},"
    ++ codes "\"transition_ms\":{\"type\":\"integer\",\"minimum\":0,\"maximum\":5000}}}"

abbrev status_description : List ℕ
status_description =
    (196 ∷ 144 ∷ [])
    ++ (225 ∷ 187 ∷ 141 ∷ [])
    ++ codes "c tr"
    ++ (225 ∷ 186 ∷ 161 ∷ [])
    ++ codes "ng th"
    ++ (195 ∷ 161 ∷ [])
    ++ codes "i capability hi"
    ++ (225 ∷ 187 ∷ 135 ∷ [])
    ++ codes "n c"
    ++ (195 ∷ 179 ∷ [])
    ++ codes " tr"
    ++ (195 ∷ 170 ∷ [])
    ++ codes "n board"

abbrev led_description : List ℕ
led_description =
    (196 ∷ 144 ∷ [])
    ++ codes "i"
    ++ (225 ∷ 187 ∷ 129 ∷ [])
    ++ codes "u khi"
    ++ (225 ∷ 187 ∷ 131 ∷ [])
    ++ codes "n "
    ++ (196 ∷ 145 ∷ [])
    ++ (195 ∷ 168 ∷ [])
    ++ codes "n tr"
    ++ (225 ∷ 186 ∷ 161 ∷ [])
    ++ codes "ng th"
    ++ (195 ∷ 161 ∷ [])
    ++ codes "i c"
    ++ (225 ∷ 187 ∷ 167 ∷ [])
    ++ codes "a board"

abbrev lamp_description : List ℕ
lamp_description =
    (196 ∷ 144 ∷ [])
    ++ codes "i"
    ++ (225 ∷ 187 ∷ 129 ∷ [])
    ++ codes "u khi"
    ++ (225 ∷ 187 ∷ 131 ∷ [])
    ++ codes "n "
    ++ (196 ∷ 145 ∷ [])
    ++ (195 ∷ 168 ∷ [])
    ++ codes "n ph"
    ++ (225 ∷ 187 ∷ 165 ∷ [])
    ++ codes " c"
    ++ (225 ∷ 187 ∷ 167 ∷ [])
    ++ codes "a board"

-- output_config_t, without the description, which is not read
pub record OutputConfig : Type 0 where
  pub capability_id : List ℕ
  pub tool_name : List ℕ
  pub gpio : ℤ
  pub active_level : ℤ
  pub rgb : Bool

-- What gpio_reset_pin, gpio_set_direction and gpio_set_level return.
pub record PinAnswers : Type 0 where
  pub reset : EspError
  pub direction : EspError
  pub level : EspError

-- GPIO_NUM_MAX of the chip, a number of the driver's header
abbrev pub valid_gpio : ℕ → ℤ → Bool
valid_gpio gpio_num_max (pos gpio) = ltb gpio gpio_num_max
valid_gpio gpio_num_max (negsuc gpio) = false

abbrev pub is_esp_ok : EspError → Bool
is_esp_ok EspError.ok = true
is_esp_ok _ = false

-- The output of a configuration, and what the calls for its pin return.
abbrev pub output_of : ℕ → OutputConfig → Output
output_of gpio_num_max config = record {
  capability_id = config.capability_id;
  tool_name = config.tool_name;
  gpio = config.gpio;
  active_level = if int_eq config.active_level (pos 0) then 0 else 1;
  rgb = config.rgb;
  configured = valid_gpio gpio_num_max config.gpio;
  enabled = false;
  brightness = 0;
  red = 255;
  green = 255;
  blue = 255;
  rgb_handle = false;
}

unfoldable pub configure_output : ℕ → OutputConfig → PinAnswers → EspError
configure_output gpio_num_max config pin =
    if not (valid_gpio gpio_num_max config.gpio) || config.rgb
    then EspError.ok
    else if not (is_esp_ok pin.reset)
    then pin.reset
    else if not (is_esp_ok pin.direction)
    then pin.direction
    else pin.level

-- The arguments of vt_board_tools_init.
pub record BoardConfig : Type 0 where
  pub board_name : List ℕ
  pub status_led_gpio : ℤ
  pub lamp_gpio : ℤ
  pub status_led_active_level : ℤ
  pub lamp_active_level : ℤ
  pub status_led_rgb : Bool
  pub capability_revision : ℕ

abbrev pub led_config : BoardConfig → OutputConfig
led_config config = record {
  capability_id = codes "status_led";
  tool_name = codes "device.led.set";
  gpio = config.status_led_gpio;
  active_level = config.status_led_active_level;
  rgb = config.status_led_rgb;
}

abbrev pub lamp_config : BoardConfig → OutputConfig
lamp_config config = record {
  capability_id = codes "lamp";
  tool_name = codes "device.lamp.set";
  gpio = config.lamp_gpio;
  active_level = config.lamp_active_level;
  rgb = false;
}

-- The tools; a callback with its context is a number: 0 is invoke_status, 1 and 2 are invoke_output on the
-- status LED and on the lamp.
abbrev pub status_tool : Tool
status_tool = record {
  name = some (codes "device.status.get");
  description = some status_description;
  input_schema_json = some status_schema;
  invoke = some 0;
}

abbrev pub led_tool : Tool
led_tool = record {
  name = some (codes "device.led.set");
  description = some led_description;
  input_schema_json = some output_schema;
  invoke = some 1;
}

abbrev pub lamp_tool : Tool
lamp_tool = record {
  name = some (codes "device.lamp.set");
  description = some lamp_description;
  input_schema_json = some output_schema;
  invoke = some 2;
}

abbrev descriptor : List ℕ → List ℕ → Tool → ℕ → Bool → Descriptor
descriptor capability_id owner_id tool safety_class enabled = record {
  capability_id = some capability_id;
  owner_id = some owner_id;
  tool = some tool;
  timeout_ms = 1000;
  safety_class = safety_class;
  enabled = enabled;
}

abbrev pub manifest_of : ℕ → Bool → Bool → Manifest
manifest_of capability_revision led_configured lamp_configured = record {
  capability_revision = capability_revision;
  capabilities = some (
      descriptor (codes "status") (codes "app_main") status_tool 0 true
      ∷ descriptor (codes "status_led") (codes "led_owner") led_tool 1 led_configured
      ∷ descriptor (codes "lamp") (codes "device_io") lamp_tool 1 lamp_configured
      ∷ []);
  capability_count = 3;
}

-- vt_board_tools_init on tools that are not NULL, past its tests, and whole: `pins` are the answers for the
-- two outputs, and `allocated` is the answer of calloc in vt_board_hal_validate. Where it returns early, the
-- tools are those of the call that failed, and only the error is told.
unfoldable pub assemble : Bool → BoardConfig → Output → Output → EspError × Option BoardTools
assemble allocated config led lamp =
    let manifest = manifest_of config.capability_revision led.configured lamp.configured in
    let (result, hal) = activate allocated BoardHal.init manifest in
    let tools : BoardTools = record {
      board_name = config.board_name;
      hal = hal;
      status_led = led;
      lamp = lamp;
      tool_storage = status_tool ∷ led_tool ∷ lamp_tool ∷ [];
    } in
    (if is_ok result then EspError.ok else EspError.err_invalid_state, some tools)

unfoldable pub init :
    ℕ → Bool → PinAnswers × PinAnswers → Option BoardConfig → EspError × Option BoardTools
init gpio_num_max allocated pins none = (EspError.err_invalid_arg, none)
init gpio_num_max allocated (led_pin, lamp_pin) (some config) =
    let led = led_config config in
    let lamp = lamp_config config in
    let led_error = configure_output gpio_num_max led led_pin in
    let lamp_error = configure_output gpio_num_max lamp lamp_pin in
    if length config.board_name == 0
      || leb max_board_name_bytes (length config.board_name)
      || config.capability_revision == 0
    then (EspError.err_invalid_arg, none)
    else if not (is_esp_ok led_error)
    then (led_error, none)
    else if not (is_esp_ok lamp_error)
    then (lamp_error, none)
    else assemble allocated config (output_of gpio_num_max led) (output_of gpio_num_max lamp)
