-- ===== src/BoardTools/Invoke.antt =====
-- invoke_output and invoke_status: a call of a tool, from its arguments to the driver and the result.
use veetee_vuqb.Base.{
  ℕ, ◌*◌, ◌/◌, ◌%◌, ◌^◌, Bool, true, false, not, ◌&&◌, if◌then◌else◌, leb, ◌==◌, Option, none, some,
  List, [], ◌∷◌, ◌++◌, length, take, ◌-◌,
}
use veetee_vuqb.Base.Int.{ℤ}
use veetee_vuqb.Base.Text.{codes, decimal}
use veetee_vuqb.Json.{CJson}
use veetee_vuqb.Mcp.{McpResult}
use veetee_vuqb.BoardTools.{Output, BoardTools, Request, read_request}

-- What is asked of the drivers.
pub data Action : Type 0 where
  new_strip : ℤ → Action
  clear refresh : Action
  set_pixel : ℕ → ℕ → ℕ → Action
  set_level : ℤ → ℕ → Action

-- Which of the driver's calls return ESP_OK.
pub record Driver : Type 0 where
  pub made : Bool
  pub cleared : Bool
  pub pixel_set : Bool
  pub refreshed : Bool
  pub level_set : Bool

-- The colour of a pixel: the channels scaled by the brightness, and white where nothing is left.
abbrev pub scale_of : Request → ℕ
scale_of request = if request.brightness == 0 then 100 else request.brightness

abbrev scaled : Request → Request
scaled request = record request {
  red = request.red * scale_of request / 100;
  green = request.green * scale_of request / 100;
  blue = request.blue * scale_of request / 100;
}

abbrev pub pixel_of : Request → Request
pixel_of request =
    let dimmed = scaled request in
    if dimmed.red == 0 && dimmed.green == 0 && dimmed.blue == 0
    then record dimmed { red = 255; green = 255; blue = 255 }
    else dimmed

-- The strip, made at its first use: the output with its handle, whether it is there, the actions.
abbrev make_strip : Driver → Output → Output × Bool × List Action
make_strip driver output = if output.rgb_handle then (output, true, []) else (
  record output { rgb_handle = driver.made },
  driver.made,
  Action.new_strip output.gpio ∷ [],
)

abbrev pub show_pixel : Driver → Request → Bool × List Action
show_pixel driver request =
    if not request.enabled
    then (if not driver.cleared
        then (false, Action.clear ∷ [])
        else (driver.refreshed, Action.clear ∷ Action.refresh ∷ []))
    else let pixel = pixel_of request in
      let set = Action.set_pixel pixel.red pixel.green pixel.blue in
      if not driver.pixel_set
      then (false, set ∷ [])
      else (driver.refreshed, set ∷ Action.refresh ∷ [])

-- The level of a GPIO: the active one, or the other.
abbrev pub level_of : Output → Bool → ℕ
level_of output enabled =
    if enabled then output.active_level else if output.active_level == 0 then 1 else 0

-- The driver's part: the output, the request with the channels that were shown, whether each call
-- returned ESP_OK, and the actions.
unfoldable pub drive : Driver → Output → Request → Output × Request × Bool × List Action
drive driver output request =
    if output.rgb
    then (let (made, there, actions) = make_strip driver output in
        if not there
        then (made, request, false, actions)
        else let (shown, more) = show_pixel driver request in
          (made, if request.enabled then pixel_of request else request, shown, actions ++ more))
    else (
      output,
      request,
      driver.level_set,
      Action.set_level output.gpio (level_of output request.enabled) ∷ [],
    )

-- The stores into the output.
unfoldable pub store : Output → Request → Output
store output request = record output {
  enabled = request.enabled;
  brightness = if request.enabled then scale_of request else 0;
  red = request.red % 2 ^ 8;
  green = request.green % 2 ^ 8;
  blue = request.blue % 2 ^ 8;
}

-- write_result, with the text that the format makes: the result, and what vsnprintf leaves in the buffer
abbrev pub fit : ℕ → List ℕ → McpResult × List ℕ
fit capacity text =
    if leb capacity (length text)
    then (McpResult.err_result_too_large, take (capacity - 1) text)
    else (McpResult.ok, text)

abbrev pub write_result : ℕ → List ℕ → McpResult × List ℕ
write_result capacity text =
    if capacity == 0 then (McpResult.err_argument, []) else fit capacity text

abbrev flag : Bool → List ℕ
flag true = codes "true"
flag false = codes "false"

abbrev pub output_text : Output → List ℕ
output_text output =
    codes "{\"capability\":\""
    ++ output.capability_id
    ++ codes "\",\"enabled\":"
    ++ flag output.enabled
    ++ codes ",\"brightness\":"
    ++ decimal 10 output.brightness []
    ++ codes "}"

abbrev pub status_text : BoardTools → List ℕ
status_text tools =
    codes "{\"board\":\""
    ++ tools.board_name
    ++ codes "\",\"status_led\":{\"available\":"
    ++ flag tools.status_led.configured
    ++ codes ",\"enabled\":"
    ++ flag tools.status_led.enabled
    ++ codes "},\"lamp\":{\"available\":"
    ++ flag tools.lamp.configured
    ++ codes ",\"enabled\":"
    ++ flag tools.lamp.enabled
    ++ codes "}}"

-- invoke_output past its arguments, `none` where they are refused.
unfoldable pub invoke_parsed :
    Driver → Output → ℕ → Option Request → Output × (McpResult × List ℕ) × List Action
invoke_parsed driver output capacity none = (output, (McpResult.err_invoke, []), [])
invoke_parsed driver output capacity (some request) =
    let (driven, shown, done, actions) = drive driver output request in
    if not done
    then (driven, (McpResult.err_invoke, []), actions)
    else let stored = store driven shown in
      (stored, write_result capacity (output_text stored), actions)

module _ (j : CJson) where
  -- cJSON_Parse of the arguments, an object
  unfoldable pub parse_object : List ℕ → Option j.Value
  parse_object arguments_json = elim (j.parse arguments_json) [
    | none ↦ none
    | some value ↦ if j.is_object value then some value else none
  ]

  -- invoke_output, with neither pointer NULL
  unfoldable pub invoke_output :
      Driver → Output → List ℕ → ℕ → Output × (McpResult × List ℕ) × List Action
  invoke_output driver output arguments_json capacity =
      invoke_parsed driver output capacity (elim (parse_object arguments_json) [
        | none ↦ none
        | some arguments ↦ read_request j arguments output
      ])

  -- invoke_status, with neither pointer NULL
  unfoldable pub invoke_status : BoardTools → List ℕ → ℕ → McpResult × List ℕ
  invoke_status tools arguments_json capacity = elim (parse_object arguments_json) [
    | none ↦ (McpResult.err_invoke, [])
    | some arguments ↦
        if j.array_size arguments == 0
        then write_result capacity (status_text tools)
        else (McpResult.err_invoke, [])
  ]
