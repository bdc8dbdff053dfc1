-- ===== src/Examples/Lamps.antt =====
-- A board with a coloured status LED and a lamp: its setup, a switch, a brightness.
use veetee_vuqb.Base.{◌≡◌, refl, true, false, some, str_eq, arith}
use veetee_vuqb.Base.Esp.{EspError}
use veetee_vuqb.Base.Int.{pos, negsuc}
use veetee_vuqb.Base.Text.{codes}
use veetee_vuqb.Json.{CJson}
use veetee_vuqb.BoardHal.Lookup.{active}
use veetee_vuqb.BoardHal.Tools.{enabled_tools}
use veetee_vuqb.BoardHal.Activation.{IsActive}
use veetee_vuqb.BoardTools.{Output, BoardTools}
use veetee_vuqb.BoardTools.Setup.{
  BoardConfig, PinAnswers, output_of, led_config, lamp_config, configure_output, init,
}
use veetee_vuqb.BoardTools.Boards.{offered, init-offers}
use veetee_vuqb.BoardTools.Invoke.{Driver, parse_object, invoke_output}
use veetee_vuqb.BoardTools.Levels.{IsLevel, Follows, invoke_output-IsLevel, invoke_output-Follows}
use veetee_vuqb.BoardTools.Dimming.{Dims, IsStrip, IsBrightness, invoke_output-dim}
use veetee_vuqb.Examples.Trees.{Json, number, empty, field, json}

abbrev board : BoardConfig
board = record {
  board_name = codes "veetee-s3";
  status_led_gpio = pos 48;
  lamp_gpio = negsuc 0;
  status_led_active_level = pos 1;
  lamp_active_level = pos 1;
  status_led_rgb = true;
  capability_revision = 3;
}

abbrev pin : PinAnswers
pin = record { reset = EspError.ok; direction = EspError.ok; level = EspError.ok }

led_made : configure_output 49 (led_config board) pin ≡ EspError.ok
unfolding configure_output
led_made = refl

lamp_made : configure_output 49 (lamp_config board) pin ≡ EspError.ok
unfolding configure_output
lamp_made = refl

init-offers_example :
    (tools : BoardTools) × (init 49 true (pin, pin) (some board) ≡ (EspError.ok, some tools))
    × IsActive tools.hal
    × (enabled_tools (active tools.hal) ≡ offered true false)
init-offers_example =
    init-offers 49 pin pin board (omega arith) (omega arith) (λ q. cc) led_made lamp_made

-- A JSON in which every text is the same object.
abbrev arguments : Json
arguments = field (codes "brightness") (number 50) empty

abbrev brightness_json : CJson
brightness_json = record json { parse = λ s. some arguments }

abbrev working : Driver
working = record {
  made = true;
  cleared = true;
  pixel_set = true;
  refreshed = true;
  level_set = true;
}

abbrev led : Output
led = record (output_of 49 (led_config board)) { rgb_handle = true }

abbrev lamp : Output
lamp = output_of 49 (lamp_config board)

led-IsLevel : IsLevel led
led-IsLevel = record {
  bright = omega arith;
  lit = λ e. cc;
  dark = λ e. refl;
  colours = (omega arith, omega arith, omega arith);
}

invoke_output-IsLevel_example :
    IsLevel (invoke_output brightness_json working led (codes "{}") 64).0
invoke_output-IsLevel_example =
    invoke_output-IsLevel brightness_json working led (codes "{}") 64 led-IsLevel

invoke_output-Follows_example :
    Follows lamp 64 (invoke_output brightness_json working lamp (codes "{}") 64)
invoke_output-Follows_example =
    invoke_output-Follows brightness_json working lamp (codes "{}") 64 refl

led-IsStrip : IsStrip led
led-IsStrip = record {
  strip = refl;
  handle = refl;
  colours = (omega arith, omega arith, omega arith);
}

half : IsBrightness brightness_json arguments 50
unfolding str_eq
half = record {
  value = number 50;
  given = refl;
  whole = refl;
  enabled = refl;
  red = refl;
  green = refl;
  blue = refl;
  transition = refl;
}

parsed : parse_object brightness_json (codes "{}") ≡ some arguments
unfolding parse_object
parsed = refl

invoke_output-dim_example :
    Dims 50 led 64 (invoke_output brightness_json working led (codes "{}") 64)
invoke_output-dim_example =
    invoke_output-dim brightness_json working led (codes "{}") 64 50 arguments parsed half
      led-IsStrip refl refl (omega arith) (omega arith)
