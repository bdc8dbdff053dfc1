-- ===== src/BoardTools.antt =====
-- veetee-firmware/main/veetee_board_tools.c and veetee_board_tools.h: the tools of the board, a status
-- and two outputs. cJSON, the GPIO driver and the LED strip are libraries: what they answer is an
-- argument, and what is asked of the drivers is an action.
pub mod Invoke
pub mod Setup
pub mod Requests
pub mod Levels
pub mod Dimming
pub mod Boards
use veetee_vuqb.Base.{
  ℕ, ◌+◌, ◌*◌, ◌/◌, ◌%◌, ◌^◌, Bool, true, false, not, ◌&&◌, if◌then◌else◌, ltb, leb, ◌==◌, Option,
  none, some, List,
}
use veetee_vuqb.Base.Int.{ℤ, pos, negsuc}
use veetee_vuqb.Base.Text.{codes}
use veetee_vuqb.BoardHal.{Hal}
use veetee_vuqb.Mcp.{Tool}
use veetee_vuqb.Json.{CJson, is_true, integer_of}

-- vt_board_output_t; of the handle of the LED strip, whether it is there
pub record Output : Type 0 where
  pub capability_id : List ℕ
  pub tool_name : List ℕ
  pub gpio : ℤ
  pub active_level : ℕ
  pub configured : Bool
  pub enabled : Bool
  pub rgb : Bool
  pub brightness : ℕ
  pub red : ℕ
  pub green : ℕ
  pub blue : ℕ
  pub rgb_handle : Bool

-- vt_board_tools_t, with the two entries of `outputs`
pub record BoardTools : Type 0 where
  pub board_name : List ℕ
  pub hal : Hal
  pub status_led : Output
  pub lamp : Output
  pub tool_storage : List Tool

-- What invoke_output has read so far: the level that is asked for, the channels, the highest channel that
-- is named, and whether a channel and whether anything is named.
pub record Request : Type 0 where
  pub enabled : Bool
  pub brightness : ℕ
  pub red : ℕ
  pub green : ℕ
  pub blue : ℕ
  pub channel : ℕ
  pub channel_present : Bool
  pub present : Bool

-- The request before anything is read.
abbrev pub unchanged : Output → Request
unchanged output = record {
  enabled = output.enabled;
  brightness = output.brightness;
  red = output.red;
  green = output.green;
  blue = output.blue;
  channel = 0;
  channel_present = false;
  present = false;
}

abbrev pub max : ℕ → ℕ → ℕ
max a b = if ltb a b then b else a

-- The channels in the order of `channels`, and the store into `*channel_values[index]`.
pub data Channel : Type 0 where
  red green blue : Channel

abbrev pub channel_name : Channel → List ℕ
channel_name red = codes "red"
channel_name green = codes "green"
channel_name blue = codes "blue"

abbrev pub store_channel : Channel → ℕ → Request → Request
store_channel red value request = record request { red = value }
store_channel green value request = record request { green = value }
store_channel blue value request = record request { blue = value }

infixl 5 ◌>>=◌
abbrev pub ◌>>=◌ {ℓ κ} : {A : Type ℓ} {B : Type κ} → Option A → (A → Option B) → Option B
m >>= f = elim m [ none ↦ none | some a ↦ f a ]

-- valid_integer with the minimum 0, which every call has
unfoldable pub in_range : ℕ → Option ℤ → Option ℕ
in_range maximum none = none
in_range maximum (some (pos n)) = if leb n maximum then some n else none
in_range maximum (some (negsuc n)) = none

-- What the channels make of the level.
abbrev pub channel_level : Request → Request
channel_level request =
    if request.channel_present
    then record request {
      enabled = ltb 0 request.channel;
      brightness = (request.channel * 100 + 127) / 255 % 2 ^ 8;
      present = true;
    }
    else request

module _ (j : CJson) where
  unfoldable pub valid_integer : j.Value → ℕ → Option ℕ
  valid_integer value maximum = in_range maximum (integer_of j (some value))

  -- The parts of invoke_output that read the arguments, `none` where one is refused.
  unfoldable pub read_enabled : j.Value → Request → Option Request
  read_enabled arguments request = elim (j.item arguments (codes "enabled")) [
    | none ↦ some request
    | some value ↦
        if not (j.is_bool value)
        then none
        else some (record request {
          enabled = j.is_true value;
          brightness = if j.is_true value then 100 else 0;
          present = true;
        })
  ]

  unfoldable pub read_brightness : j.Value → Request → Option Request
  read_brightness arguments request = elim (j.item arguments (codes "brightness")) [
    | none ↦ some request
    | some value ↦ elim (valid_integer value 100) [
      | none ↦ none
      | some n ↦ some (record request { brightness = n % 2 ^ 8; enabled = ltb 0 n; present = true })
    ]
  ]

  -- One round of the loop over the channels, and the loop.
  unfoldable pub read_channel : j.Value → Channel → Request → Option Request
  read_channel arguments channel request = elim (j.item arguments (channel_name channel)) [
    | none ↦ some request
    | some value ↦ elim (valid_integer value 255) [
      | none ↦ none
      | some n ↦ some (record (store_channel channel n request) {
        channel = max request.channel n;
        channel_present = true;
      })
    ]
  ]

  unfoldable pub read_channels : j.Value → Request → Option Request
  read_channels arguments request = do
    r ← read_channel arguments Channel.red request
    g ← read_channel arguments Channel.green r
    read_channel arguments Channel.blue g

  unfoldable pub transition_valid : j.Value → Bool
  transition_valid arguments = elim (j.item arguments (codes "transition_ms")) [
    | none ↦ true
    | some value ↦ elim (valid_integer value 5000) [ none ↦ false | some n ↦ true ]
  ]

  unfoldable pub read_request : j.Value → Output → Option Request
  read_request arguments output = do
    switched ← read_enabled arguments (unchanged output)
    dimmed ← read_brightness arguments switched
    coloured ← read_channels arguments dimmed
    let request = channel_level coloured
    if transition_valid arguments && request.present then some request else none
