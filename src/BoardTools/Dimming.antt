-- ===== src/BoardTools/Dimming.antt =====
-- A call that names a brightness alone, on an RGB output.
use veetee_vuqb.Base.{
  ℕ, ◌*◌, ◌/◌, ◌%◌, ◌^◌, ◌≤◌, ◌<◌, ◌≡◌, refl, ap₂, Bool, true, false, ◌&&◌, if◌then◌else◌, ltb, leb,
  ◌==◌, Bool-cases, inl, inr, none, some, List, [], ◌∷◌, ap, arith,
}
use native.Mathlib.Nat.{mul-le-mul_left}
use veetee_vuqb.Base.Int.{pos}
use veetee_vuqb.Base.Text.{codes}
use veetee_vuqb.Json.{CJson, integer_of}
use veetee_vuqb.BoardTools.{
  Output, Request, unchanged, in_range, valid_integer, read_enabled, read_brightness, read_channel,
  read_channels, transition_valid, read_request,
}
use veetee_vuqb.Mcp.{McpResult}
use veetee_vuqb.BoardTools.Invoke.{
  Action, write_result, output_text, Driver, pixel_of, drive, store, parse_object, invoke_parsed,
  invoke_output,
}

-- A channel scaled by a percentage, and the colour after it, which is white where nothing is left.
abbrev pub dimmed : ℕ → ℕ → ℕ
dimmed n channel = channel * n / 100

abbrev pub dims_out : ℕ → Output → Bool
dims_out n o = dimmed n o.red == 0 && dimmed n o.green == 0 && dimmed n o.blue == 0

abbrev pub dim : ℕ → Output → Output
dim n o = record o {
  enabled = true;
  brightness = n;
  red = if dims_out n o then 255 else dimmed n o.red;
  green = if dims_out n o then 255 else dimmed n o.green;
  blue = if dims_out n o then 255 else dimmed n o.blue;
}

-- An RGB output whose strip is there, with channels that are bytes.
pub record IsStrip (o : Output) : Type 0 where
  pub strip : o.rgb ≡ true
  pub handle : o.rgb_handle ≡ true
  pub colours : (o.red ≤ 255) × (o.green ≤ 255) × (o.blue ≤ 255)

abbrev brightness_request : ℕ → Output → Request
brightness_request n o = record (unchanged o) { brightness = n; enabled = true; present = true }

dimmed-byte :
    (n channel : ℕ) → n ≤ 100 → channel ≤ 255 → dimmed n channel % 2 ^ 8 ≡ dimmed n channel
dimmed-byte n channel h k =
    let below : channel * n ≤ channel * 100 = mul-le-mul_left channel h in omega (arith, below, k)

-- What the strip is asked to show.
abbrev pub shows : Request → List Action
shows r = Action.set_pixel r.red r.green r.blue ∷ Action.refresh ∷ []

drive-strip :
    (driver : Driver) (o : Output) (r : Request)
    → o.rgb ≡ true
    → o.rgb_handle ≡ true
    → r.enabled ≡ true
    → driver.pixel_set ≡ true
    → driver.refreshed ≡ true
    → (let (o', r', done, actions) = drive driver o r in
        (o' ≡ o) × (r' ≡ pixel_of r) × (done ≡ true) × (actions ≡ shows (pixel_of r)))
unfolding drive
drive-strip driver o r strip handle on set refreshed =
    (ground arith, ground arith, ground arith, ground arith)

store-dim :
    (o : Output) (n : ℕ)
    → IsStrip o
    → 0 < n
    → n ≤ 100
    → store o (pixel_of (brightness_request n o)) ≡ dim n o
unfolding store
store-dim o n v low high =
    let r = dimmed-byte n o.red high v.colours.0 in
    let g = dimmed-byte n o.green high v.colours.1 in
    let b = dimmed-byte n o.blue high v.colours.2 in
    let some_brightness : (n == 0) ≡ false = ground arith in
    elim (Bool-cases (dims_out n o)) [
      | inl out ↦ rw (some_brightness, out, some_brightness) refl
      | inr out ↦ rw (some_brightness, out, some_brightness, r, g, b) refl
    ]

-- The outcome: the output is the dimmed one, the strip was asked to show its colour and to refresh, and the
-- result is what write_result makes of the output.
abbrev pub Dims : ℕ → Output → ℕ → Output × (McpResult × List ℕ) × List Action → Type 0
Dims n o capacity (o', (result, text), actions) =
    (o' ≡ dim n o)
    × (actions
        ≡ Action.set_pixel (dim n o).red (dim n o).green (dim n o).blue ∷ Action.refresh ∷ [])
    × ((result, text) ≡ write_result capacity (output_text (dim n o)))

pixel-dim :
    (o : Output) (n : ℕ)
    → 0 < n
    → shows (pixel_of (brightness_request n o))
      ≡ Action.set_pixel (dim n o).red (dim n o).green (dim n o).blue ∷ Action.refresh ∷ []
pixel-dim o n low =
    let some_brightness : (n == 0) ≡ false = ground arith in
    elim (Bool-cases (dims_out n o)) [
      | inl out ↦ rw (some_brightness, out) refl
      | inr out ↦ rw (some_brightness, out) refl
    ]

invoke_parsed-dim :
    (driver : Driver) (o : Output) (capacity n : ℕ)
    → IsStrip o
    → driver.pixel_set ≡ true
    → driver.refreshed ≡ true
    → 0 < n
    → n ≤ 100
    → Dims n o capacity (invoke_parsed driver o capacity (some (brightness_request n o)))
unfolding invoke_parsed
invoke_parsed-dim driver o capacity n v set refreshed low high =
    let (same, shown, done, actions) =
      drive-strip driver o (brightness_request n o) v.strip v.handle refl set refreshed in
    let stored = store-dim o n v low high in
    rw (invoke_parsed, done, same, shown, actions)
      (stored, pixel-dim o n low, ap (λ (x : Output). write_result capacity (output_text x)) stored)

module _ (j : CJson) where
  -- Arguments with a brightness alone.
  pub record IsBrightness (arguments : j.Value) (n : ℕ) : Type 0 where
    pub value : j.Value
    pub given : j.item arguments (codes "brightness") ≡ some value
    pub whole : integer_of j (some value) ≡ some (pos n)
    pub enabled : j.item arguments (codes "enabled") ≡ none
    pub red : j.item arguments (codes "red") ≡ none
    pub green : j.item arguments (codes "green") ≡ none
    pub blue : j.item arguments (codes "blue") ≡ none
    pub transition : j.item arguments (codes "transition_ms") ≡ none

  read_request-brightness :
      (arguments : j.Value) (o : Output) (n : ℕ)
      → IsBrightness arguments n
      → 0 < n
      → n ≤ 100
      → read_request j arguments o ≡ some (brightness_request n o)
  unfolding read_request read_enabled read_brightness read_channels read_channel transition_valid
      valid_integer in_range
  read_request-brightness arguments o n v low high =
      let fits : leb n 100 ≡ true = ground arith in
      let on : ltb 0 n ≡ true = ground arith in
      let byte : n % 2 ^ 8 ≡ n = omega arith in
      rw
        (
          read_request, read_enabled, v.enabled, read_brightness, v.given, valid_integer, v.whole,
          in_range, fits, read_channels, read_channel, v.red, v.green, v.blue, transition_valid,
          v.transition,
        )
        (ap₂
          (λ (e : Bool) (b : ℕ).
            some (record (unchanged o) { brightness = b; enabled = e; present = true }))
          on byte)

  -- A brightness alone, from 1 to 100, on an RGB output whose strip is there and whose drivers work, shows
  -- the channels scaled by it, or white where each of them scales to 0, and stores what it shows in the place
  -- of the channels, beside the brightness: the colour from which the next call starts is not the one that was
  -- set, but the one that was shown.
  pub invoke_output-dim :
      (driver : Driver) (o : Output) (arguments_json : List ℕ) (capacity n : ℕ)
      (arguments : j.Value)
      → parse_object j arguments_json ≡ some arguments
      → IsBrightness arguments n
      → IsStrip o
      → driver.pixel_set ≡ true
      → driver.refreshed ≡ true
      → 0 < n
      → n ≤ 100
      → Dims n o capacity (invoke_output j driver o arguments_json capacity)
  unfolding invoke_output
  invoke_output-dim driver o arguments_json capacity n arguments parsed v s set refreshed low high =
      rw (invoke_output, parsed, read_request-brightness arguments o n v low high)
        (invoke_parsed-dim driver o capacity n s set refreshed low high)
