-- ===== src/Base/Esp.antt =====
-- The esp_err_t codes of ESP-IDF that the firmware returns by name; `other` stands for any code that it
-- passes on from a driver.
use Prim.Native.Nat.{ℕ}

pub data EspError : Type 0 where
  ok fail err_no_mem err_invalid_arg err_invalid_state err_invalid_size err_timeout : EspError
  other : ℕ → EspError
