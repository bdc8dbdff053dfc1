-- ===== src/Pairing.antt =====
-- veetee-firmware/main/veetee_pairing.c and veetee_pairing.h: the pairing code that the device shows.
pub mod Codes
pub mod Storing
use veetee_vuqb.Base.Text.{decimal}
use veetee_vuqb.Base.{
  ℕ, zero, suc, ◌+◌, ◌-◌, ◌/◌, ◌%◌, ◌<◌, ◌≡◌, refl, Bool, true, false, ◌||◌, arith, if◌then◌else◌,
  ltb, ◌==◌, Option, none, some, List, [], ◌∷◌, ◌++◌, length, get_or, take, replicate,
}

-- VT_PAIRING_CODE_LENGTH
abbrev pub code_length : ℕ
code_length = 6

-- The loop of vt_pairing_code_is_valid over the `n` indices from `index` on. A C string is read as
-- its bytes and then the terminator 0.
pub digits_from : List ℕ → ℕ → ℕ → Bool
digits_from code index zero = true
digits_from code index (suc n) =
    let rest = digits_from code (index + 1) n in
    let c = get_or code index 0 in
    if c == 0 then false else if ltb c b'0' || ltb b'9' c then false else rest

pub code_is_valid : Option (List ℕ) → Bool
code_is_valid none = false
code_is_valid (some code) =
    if digits_from code 0 code_length then get_or code code_length 0 == 0 else false

-- snprintf(code, capacity, "%06lu", value): what it writes, and the length that it returns.
pub snprintf_06lu : ℕ → ℕ → List ℕ × ℕ
unfolding decimal
snprintf_06lu capacity value =
    let digits = decimal 10 value [] in
    let text = replicate (6 - length digits) b'0' ++ digits in
    (take (capacity - 1) text, length text)

-- vt_pairing_code_from_entropy: the code that it writes, and what it returns.
pub code_from_entropy : ℕ → Option (List ℕ) → Option (List ℕ) × Bool
unfolding snprintf_06lu
code_from_entropy entropy none = (none, false)
code_from_entropy entropy (some code) =
    let value = 100000 + entropy % 900000 in
    let (written, n) = snprintf_06lu (code_length + 1) value in (some written, n == code_length)
