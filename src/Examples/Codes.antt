-- ===== src/Examples/Codes.antt =====
-- A new device: no stored code, a random one, and its hash.
use veetee_vuqb.Base.{
  ℕ, ◌<◌, ◌≡◌, true, false, if◌then◌else◌, ltb, some, List, [], ◌∷◌, All, replicate, arith,
}
use veetee_vuqb.Base.Esp.{EspError}
use veetee_vuqb.Pairing.{code_is_valid}
use veetee_vuqb.Pairing.Storing.{
  HashAnswers, Storage, pairing_load_or_create, IsPaired, pairing_load_or_create-IsPaired,
}

abbrev blank : Storage
blank = record {
  opened = EspError.ok;
  not_found = true;
  got = EspError.fail;
  code = [];
  set = EspError.ok;
  committed = EspError.ok;
}

-- A digest that shows the first byte of what it is given.
abbrev byte_of : ℕ → ℕ
byte_of b = if ltb b 256 then b else 0

abbrev digest_of : List ℕ → List ℕ
digest_of [] = replicate 32 171
digest_of (b ∷ bs) = byte_of b ∷ replicate 31 171

digest_bytes : (input : List ℕ) → All (λ b. b < 256) (digest_of input)
digest_bytes [] = omega arith
digest_bytes (b ∷ bs) = (ground arith, omega arith)

abbrev hashed : HashAnswers
hashed = record {
  started = true;
  set_up = true;
  updated = true;
  finished = true;
  digest = digest_of;
}

pairing_load_or_create-IsPaired_example :
    let after = pairing_load_or_create blank 42 hashed in
    (after.0 ≡ EspError.ok → IsPaired hashed after)
    × (true ≡ false → code_is_valid (some []) ≡ true → after.1 ≡ [])
pairing_load_or_create-IsPaired_example =
    pairing_load_or_create-IsPaired blank 42 hashed digest_bytes
