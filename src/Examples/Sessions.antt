-- ===== src/Examples/Sessions.antt =====
-- Encrypted sessions with a concrete cipher in place of the library's: it inverts every byte.
use veetee_vuqb.Base.{
  ℕ, ◌-◌, ◌≡◌, refl, ap, ap₂, true, false, if◌then◌else◌, ltb, suc, some, List, [], ◌∷◌, ◌++◌, map,
  length, take, drop, replicate, arith,
}
use veetee_vuqb.MqttCrypto.{Crypto, Psa, ok, encrypt, zero_frame, decrypt}
use veetee_vuqb.MqttCrypto.Session.{IsSession}
use veetee_vuqb.MqttCrypto.Packets.{Ctr, IsWorking, next_frame, CanSend, decrypt-encrypt}
use veetee_vuqb.MqttCrypto.Nonces.{Call, ivs, AllDistinct, ivs-AllDistinct}

invert : ℕ → ℕ
invert b = if ltb 255 b then b else 255 - b

invert-invert : (b : ℕ) → invert (invert b) ≡ b
unfolding invert
invert-invert b = ground arith

length-map : (xs : List ℕ) → length (map invert xs) ≡ length xs
length-map [] = refl
length-map (x ∷ xs) = ap suc (length-map xs)

map-map : (xs : List ℕ) → map invert (map invert xs) ≡ xs
map-map [] = refl
map-map (x ∷ xs) = ap₂ (◌∷◌) (invert-invert x) (map-map xs)

abbrev inverting : Ctr
inverting = record {
  ctr = λ key iv xs. map invert xs;
  length-ctr = λ key iv xs. length-map xs;
  ctr-ctr = λ key iv xs. map-map xs;
}

abbrev library : Psa
library = record {
  init_ok = true;
  import_ok = true;
  setup_ok = true;
  set_iv_ok = true;
  update = λ key iv xs. some (map invert xs);
  finish_ok = true;
  finished = 0;
}

library-IsWorking : IsWorking inverting library
library-IsWorking = record {
  init_works = refl;
  import_works = refl;
  setup_works = refl;
  set_iv_works = refl;
  finish_works = refl;
  finishes = refl;
  updates = λ key iv xs. refl;
}

abbrev session : Crypto
session = record {
  key = replicate 16 7;
  nonce = 1 ∷ 9 ∷ replicate 14 0;
  send_sequence = 41;
  ready = true;
}

session-IsSession : IsSession session
session-IsSession = record { key_size = refl; nonce_size = refl }

abbrev sound : List ℕ
sound = 10 ∷ 20 ∷ 30 ∷ []

abbrev buffer : List ℕ
buffer = replicate 20 0

session-CanSend : CanSend session sound buffer 20
session-CanSend = record {
  ready = refl;
  sized = (omega arith, omega arith);
  sequence_left = omega arith;
  room = omega arith;
  writable = omega arith;
}

abbrev new_key : List ℕ
new_key = replicate 16 3

abbrev new_nonce : List ℕ
new_nonce = 1 ∷ replicate 15 8

decrypt-encrypt_example :
    let (result, s', output', n') = encrypt library session sound 5 6 buffer 20 0 in
    let opened = sound ++ drop 3 buffer in
    decrypt library session (take n' output') buffer 20 zero_frame
    ≡ (ok, opened, record (next_frame session sound 5 6) { payload = some opened })
decrypt-encrypt_example =
    decrypt-encrypt inverting library library-IsWorking session session sound buffer buffer 5 6 20 0
      20 zero_frame session-CanSend (refl, refl, refl) (omega arith, omega arith, omega arith)
      (omega arith, omega arith)

abbrev broken : Psa
broken = record library { finish_ok = false }

abbrev call : Psa → Call
call psa = record {
  psa = psa;
  opus = sound;
  timestamp_ms = 5;
  ssrc = 6;
  output = buffer;
  capacity = 20;
}

abbrev calls : List Call
calls = call library ∷ call broken ∷ call library ∷ []

ivs-AllDistinct_example : AllDistinct (ivs session calls)
ivs-AllDistinct_example =
    ivs-AllDistinct session calls (omega arith, (omega arith, (omega arith, tt)))
