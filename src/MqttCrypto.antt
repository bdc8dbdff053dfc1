-- ===== src/MqttCrypto.antt =====
-- veetee-firmware/main/veetee_mqtt_udp_crypto.c and veetee_mqtt_udp_crypto.h: AES-CTR packets of
-- one MQTT session, as built for the device (ESP_PLATFORM).
pub mod Session
pub mod Packets
pub mod Nonces
use veetee_vuqb.Base.{
  ℕ, ◌+◌, ◌-◌, ◌%◌, ◌^◌, Bool, true, false, not, ◌&&◌, ◌||◌, if◌then◌else◌, ltb, leb, ◌==◌, Option,
  none, some, List, [], ◌∷◌, length, get_or, take, drop,
}
use veetee_vuqb.Base.Buffer.{copy_at}
use veetee_vuqb.MqttWire
use veetee_vuqb.MqttWire.{UdpFrame, WireResult, header_size, packet_type, max_payload_bytes}

-- vt_mqtt_udp_crypto_result_t
pub data CryptoResult : Type 0 where
  ok err_argument err_key err_nonce err_state : CryptoResult
  err_sequence err_capacity err_frame err_crypto : CryptoResult

abbrev pub key_bytes : ℕ
key_bytes = 16

abbrev pub nonce_bytes : ℕ
nonce_bytes = 16

-- vt_mqtt_udp_crypto_t
pub record Crypto : Type 0 where
  pub key : List ℕ
  pub nonce : List ℕ
  pub send_sequence : ℕ
  pub ready : Bool

-- What the PSA library answers during one call of crypt_payload: which steps succeed, what
-- psa_cipher_update writes for a key, an IV and an input, and what psa_cipher_finish reports.
pub record Psa : Type 0 where
  pub init_ok : Bool
  pub import_ok : Bool
  pub setup_ok : Bool
  pub set_iv_ok : Bool
  pub update : List ℕ → List ℕ → List ℕ → Option (List ℕ)
  pub finish_ok : Bool
  pub finished : ℕ

-- The steps after the import of the key; the output is written where psa_cipher_update succeeds.
unfoldable pub run_cipher : Psa → Option (List ℕ) → ℕ → List ℕ → ℕ → CryptoResult × List ℕ
run_cipher psa none n output offset = (err_crypto, output)
run_cipher psa (some written) n output offset = (
  if psa.finish_ok && (psa.finished == 0) && (length written == n) then ok else err_crypto,
  copy_at output offset written,
)

-- crypt_payload; its callers pass no NULL. The result goes to `output` at `offset`.
unfoldable pub crypt_payload : Psa → List ℕ → List ℕ → List ℕ → List ℕ → ℕ → CryptoResult × List ℕ
crypt_payload psa key iv input output offset =
    if not psa.init_ok
    then (err_crypto, output)
    else if not psa.import_ok
    then (err_crypto, output)
    else if psa.setup_ok && psa.set_iv_ok
    then run_cipher psa (psa.update key iv input) (length input) output offset
    else (err_crypto, output)

pub map_wire_error : WireResult → CryptoResult
map_wire_error WireResult.err_sequence = err_sequence
map_wire_error _ = err_frame

abbrev pub wire_is_ok : WireResult → Bool
wire_is_ok WireResult.ok = true
wire_is_ok _ = false

abbrev pub is_ok : CryptoResult → Bool
is_ok ok = true
is_ok _ = false

pub wipe_bytes : List ℕ → List ℕ
wipe_bytes [] = []
wipe_bytes (x ∷ xs) = 0 ∷ wipe_bytes xs

unfoldable pub reset : Crypto → Crypto
reset crypto = record {
  key = wipe_bytes crypto.key;
  nonce = wipe_bytes crypto.nonce;
  send_sequence = 0;
  ready = false;
}

-- vt_mqtt_udp_crypto_init with no pointer NULL; the lengths are those of `key` and `nonce`.
unfoldable pub init : Crypto → List ℕ → List ℕ → CryptoResult × Crypto
unfolding reset
init crypto key nonce =
    if not (length key == key_bytes)
    then (err_key, crypto)
    else if not (length nonce == nonce_bytes) || not (get_or nonce 0 0 == packet_type)
    then (err_nonce, crypto)
    else let wiped = reset crypto in
      let keyed = record wiped { key = copy_at wiped.key 0 (take key_bytes key) } in
      let nonced = record keyed { nonce = copy_at keyed.nonce 0 (take nonce_bytes nonce) } in
      (ok, record nonced { ready = true })

-- The end of vt_mqtt_udp_crypto_encrypt: the payload behind the header is sealed in place, and the
-- sequence advances where that succeeds.
unfoldable pub seal_frame :
    Psa → Crypto → ℕ → ℕ → List ℕ → ℕ → ℕ → CryptoResult × Crypto × List ℕ × ℕ
seal_frame psa crypto opus_length sequence encoded encoded_length output_length =
    let (crypt_result, sealed) =
      crypt_payload psa crypto.key (take header_size encoded)
        (take opus_length (drop header_size encoded)) encoded header_size in
    if not (is_ok crypt_result)
    then (crypt_result, crypto, sealed, output_length)
    else (ok, record crypto { send_sequence = sequence }, sealed, encoded_length)

-- Its middle: the frame is encoded into the output.
unfoldable pub send_frame :
    Psa → Crypto → List ℕ → UdpFrame → List ℕ → ℕ → ℕ → CryptoResult × Crypto × List ℕ × ℕ
send_frame psa crypto opus frame output output_capacity output_length =
    let (wire_result, encoded, encoded_length) =
      MqttWire.encode_frame frame opus output output_capacity 0 in
    if not (wire_is_ok wire_result)
    then (map_wire_error wire_result, crypto, encoded, output_length)
    else seal_frame psa crypto (length opus) frame.sequence encoded encoded_length output_length

-- vt_mqtt_udp_crypto_encrypt with no pointer NULL, on an `opus` of `opus_length` bytes: the result,
-- the session, the output and the output length.
unfoldable pub encrypt :
    Psa → Crypto → List ℕ → ℕ → ℕ → List ℕ → ℕ → ℕ → CryptoResult × Crypto × List ℕ × ℕ
encrypt psa crypto opus timestamp_ms ssrc output output_capacity output_length =
    let opus_length = length opus in
    if not crypto.ready
    then (err_state, crypto, output, output_length)
    else if opus_length == 0 || ltb max_payload_bytes opus_length
    then (err_frame, crypto, output, output_length)
    else if leb (2 ^ 32 - 1) crypto.send_sequence
    then (err_sequence, crypto, output, output_length)
    else if ltb output_capacity (header_size + opus_length)
    then (err_capacity, crypto, output, output_length)
    else let frame : UdpFrame = record {
      flags = get_or crypto.nonce 1 0;
      ssrc = ssrc;
      timestamp_ms = timestamp_ms;
      sequence = (crypto.send_sequence + 1) % 2 ^ 32;
      payload = some opus;
      payload_len = opus_length % 2 ^ 16;
    } in
      send_frame psa crypto opus frame output output_capacity output_length

abbrev pub zero_frame : UdpFrame
zero_frame = record {
  flags = 0;
  ssrc = 0;
  timestamp_ms = 0;
  sequence = 0;
  payload = none;
  payload_len = 0;
}

-- vt_mqtt_udp_crypto_decrypt with no pointer NULL: the result, the Opus output and the frame.
unfoldable pub decrypt :
    Psa → Crypto → List ℕ → List ℕ → ℕ → UdpFrame → CryptoResult × List ℕ × UdpFrame
decrypt psa crypto input opus_output opus_capacity frame =
    if not crypto.ready
    then (err_state, opus_output, frame)
    else let (wire_result, wire_frame) = MqttWire.decode_frame input zero_frame in
      if not (wire_is_ok wire_result)
      then (map_wire_error wire_result, opus_output, frame)
      else if not (wire_frame.flags == get_or crypto.nonce 1 0)
      then (err_frame, opus_output, frame)
      else if ltb opus_capacity wire_frame.payload_len
      then (err_capacity, opus_output, frame)
      else let (crypt_result, opened) =
          crypt_payload psa crypto.key (take header_size input)
            (take wire_frame.payload_len (drop header_size input)) opus_output 0 in
        if not (is_ok crypt_result)
        then (crypt_result, opened, frame)
        else (ok, opened, record wire_frame { payload = some opened })
