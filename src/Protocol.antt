-- ===== src/Protocol.antt =====
-- veetee-firmware/main/veetee_protocol.c and veetee_protocol.h: audio frames of the WebSocket
-- profiles. A buffer is the list of its bytes, a pointer an Option, and a function returns what it
-- leaves behind its pointers beside its result.
pub mod Wire
pub mod Decoding
pub mod Rates
use veetee_vuqb.Base.{
  ℕ, ◌+◌, ◌-◌, ◌%◌, ◌^◌, Bool, true, false, not, ◌&&◌, ◌||◌, if◌then◌else◌, ltb, ◌==◌, Option, none,
  some, List, [], ◌∷◌, length, get_or, set, take, drop,
}
use veetee_vuqb.Base.Buffer.{copy_at, put_u16, put_u32, get_u16, get_u32}

-- VT_MAX_OPUS_PAYLOAD_BYTES
abbrev pub max_opus_payload_bytes : ℕ
max_opus_payload_bytes = 1500

-- vt_protocol_profile_t, a C enum: any number can stand in it, and these three are its names.
abbrev pub ws_v1_compat : ℕ
ws_v1_compat = 1

abbrev pub ws_v2 : ℕ
ws_v2 = 2

abbrev pub ws_v3 : ℕ
ws_v3 = 3

-- vt_audio_frame_t: the payload is what its pointer points to
pub record AudioFrame : Type 0 where
  pub profile : ℕ
  pub payload : Option (List ℕ)
  pub payload_len : ℕ
  pub timestamp_ms : ℕ

-- vt_protocol_result_t
pub data ProtocolResult : Type 0 where
  ok err_argument err_short err_header err_length err_payload : ProtocolResult

abbrev pub header_length : ℕ → ℕ
header_length profile = if profile == ws_v1_compat then 0 else if profile == ws_v2 then 16 else 4

abbrev pub unknown_profile : ℕ → Bool
unknown_profile profile = ltb profile ws_v1_compat || ltb ws_v3 profile

-- The three branches that write a frame into the output.
unfoldable pub write_frame : ℕ → ℕ → ℕ → List ℕ → List ℕ → List ℕ
write_frame profile timestamp_ms payload_len payload output =
    if profile == ws_v1_compat
    then copy_at output 0 (take payload_len payload)
    else if profile == ws_v2
    then (let o = put_u16 output 0 2 in
        let o = put_u16 o 2 0 in
        let o = put_u32 o 4 0 in
        let o = put_u32 o 8 timestamp_ms in
        let o = put_u32 o 12 payload_len in copy_at o 16 (take payload_len payload))
    else (let o = set output 0 0 in
        let o = set o 1 0 in
        let o = put_u16 o 2 payload_len in copy_at o 4 (take payload_len payload))

-- vt_protocol_encode_audio with no pointer NULL.
unfoldable pub encode_frame : AudioFrame → List ℕ → List ℕ → ℕ → ℕ → ProtocolResult × List ℕ × ℕ
encode_frame frame payload output output_capacity output_length =
    if frame.payload_len == 0 || ltb max_opus_payload_bytes frame.payload_len
    then (err_argument, output, output_length)
    else let header_len = header_length frame.profile in
      if unknown_profile frame.profile || ltb output_capacity (header_len + frame.payload_len)
      then (err_argument, output, output_length)
      else (
        ok,
        write_frame frame.profile frame.timestamp_ms frame.payload_len payload output,
        header_len + frame.payload_len,
      )

encode_payload : AudioFrame → Option (List ℕ) → List ℕ → ℕ → ℕ → ProtocolResult × List ℕ × ℕ
encode_payload frame none output output_capacity output_length =
    (err_argument, output, output_length)
encode_payload frame (some payload) output output_capacity output_length =
    encode_frame frame payload output output_capacity output_length

-- vt_protocol_encode_audio, with the tests for NULL: the result, the output, the output length.
pub encode_audio :
    Option AudioFrame → Option (List ℕ) → ℕ → Option ℕ → ProtocolResult × Option (List ℕ) × Option ℕ
unfolding encode_payload encode_frame
encode_audio (some frame) (some output) output_capacity (some output_length) =
    let (result, output', length') =
      encode_payload frame frame.payload output output_capacity output_length in
    (result, some output', some length')
encode_audio frame output output_capacity output_length = (err_argument, output, output_length)

-- vt_protocol_decode_audio with no pointer NULL; `input_length` is the length of the input.
unfoldable pub decode_frame : ℕ → List ℕ → AudioFrame → ProtocolResult × AudioFrame
decode_frame profile input frame =
    let input_length = length input in
    if input_length == 0
    then (err_argument, frame)
    else let header_len = header_length profile in
      if unknown_profile profile || ltb input_length header_len
      then (err_short, frame)
      else let payload_len = input_length - header_len in
        let accept : ℕ → ProtocolResult × AudioFrame = λ timestamp.
          if payload_len == 0 || ltb max_opus_payload_bytes payload_len
          then (err_payload, frame)
          else let decoded : AudioFrame = record {
            profile = profile;
            payload = some (drop header_len input);
            payload_len = payload_len % 2 ^ 16;
            timestamp_ms = timestamp;
          } in
            (ok, decoded) in
        if profile == ws_v2
        then if not (get_u16 input 0 == 2)
            || not (get_u16 input 2 == 0)
            || not (get_u32 input 4 == 0)
          then (err_header, frame)
          else if not (get_u32 input 12 == payload_len)
          then (err_length, frame)
          else accept (get_u32 input 8)
        else if profile == ws_v3
        then if not (get_or input 0 0 == 0) || not (get_or input 1 0 == 0)
          then (err_header, frame)
          else if not (get_u16 input 2 == payload_len)
          then (err_length, frame)
          else accept 0
        else accept 0

pub decode_audio : ℕ → Option (List ℕ) → Option AudioFrame → ProtocolResult × Option AudioFrame
unfolding decode_frame
decode_audio profile (some input) (some frame) =
    let (result, frame') = decode_frame profile input frame in (result, some frame')
decode_audio profile input frame = (err_argument, frame)

-- vt_protocol_is_supported_opus_sample_rate; a rate is an int, and no negative one is listed.
unfoldable pub is_supported_opus_sample_rate : ℕ → Bool
is_supported_opus_sample_rate sample_rate =
    sample_rate == 8000
    || sample_rate == 12000
    || sample_rate == 16000
    || sample_rate == 24000
    || sample_rate == 48000

unfoldable pub server_sample_rate_compatible : ℕ → ℕ → ℕ → Bool
server_sample_rate_compatible profile advertised configured =
    if unknown_profile profile
      || not (is_supported_opus_sample_rate advertised)
      || not (is_supported_opus_sample_rate configured)
    then false
    else profile == ws_v1_compat || advertised == configured
