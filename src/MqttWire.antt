-- ===== src/MqttWire.antt =====
-- veetee-firmware/main/veetee_mqtt_udp_wire.c and veetee_mqtt_udp_wire.h: the frames of the MQTT
-- profile's UDP audio path.
pub mod Bytes
pub mod Decoding
use veetee_vuqb.Base.{
  ℕ, ◌+◌, ◌-◌, ◌%◌, ◌^◌, Bool, true, false, not, ◌&&◌, ◌||◌, if◌then◌else◌, ltb, ◌==◌, Option, none,
  some, List, [], ◌∷◌, length, get_or, set, take, drop,
}
use veetee_vuqb.Base.Buffer.{copy_at, put_u16, put_u32, get_u16, get_u32}

abbrev pub header_size : ℕ
header_size = 16

abbrev pub packet_type : ℕ
packet_type = 0x01

abbrev pub max_payload_bytes : ℕ
max_payload_bytes = 1400

-- vt_mqtt_udp_frame_t
pub record UdpFrame : Type 0 where
  pub flags : ℕ
  pub ssrc : ℕ
  pub timestamp_ms : ℕ
  pub sequence : ℕ
  pub payload : Option (List ℕ)
  pub payload_len : ℕ

-- vt_mqtt_udp_result_t
pub data WireResult : Type 0 where
  ok err_argument err_short err_header err_length err_payload err_sequence : WireResult

-- The writes of vt_mqtt_udp_encode.
unfoldable pub write_frame : UdpFrame → List ℕ → List ℕ → List ℕ
write_frame frame payload output =
    let o = set output 0 packet_type in
    let o = set o 1 frame.flags in
    let o = put_u16 o 2 frame.payload_len in
    let o = put_u32 o 4 frame.ssrc in
    let o = put_u32 o 8 frame.timestamp_ms in
    let o = put_u32 o 12 frame.sequence in copy_at o header_size (take frame.payload_len payload)

-- vt_mqtt_udp_encode with no pointer NULL.
unfoldable pub encode_frame : UdpFrame → List ℕ → List ℕ → ℕ → ℕ → WireResult × List ℕ × ℕ
encode_frame frame payload output output_capacity output_length =
    if frame.payload_len == 0 || ltb max_payload_bytes frame.payload_len
    then (err_argument, output, output_length)
    else if frame.sequence == 0
    then (err_sequence, output, output_length)
    else let frame_length = header_size + frame.payload_len in
      if ltb output_capacity frame_length
      then (err_argument, output, output_length)
      else (ok, write_frame frame payload output, frame_length)

encode_payload : UdpFrame → Option (List ℕ) → List ℕ → ℕ → ℕ → WireResult × List ℕ × ℕ
encode_payload frame none output output_capacity output_length =
    (err_argument, output, output_length)
encode_payload frame (some payload) output output_capacity output_length =
    encode_frame frame payload output output_capacity output_length

-- vt_mqtt_udp_encode, with the tests for NULL: the result, the output, the output length.
unfoldable pub encode :
    Option UdpFrame → Option (List ℕ) → ℕ → Option ℕ → WireResult × Option (List ℕ) × Option ℕ
unfolding encode_payload
encode (some frame) (some output) output_capacity (some output_length) =
    let (result, output', length') =
      encode_payload frame frame.payload output output_capacity output_length in
    (result, some output', some length')
encode frame output output_capacity output_length = (err_argument, output, output_length)

-- vt_mqtt_udp_decode with no pointer NULL; `input_length` is the length of the input.
unfoldable pub decode_frame : List ℕ → UdpFrame → WireResult × UdpFrame
decode_frame input frame =
    let input_length = length input in
    if ltb input_length header_size
    then (err_short, frame)
    else if not (get_or input 0 0 == packet_type)
    then (err_header, frame)
    else let payload_len = get_u16 input 2 in
      if payload_len == 0 || ltb max_payload_bytes payload_len
      then (err_payload, frame)
      else if not (input_length == header_size + payload_len)
      then (err_length, frame)
      else let sequence = get_u32 input 12 in
        if sequence == 0
        then (err_sequence, frame)
        else let decoded : UdpFrame = record {
          flags = get_or input 1 0;
          ssrc = get_u32 input 4;
          timestamp_ms = get_u32 input 8;
          sequence = sequence;
          payload = some (drop header_size input);
          payload_len = payload_len;
        } in
          (ok, decoded)

unfoldable pub decode : Option (List ℕ) → Option UdpFrame → WireResult × Option UdpFrame
decode (some input) (some frame) =
    let (result, frame') = decode_frame input frame in (result, some frame')
decode input frame = (err_argument, frame)
