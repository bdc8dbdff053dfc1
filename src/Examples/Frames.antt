-- ===== src/Examples/Frames.antt =====
-- Audio frames of both transports at concrete payloads and buffers.
use veetee_vuqb.Base.{
  ℕ, ◌+◌, ◌≡◌, ◌≢◌, refl, some, List, [], ◌∷◌, ◌++◌, take, drop, replicate, All, arith,
}
use veetee_vuqb.Base.Buffer
use veetee_vuqb.Base.Buffer.{IsByte}
use veetee_vuqb.Protocol
use veetee_vuqb.Protocol.{
  AudioFrame, max_opus_payload_bytes, ws_v1_compat, ws_v3, header_length,
  is_supported_opus_sample_rate, server_sample_rate_compatible,
}
use veetee_vuqb.Protocol.Wire
use veetee_vuqb.Protocol.Wire.{encode_audio-writes}
use veetee_vuqb.Protocol.Decoding.{decoded, decode_audio-encode_audio, decode_audio_unchanged}
use veetee_vuqb.MqttWire
use veetee_vuqb.MqttWire.{UdpFrame, header_size, max_payload_bytes}
use veetee_vuqb.MqttWire.Bytes
use veetee_vuqb.MqttWire.Bytes.{encode-writes}
use veetee_vuqb.MqttWire.Decoding.{IsWord, decode-encode, decode_unchanged}

abbrev sound : List ℕ
sound = 10 ∷ 20 ∷ 30 ∷ []

abbrev buffer : List ℕ
buffer = replicate 24 255

abbrev voice : AudioFrame
voice = record { profile = 2; payload = some sound; payload_len = 3; timestamp_ms = 70000 }

voice-IsSendable : Wire.IsSendable voice sound buffer 24
voice-IsSendable = record {
  known = (omega arith, omega arith);
  sized = (omega arith, omega arith);
  readable = omega arith;
  room = omega arith;
  writable = omega arith;
}

encode_audio-writes_example : Protocol.encode_frame voice sound buffer 24 0 ≡ (
  Protocol.ok,
  (Wire.wire_header 2 70000 3 ++ take 3 sound) ++ drop (header_length 2 + 3) buffer,
  header_length 2 + 3,
)
encode_audio-writes_example = encode_audio-writes voice sound buffer 24 0 voice-IsSendable

decode_audio-encode_audio_example :
    let (result, output', n') = Protocol.encode_frame voice sound buffer 24 0 in
    (result ≡ Protocol.ok)
    × (Protocol.decode_frame 2 (take n' output') voice
        ≡ (Protocol.ok, decoded 2 70000 (take 3 sound)))
decode_audio-encode_audio_example =
    decode_audio-encode_audio voice voice sound buffer 24 0 voice-IsSendable (omega arith)

abbrev v3_bytes : List ℕ
v3_bytes = 0 ∷ 0 ∷ 0 ∷ 2 ∷ 7 ∷ 8 ∷ []

abbrev v3_frame : AudioFrame
v3_frame = record { profile = 3; payload = some (7 ∷ 8 ∷ []); payload_len = 2; timestamp_ms = 0 }

v3_decodes : Protocol.decode_frame 3 v3_bytes voice ≡ (Protocol.ok, v3_frame)
unfolding Protocol.decode_frame Buffer.get_u16
v3_decodes = refl

v2_refused : (Protocol.decode_frame 2 v3_bytes voice).0 ≢ Protocol.ok
unfolding Protocol.decode_frame
v2_refused q = cc

decode_audio_unchanged_example : (Protocol.decode_frame 2 v3_bytes voice).1 ≡ voice
decode_audio_unchanged_example = decode_audio_unchanged 2 v3_bytes voice v2_refused

abbrev datagram : UdpFrame
datagram = record {
  flags = 9;
  ssrc = 77;
  timestamp_ms = 70000;
  sequence = 5;
  payload = some sound;
  payload_len = 3;
}

datagram-IsSendable : Bytes.IsSendable datagram sound buffer 24
datagram-IsSendable = record {
  sized = (omega arith, omega arith);
  numbered = omega arith;
  readable = omega arith;
  room = omega arith;
  writable = omega arith;
}

datagram-IsWord : IsWord datagram
datagram-IsWord = record {
  flags = omega arith;
  ssrc = omega arith;
  timestamp = omega arith;
  sequence = omega arith;
}

encode-writes_example : MqttWire.encode_frame datagram sound buffer 24 0 ≡ (
  MqttWire.ok,
  (Bytes.wire_header datagram ++ take 3 sound) ++ drop (header_size + 3) buffer,
  header_size + 3,
)
encode-writes_example = encode-writes datagram sound buffer 24 0 datagram-IsSendable

decode-encode_example :
    let (result, output', n') = MqttWire.encode_frame datagram sound buffer 24 0 in
    (result ≡ MqttWire.ok)
    × (MqttWire.decode_frame (take n' output') datagram
        ≡ (MqttWire.ok, record datagram { payload = some (take 3 sound) }))
decode-encode_example =
    decode-encode datagram datagram sound buffer 24 0 datagram-IsSendable datagram-IsWord

abbrev packet_bytes : List ℕ
packet_bytes = 1 ∷ 9 ∷ 0 ∷ 1 ∷ 0 ∷ 0 ∷ 0 ∷ 77 ∷ 0 ∷ 0 ∷ 1 ∷ 2 ∷ 0 ∷ 0 ∷ 0 ∷ 5 ∷ 42 ∷ []

abbrev packet_frame : UdpFrame
packet_frame = record {
  flags = 9;
  ssrc = 77;
  timestamp_ms = 258;
  sequence = 5;
  payload = some (42 ∷ []);
  payload_len = 1;
}

packet_decodes : MqttWire.decode_frame packet_bytes datagram ≡ (MqttWire.ok, packet_frame)
unfolding MqttWire.decode_frame Buffer.get_u16 Buffer.get_u32
packet_decodes = refl

packet_bytes-IsByte : All IsByte packet_bytes
packet_bytes-IsByte = (
  omega arith,
  (
    omega arith,
    (
      omega arith,
      (
        omega arith,
        (
          omega arith,
          (
            omega arith,
            (
              omega arith,
              (
                omega arith,
                (
                  omega arith,
                  (
                    omega arith,
                    (
                      omega arith,
                      (
                        omega arith,
                        (
                          omega arith,
                          (omega arith, (omega arith, (omega arith, (omega arith, tt)))),
                        ),
                      ),
                    ),
                  ),
                ),
              ),
            ),
          ),
        ),
      ),
    ),
  ),
)

v3_is_no_packet : (MqttWire.decode_frame v3_bytes datagram).0 ≢ MqttWire.ok
unfolding MqttWire.decode_frame
v3_is_no_packet q = cc

decode_unchanged_example : (MqttWire.decode_frame v3_bytes datagram).1 ≡ datagram
decode_unchanged_example = decode_unchanged v3_bytes datagram v3_is_no_packet
