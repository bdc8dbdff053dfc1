-- ===== src/Conversation/Arrivals.antt =====
-- The audio that arrives: what is encoded for the wire reaches the playback queue.
use veetee_vuqb.Base.{
  ℕ, ◌+◌, ◌^◌, ◌<◌, ◌≡◌, ap, ◌∙◌, refl, if◌then◌else◌, ltb, List, length, take, take-all, arith,
}
use veetee_vuqb.Protocol.{
  max_opus_payload_bytes, header_length, AudioFrame, ok, encode_frame, decode_frame,
}
use veetee_vuqb.Protocol.Wire.{IsSendable, encode_accepts}
use veetee_vuqb.Protocol.Decoding.{decoded, length-encode_frame, decode_audio-encode_audio}
use veetee_vuqb.Conversation.{App, queue_send}
use veetee_vuqb.Conversation.Packets.{zero_frame, packet_of, audio_callback}

-- The callback on bytes that the decoder accepts.
audio_callback-accepted :
    (profile : ℕ) (bytes : List ℕ) (frame : AudioFrame) (app : App)
    → decode_frame profile bytes zero_frame ≡ (ok, frame)
    → 0 < length bytes
    → audio_callback profile bytes app ≡ (
        if ltb max_opus_payload_bytes (length bytes) then app else record app {
          playback_queue = queue_send app.playback_depth app.playback_queue (packet_of frame);
        })
unfolding audio_callback
audio_callback-accepted profile bytes frame app accepted filled =
    rw (audio_callback, accepted) (ground arith)

encode_frame-length :
    (frame : AudioFrame) (payload output : List ℕ) (capacity n : ℕ)
    → IsSendable frame payload output capacity
    → (encode_frame frame payload output capacity n).2
      ≡ header_length frame.profile + frame.payload_len
encode_frame-length frame payload output capacity n h =
    ap (λ r. r.2) (encode_accepts frame payload output capacity n h)

-- A frame that the encoder writes for the wire reaches the playback queue as its payload, when the queue
-- has room, if the whole of it, with the header of its profile, is at most 1500 bytes. The callback passes
-- over a longer one, although its payload is in bounds.
pub audio_callback-encode_frame :
    (frame : AudioFrame) (payload output : List ℕ) (capacity n : ℕ) (app : App)
    → IsSendable frame payload output capacity
    → frame.timestamp_ms < 2 ^ 32
    → let (result, output', n') = encode_frame frame payload output capacity n in
      audio_callback frame.profile (take n' output') app ≡ (
        if ltb max_opus_payload_bytes (header_length frame.profile + frame.payload_len)
        then app
        else record app {
          playback_queue =
              queue_send app.playback_depth app.playback_queue (take frame.payload_len payload);
        })
audio_callback-encode_frame frame payload output capacity n app h b =
    let (result, output', n') = encode_frame frame payload output capacity n in
    let p = take frame.payload_len payload in
    let size : length (take n' output') ≡ header_length frame.profile + frame.payload_len =
      length-encode_frame frame payload output capacity n h
      ∙ encode_frame-length frame payload output capacity n h in
    audio_callback-accepted frame.profile (take n' output')
      (decoded frame.profile frame.timestamp_ms p) app
      (decode_audio-encode_audio frame zero_frame payload output capacity n h b).1
      (omega (arith, size, h.sized))
    ∙ rw (size, take-all (length p) p (omega arith)) refl
